-- ===== src/Idalloc/Live.antt =====
-- When an allocation succeeds.
use wasm_doctor.Prelude.{
  ℕ, ◌+◌, ◌≤◌, ◌≡◌, refl, ◌∙◌, Bool, true, false, length, Result, ok, err, fault, Errno, arith,
  le→leb,
}
use wasm_doctor.Idalloc.{Idalloc, idalloc_alloc}
use wasm_doctor.Idalloc.Sets.{IsValid, in_use, Allocated, idalloc_alloc-Allocated}

-- An allocation that succeeds, with an identifier that is in use from then on.
abbrev pub Gives : Result (ℕ × Idalloc) → Type 0
Gives r = (x : ℕ × Idalloc) × (r ≡ ok x) × IsValid x.1 × (in_use x.1 x.0 ≡ true)

module _ (room : ℕ → Bool) (ida : Idalloc) (id : ℕ) where
  Allocated-Gives :
      ida.base ≤ id
      → id ≤ ida.base + ida.maxid
      → in_use ida id ≡ false
      → ((n : ℕ) → room n ≡ true)
      → (r : Result (ℕ × Idalloc)) → Allocated room ida r
      → Gives r
  Allocated-Gives lo hi free grants (ok (i, ida')) (v, l, h, f, u) =
      ((i, ida'), refl, v, u i ∙ ground arith)
  Allocated-Gives lo hi free grants (err Errno.erange) full = absurd (
      let e = full id in
      let a = le→leb ida.base id lo in
      let b = le→leb id (ida.base + ida.maxid) hi in ground (arith, e, free, a, b))
  Allocated-Gives lo hi free grants (err Errno.enomem) refused =
      absurd (let e = grants (length ida.vec + 1) in cc)
  Allocated-Gives lo hi free grants (err Errno.einval) h = absurd h
  Allocated-Gives lo hi free grants (err Errno.e2big) h = absurd h
  Allocated-Gives lo hi free grants (err Errno.eoverflow) h = absurd h
  Allocated-Gives lo hi free grants (err Errno.enoent) h = absurd h
  Allocated-Gives lo hi free grants (err Errno.ebadf) h = absurd h
  Allocated-Gives lo hi free grants (err Errno.etimedout) h = absurd h
  Allocated-Gives lo hi free grants (err Errno.etoywasmtrap) h = absurd h
  Allocated-Gives lo hi free grants (err Errno.etoywasmrestart) h = absurd h
  Allocated-Gives lo hi free grants (err Errno.xassert) h = absurd h
  Allocated-Gives lo hi free grants fault h = absurd h

  -- On a valid allocator, where an identifier within the bounds is not in use and realloc grants every
  -- size, `idalloc_alloc` succeeds, with a valid allocator in which the identifier that it gives is in
  -- use.
  pub idalloc_alloc-Gives :
      IsValid ida
      → ida.base ≤ id
      → id ≤ ida.base + ida.maxid
      → in_use ida id ≡ false
      → ((n : ℕ) → room n ≡ true)
      → Gives (idalloc_alloc room ida)
  idalloc_alloc-Gives v lo hi free grants =
      Allocated-Gives lo hi free grants (idalloc_alloc room ida)
        (idalloc_alloc-Allocated room ida v)
