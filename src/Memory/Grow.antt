-- ===== src/Memory/Grow.antt =====
-- memory_grow: the size that it leaves, the bytes that it keeps, and its failures.
use wasm_doctor.Prelude.{
  ℕ, ◌+◌, ◌*◌, ◌/◌, ◌%◌, ◌^◌, ◌≤◌, ◌<◌, ◌≡◌, refl, false, ◌||◌, ltb, ◌==◌, ◌⊎◌, Result, ok, err,
  fault, enomem, guard, arith, Bool-cases, inl, inr, ==_eq, le→leb, lt→ltb, le→ltb,
}
use wasm_doctor.Memory.{
  Meminst, Realloc, resize_array, grow_realloc, memory_grow_impl, page_size, grow_failed,
}
use wasm_doctor.Memory.Bounds.{IsValid, byte, small, lt_or_le, byte-extend}

-- The outcomes of growing a memory by `sz` pages.
abbrev pub Grown : Realloc → Meminst → ℕ → Result (ℕ × Meminst) → Type 0
Grown realloc mi sz (ok (n, mi')) =
    ((n ≡ mi.size_in_pages)
      × (mi'.size_in_pages ≡ mi.size_in_pages + sz)
      × IsValid mi'
      × ((i : ℕ) → byte mi' i ≡ byte mi i))
    ⊎ ((n ≡ grow_failed)
        × (mi' ≡ mi)
        × ((mi.max < mi.size_in_pages + sz) ⊎ (realloc ((mi.size_in_pages + sz) * 65536) ≡ false)))
Grown realloc mi sz (err e) = ⊥
Grown realloc mi sz fault = ⊥

bytes_mod : (n : ℕ) → n < 2 ^ 32 → 65536 * n % 2 ^ 64 ≡ n * 65536
bytes_mod n h = omega arith

bytes_div : (n : ℕ) → n * 65536 / 65536 ≡ n
bytes_div n = omega arith

bytes_ne : (n : ℕ) → 0 < n → (n * 65536 == 0) ≡ false
bytes_ne n h = ground arith

pages_below : (a p q : ℕ) → a ≤ p * 65536 → p < q → a / 65536 < q
pages_below a p q h lt = omega arith

resize_array-pages :
    (realloc : Realloc) (pages : ℕ)
    → 0 < pages
    → pages < 2 ^ 32
    → resize_array realloc 65536 pages ≡ guard (realloc (pages * 65536)) enomem
unfolding resize_array
resize_array-pages realloc pages h lt =
    rw (bytes_mod pages lt, bytes_div pages, bytes_ne pages h, ==_eq pages pages refl) refl

reallocated-Grown :
    (realloc : Realloc) (mi : Meminst) (sz : ℕ)
    → IsValid mi
    → mi.size_in_pages + sz ≤ mi.max
    → 0 < sz
    → Grown realloc mi sz (grow_realloc realloc mi (mi.size_in_pages + sz))
unfolding grow_realloc
reallocated-Grown realloc mi sz v b h =
    let r =
      resize_array-pages realloc (mi.size_in_pages + sz) (omega arith)
        (omega (arith, v.max_bound)) in
    let l =
      lt→ltb mi.allocated ((mi.size_in_pages + sz) * page_size)
        (omega (arith, v.allocated_bound)) in
    elim (Bool-cases (realloc ((mi.size_in_pages + sz) * 65536))) [
      | inr e ↦ rw (r, e, grow_realloc) (inr (refl, refl, inr e))
      | inl e ↦
          rw (r, e, l, grow_realloc)
            (inl (
              refl,
              refl,
              record { allocated_bound = omega arith; pages_bound = b; max_bound = v.max_bound },
              λ i.
                  byte-extend mi ((mi.size_in_pages + sz) * page_size) i
                    (omega (arith, v.allocated_bound)),
            ))
    ]

-- On a valid memory whose new size fits in 32 bits, memory_grow_impl returns the former size, leaves
-- a valid memory of the new size and keeps every byte, or it fails, leaves the memory as it is, and
-- the new size is above the maximum or realloc refuses it. No assertion fails.
pub memory_grow_impl-Grown :
    (realloc : Realloc) (mi : Meminst) (sz : ℕ)
    → IsValid mi
    → mi.size_in_pages + sz < 2 ^ 32
    → Grown realloc mi sz (memory_grow_impl realloc mi sz)
unfolding memory_grow_impl
memory_grow_impl-Grown realloc mi sz v lt =
    rw (small (mi.size_in_pages + sz) lt, le→leb mi.max 65536 v.max_bound)
      (elim (lt_or_le (mi.size_in_pages + sz) (mi.max + 1)) [
        | inr h ↦
            rw (lt→ltb mi.max (mi.size_in_pages + sz) (omega arith))
              (inr (refl, refl, inl (omega arith)))
        | inl h ↦
            rw (le→ltb mi.max (mi.size_in_pages + sz) (omega arith))
              (elim (Bool-cases
                (mi.size_in_pages + sz == mi.size_in_pages || ltb (mi.size_in_pages + sz) 4)) [
                  | inl e ↦ rw e (
                      inl (
                        refl,
                        refl,
                        record {
                          allocated_bound = omega (arith, v.allocated_bound);
                          pages_bound = omega arith;
                          max_bound = v.max_bound;
                        },
                        λ i. refl,
                      ))
                  | inr e ↦
                      rw
                        (
                          e,
                          lt→ltb (mi.allocated / page_size) (mi.size_in_pages + sz)
                              (pages_below _ _ _ v.allocated_bound (ground arith)),
                        )
                        (reallocated-Grown realloc mi sz v (omega arith) (ground arith))
                ])
      ])
