-- ===== src/Idalloc/Sets.antt =====
-- An allocator as the set of the identifiers in use.
use wasm_doctor.Prelude.{
  ℕ, zero, suc, ◌+◌, ◌-◌, ◌%◌, ◌^◌, ◌≤◌, ◌<◌, ◌≡◌, ◌≢◌, refl, Bool, true, false, not, ◌&&◌, ◌||◌,
  none, some, List, [], ◌∷◌, ◌++◌, length, get_elem?, set, ltb, leb, ◌==◌, arith, Bool-cases,
  Option-cases, inl, inr, Result, ok, err, Errno, ◌>>=◌, le→leb, lt→ltb, lt→leb, length-set,
  length-append, get_elem?-set_self,
}
use wasm_doctor.Idalloc.{
  Idalloc, free_slot, free_index, slot_at, idalloc_getptr, idalloc_alloc, idalloc_test,
  idalloc_free, idalloc_set_user, idalloc_get_user,
}
use wasm_doctor.Idalloc.Slots.{
  taken, taken-set, taken-append, taken-bound, free_index-some, free_index-none,
}

-- All identifiers and the one behind the last fit in 32 bits.
pub record IsValid (ida : Idalloc) : Type 0 where
  pub slots_bound : length ida.vec ≤ ida.maxid + 1
  pub ids_bound : ida.base + ida.maxid + 1 < 2 ^ 32

-- The set.
abbrev pub in_use : Idalloc → ℕ → Bool
in_use ida id = leb ida.base id && taken ida.vec (id - ida.base)

small : (n : ℕ) → n < 2 ^ 32 → n % 2 ^ 32 ≡ n
small n h = omega arith

slot_at-some : (ps : List ℕ) (i p : ℕ) → get_elem? ps i ≡ some p → slot_at ps i ≡ ok p
slot_at-some ps i p e = rw (e, slot_at) refl

add_sub : (a b : ℕ) → a + b - a ≡ b
add_sub a b = omega arith

ne_zero : (n : ℕ) → (n + 1 == 0) ≡ false
ne_zero n = ground arith

slot_at-taken :
    (ps : List ℕ) (i : ℕ)
    → i < length ps
    → (slot_at ps i >>= λ p. ok (not (p == free_slot))) ≡ ok (taken ps i)
unfolding taken
slot_at-taken [] i h = elim h [ ]
slot_at-taken (p ∷ ps) zero h = refl
slot_at-taken (p ∷ ps) (suc i) h = slot_at-taken ps i (omega arith)

-- On a valid allocator, idalloc_test ends without a fault and says whether the identifier is in the set.
pub idalloc_test-in_use :
    (ida : Idalloc) (id : ℕ) → IsValid ida → idalloc_test ida id ≡ ok (in_use ida id)
unfolding idalloc_test idalloc_getptr
idalloc_test-in_use ida id v = elim (Bool-cases (ltb id ida.base)) [
  | inl a ↦ rw (a, lt→leb ida.base id (ground arith)) refl
  | inr a ↦
      rw (a, small (ida.base + length ida.vec) (omega (arith, v.slots_bound, v.ids_bound)))
        (elim (Bool-cases (leb (ida.base + length ida.vec) id)) [
          | inl b ↦ rw (b, taken-bound ida.vec (id - ida.base) (ground arith)) (ground arith)
          | inr b ↦
              rw
                (
                  b,
                  le→leb ida.base id (ground arith),
                  lt→ltb (id - ida.base) (length ida.vec) (ground arith),
                )
                (slot_at-taken ida.vec (id - ida.base) (ground arith))
        ])
]

-- The outcomes of an allocation.
abbrev pub Allocated : (ℕ → Bool) → Idalloc → Result (ℕ × Idalloc) → Type 0
Allocated room ida (ok (id, ida')) =
    IsValid ida'
    × (ida.base ≤ id)
    × (id ≤ ida.base + ida.maxid)
    × (in_use ida id ≡ false)
    × ((j : ℕ) → in_use ida' j ≡ (j == id || in_use ida j))
Allocated room ida (err Errno.erange) =
    (j : ℕ) → in_use ida j ≡ (leb ida.base j && leb j (ida.base + ida.maxid))
Allocated room ida (err Errno.enomem) = room (length ida.vec + 1) ≡ false
Allocated room ida _ = ⊥

reused-Allocated :
    (room : ℕ → Bool) (ida : Idalloc) (i : ℕ)
    → IsValid ida
    → i < length ida.vec
    → taken ida.vec i ≡ false
    → Allocated room ida (ok (ida.base + i, record ida { vec = set ida.vec i 0 }))
reused-Allocated room ida i v h f = (
  record { slots_bound = rw (length-set ida.vec i 0) v.slots_bound; ids_bound = v.ids_bound },
  omega arith,
  omega (arith, v.slots_bound),
  rw (add_sub ida.base i, f) (ground arith),
  λ j. rw (taken-set ida.vec i 0 (j - ida.base) h) (ground arith),
)

appended-Allocated :
    (room : ℕ → Bool) (ida : Idalloc)
    → IsValid ida
    → length ida.vec ≤ ida.maxid
    → Allocated room ida (ok (ida.base + length ida.vec, record ida { vec = ida.vec ++ 0 ∷ [] }))
appended-Allocated room ida v h = (
  record {
    slots_bound = rw (length-append ida.vec (0 ∷ [])) (omega arith);
    ids_bound = v.ids_bound;
  },
  omega arith,
  omega arith,
  rw (add_sub ida.base (length ida.vec), taken-bound ida.vec (length ida.vec) (omega arith))
      (ground arith),
  λ j. rw (taken-append ida.vec 0 (j - ida.base)) (ground arith),
)

full-in_use :
    (ida : Idalloc) (j : ℕ)
    → IsValid ida
    → free_index ida.vec ≡ none
    → ida.maxid < length ida.vec
    → in_use ida j ≡ (leb ida.base j && leb j (ida.base + ida.maxid))
full-in_use ida j v e h =
    rw (free_index-none ida.vec (j - ida.base) e) (ground (arith, v.slots_bound))

-- On a valid allocator, an allocation gives an identifier within the bounds that was not in the set
-- and adds it and no other, or is ERANGE with every identifier in the set, or is ENOMEM with one
-- more slot refused by realloc. No assertion fails.
pub idalloc_alloc-Allocated :
    (room : ℕ → Bool) (ida : Idalloc) → IsValid ida → Allocated room ida (idalloc_alloc room ida)
unfolding idalloc_alloc
idalloc_alloc-Allocated room ida v = elim (Option-cases (free_index ida.vec)) [
  | inr (i, e) ↦
      let (h, t) = free_index-some ida.vec i e in
      rw (e, small (ida.base + i) (omega (arith, v.slots_bound, v.ids_bound)), idalloc_alloc)
        (reused-Allocated room ida i v h t)
  | inl e ↦ elim (Bool-cases (ltb ida.maxid (length ida.vec))) [
    | inl a ↦ rw (e, a, idalloc_alloc) λ j. full-in_use ida j v e (ground arith)
    | inr a ↦
        let l : length ida.vec ≤ ida.maxid = ground arith in
        let m = small (length ida.vec + 1) (omega (arith, v.ids_bound)) in
        elim (Bool-cases (room (length ida.vec + 1))) [
          | inr b ↦ rw (e, a, m, b, idalloc_alloc) b
          | inl b ↦
              rw
                (
                  e,
                  a,
                  m,
                  b,
                  ne_zero (length ida.vec),
                  idalloc_alloc,
                  small (ida.base + length ida.vec) (omega (arith, v.ids_bound)),
                )
                (appended-Allocated room ida v l)
        ]
  ]
]

taken_below : (ps : List ℕ) (i : ℕ) → taken ps i ≡ true → i < length ps
unfolding taken
taken_below [] i h = cc
taken_below (p ∷ ps) zero h = omega arith
taken_below (p ∷ ps) (suc i) h = omega (arith, taken_below ps i h)

in_use-bounds :
    (ida : Idalloc) (id : ℕ)
    → in_use ida id ≡ true
    → (ida.base ≤ id) × (id - ida.base < length ida.vec)
in_use-bounds ida id u = (ground arith, taken_below ida.vec (id - ida.base) (ground arith))

-- On a valid allocator, freeing an identifier of the set ends in a valid allocator, whose set is the
-- former one without that identifier. No assertion fails.
pub idalloc_free-in_use :
    (ida : Idalloc) (id : ℕ)
    → IsValid ida
    → in_use ida id ≡ true
    → (ida' : Idalloc) × (idalloc_free ida id ≡ ok ida')
      × IsValid ida'
      × ((j : ℕ) → in_use ida' j ≡ (not (j == id) && in_use ida j))
unfolding idalloc_free idalloc_getptr
idalloc_free-in_use ida id v u =
    let (lo, hi) = in_use-bounds ida id u in
    (
      record ida { vec = set ida.vec (id - ida.base) free_slot },
      rw
          (
            idalloc_test-in_use ida id v,
            u,
            le→leb ida.base id lo,
            lt→ltb (id - ida.base) (length ida.vec) hi,
          )
          refl,
      record {
        slots_bound = rw (length-set ida.vec (id - ida.base) free_slot) v.slots_bound;
        ids_bound = v.ids_bound;
      },
      λ j. rw (taken-set ida.vec (id - ida.base) free_slot (j - ida.base) hi) (ground arith),
    )

-- On a valid allocator, setting the pointer of an identifier of the set, to another one than the
-- mark of a free slot, keeps the set, and reading it then gives that pointer. No assertion fails.
pub idalloc_get_user-idalloc_set_user :
    (ida : Idalloc) (id user_data : ℕ)
    → IsValid ida
    → in_use ida id ≡ true
    → user_data ≢ free_slot
    → (ida' : Idalloc) × (idalloc_set_user ida id user_data ≡ ok ida')
      × IsValid ida'
      × ((j : ℕ) → in_use ida' j ≡ in_use ida j)
      × (idalloc_get_user ida' id ≡ ok user_data)
unfolding idalloc_set_user idalloc_get_user idalloc_getptr
idalloc_get_user-idalloc_set_user ida id user_data v u ne =
    let (lo, hi) = in_use-bounds ida id u in
    let ida' : Idalloc = record ida { vec = set ida.vec (id - ida.base) user_data } in
    let other : (user_data == free_slot) ≡ false = ground arith in
    let v' : IsValid ida' = record {
      slots_bound = rw (length-set ida.vec (id - ida.base) user_data) v.slots_bound;
      ids_bound = v.ids_bound;
    } in
    let same : (j : ℕ) → in_use ida' j ≡ in_use ida j = λ j.
      rw (taken-set ida.vec (id - ida.base) user_data (j - ida.base) hi, other) (ground arith) in
    (
      ida',
      rw
          (
            idalloc_test-in_use ida id v,
            u,
            other,
            le→leb ida.base id lo,
            lt→ltb (id - ida.base) (length ida.vec) hi,
          )
          refl,
      v',
      same,
      rw
          (
            idalloc_test-in_use ida' id v',
            same id,
            u,
            le→leb ida.base id lo,
            length-set ida.vec (id - ida.base) user_data,
            lt→ltb (id - ida.base) (length ida.vec) hi,
            slot_at-some (set ida.vec (id - ida.base) user_data) (id - ida.base) user_data
                (get_elem?-set_self ida.vec (id - ida.base) user_data hi),
            other,
          )
          refl,
    )
