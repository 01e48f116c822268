-- ===== src/Idalloc.antt =====
-- lib/idalloc.c: identifiers between two bounds, each with a pointer of its user. A pointer is a
-- number, 0 for NULL; the pointer 1 marks a slot that is free.
mod Slots
pub mod Sets
pub mod Live
mod Tests
use wasm_doctor.Prelude.{
  ℕ, zero, suc, ◌+◌, ◌-◌, ◌%◌, ◌^◌, Bool, true, false, not, Option, none, some, List, [], ◌∷◌, ◌++◌,
  length, get_elem?, set, ltb, leb, ◌==◌, if◌then◌else◌, Result, ok, err, fault, erange, enomem,
  guard, assert, ◌>>=◌, ◌>>◌,
}

abbrev pub free_slot : ℕ
free_slot = 1

-- struct idalloc
pub record Idalloc : Type 0 where
  pub vec : List ℕ
  pub base : ℕ
  pub maxid : ℕ

-- The index that idalloc_getptr gives the address of.
pub idalloc_getptr : Idalloc → ℕ → Result ℕ
idalloc_getptr ida id = do
  assert (leb ida.base id)
  assert (ltb (id - ida.base) (length ida.vec))
  ok (id - ida.base)

-- Reading through that pointer.
abbrev pub slot_at : List ℕ → ℕ → Result ℕ
slot_at vec i = elim (get_elem? vec i) [ none ↦ fault | some p ↦ ok p ]

pub idalloc_init : ℕ → ℕ → Result Idalloc
idalloc_init minid maxid =
    assert (leb minid maxid) >> ok (record { vec = []; base = minid; maxid = maxid - minid })

-- The first free slot.
unfoldable pub free_index : List ℕ → Option ℕ
free_index [] = none
free_index (p ∷ ps) =
    let rest = free_index ps in
    if p == free_slot then some 0 else elim rest [ none ↦ none | some i ↦ some (suc i) ]

-- With what realloc answers for a number of slots. A vector of 2^32 - 1 slots cannot grow, and the
-- element is then behind its end.
pub idalloc_alloc : (ℕ → Bool) → Idalloc → Result (ℕ × Idalloc)
unfolding free_index
idalloc_alloc room ida = elim (free_index ida.vec) [
  | some i ↦ ok ((ida.base + i) % 2 ^ 32, record ida { vec = set ida.vec i 0 })
  | none ↦ do
    let id = length ida.vec
    guard (not (ltb ida.maxid id)) erange
    guard (room ((id + 1) % 2 ^ 32)) enomem
    assert (not ((id + 1) % 2 ^ 32 == 0))
    ok ((ida.base + id) % 2 ^ 32, record ida { vec = ida.vec ++ 0 ∷ [] })
]

pub idalloc_test : Idalloc → ℕ → Result Bool
unfolding idalloc_getptr
idalloc_test ida id =
    if ltb id ida.base
    then ok false
    else if leb ((ida.base + length ida.vec) % 2 ^ 32) id
    then ok false
    else (do i ← idalloc_getptr ida id; p ← slot_at ida.vec i; ok (not (p == free_slot)))

pub idalloc_free : Idalloc → ℕ → Result Idalloc
unfolding idalloc_test idalloc_getptr
idalloc_free ida id = do
  used ← idalloc_test ida id
  assert used
  i ← idalloc_getptr ida id
  ok (record ida { vec = set ida.vec i free_slot })

pub idalloc_set_user : Idalloc → ℕ → ℕ → Result Idalloc
unfolding idalloc_test idalloc_getptr
idalloc_set_user ida id user_data = do
  used ← idalloc_test ida id
  assert used
  assert (not (user_data == free_slot))
  i ← idalloc_getptr ida id
  ok (record ida { vec = set ida.vec i user_data })

pub idalloc_get_user : Idalloc → ℕ → Result ℕ
unfolding idalloc_test idalloc_getptr
idalloc_get_user ida id = do
  used ← idalloc_test ida id
  assert used
  i ← idalloc_getptr ida id
  p ← slot_at ida.vec i
  assert (not (p == free_slot))
  ok p
