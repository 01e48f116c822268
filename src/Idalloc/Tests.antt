-- ===== src/Idalloc/Tests.antt =====
-- Runs of an allocator of the identifiers 3 to 5, of which 3 and 5 are in use.
use wasm_doctor.Prelude.{ℕ, ◌≡◌, ◌≢◌, refl, Bool, true, false, not, ◌&&◌, [], ◌∷◌, ok, ◌==◌, arith}
use wasm_doctor.Idalloc.{
  Idalloc, free_slot, idalloc_alloc, idalloc_test, idalloc_free, idalloc_set_user, idalloc_get_user,
  free_index,
}
use wasm_doctor.Idalloc.Slots.{taken}
use wasm_doctor.Idalloc.Live.{Gives, idalloc_alloc-Gives}
use wasm_doctor.Idalloc.Sets.{
  IsValid, in_use, Allocated, idalloc_alloc-Allocated, idalloc_test-in_use, idalloc_free-in_use,
  idalloc_get_user-idalloc_set_user,
}

abbrev sample : Idalloc
sample = record { vec = 0 ∷ 1 ∷ 8 ∷ []; base = 3; maxid = 2 }

abbrev enough : ℕ → Bool
enough n = true

sample-IsValid : IsValid sample
sample-IsValid = record { slots_bound = omega arith; ids_bound = omega arith }

reuses : idalloc_alloc enough sample ≡ ok (4, record sample { vec = 0 ∷ 0 ∷ 8 ∷ [] })
unfolding idalloc_alloc free_index
reuses = refl

in_use_five : in_use sample 5 ≡ true
unfolding taken
in_use_five = refl

idalloc_alloc-Allocated_example : Allocated enough sample (idalloc_alloc enough sample)
idalloc_alloc-Allocated_example = idalloc_alloc-Allocated enough sample sample-IsValid

four_free : in_use sample 4 ≡ false
unfolding taken
four_free = refl

idalloc_test-in_use_example : idalloc_test sample 4 ≡ ok (in_use sample 4)
idalloc_test-in_use_example = idalloc_test-in_use sample 4 sample-IsValid

idalloc_free-in_use_example :
    (ida' : Idalloc) × (idalloc_free sample 5 ≡ ok ida')
    × IsValid ida'
    × ((j : ℕ) → in_use ida' j ≡ (not (j == 5) && in_use sample j))
idalloc_free-in_use_example = idalloc_free-in_use sample 5 sample-IsValid in_use_five

abbrev pointer : ℕ
pointer = 77

ne_free : pointer ≢ free_slot
ne_free h = absurd (omega arith)

idalloc_get_user_example :
    (ida' : Idalloc) × (idalloc_set_user sample 5 pointer ≡ ok ida')
    × IsValid ida'
    × ((j : ℕ) → in_use ida' j ≡ in_use sample j)
    × (idalloc_get_user ida' 5 ≡ ok pointer)
idalloc_get_user_example =
    idalloc_get_user-idalloc_set_user sample 5 pointer sample-IsValid in_use_five ne_free

idalloc_alloc-Gives_example : Gives (idalloc_alloc enough sample)
idalloc_alloc-Gives_example =
    idalloc_alloc-Gives enough sample 4 sample-IsValid (omega arith) (omega arith) four_free
      λ n. refl
