-- ===== src/Idalloc/Slots.antt =====
-- The slots of the vector, free and in use.
use wasm_doctor.Prelude.{
  ℕ, zero, suc, ◌≤◌, ◌<◌, ◌≡◌, refl, Bool, false, not, none, some, List, [], ◌∷◌, ◌++◌, length, set,
  ltb, ◌==◌, if◌then◌else◌, arith,
}
use wasm_doctor.Idalloc.{free_slot, free_index}

-- The slot `i` is there and is not free.
unfoldable pub taken : List ℕ → ℕ → Bool
taken [] i = false
taken (p ∷ ps) zero = not (p == free_slot)
taken (p ∷ ps) (suc i) = taken ps i

pub taken-set :
    (ps : List ℕ) (i v j : ℕ)
    → i < length ps
    → taken (set ps i v) j ≡ (if i == j then not (v == free_slot) else taken ps j)
unfolding taken
taken-set [] i v j h = elim h [ ]
taken-set (p ∷ ps) zero v zero h = refl
taken-set (p ∷ ps) zero v (suc j) h = ground arith
taken-set (p ∷ ps) (suc i) v zero h = ground arith
taken-set (p ∷ ps) (suc i) v (suc j) h = ground (arith, taken-set ps i v j)

pub taken-append :
    (ps : List ℕ) (v j : ℕ)
    → taken (ps ++ v ∷ []) j ≡ (if j == length ps then not (v == free_slot) else taken ps j)
unfolding taken
taken-append [] v zero = refl
taken-append [] v (suc j) = ground arith
taken-append (p ∷ ps) v zero = ground arith
taken-append (p ∷ ps) v (suc j) = ground (arith, taken-append ps v j)

-- A free slot was found.
pub free_index-some :
    (ps : List ℕ) (i : ℕ) → free_index ps ≡ some i → (i < length ps) × (taken ps i ≡ false)
unfolding taken free_index
free_index-some [] i h = cc
free_index-some (p ∷ ps) zero h = ground arith
free_index-some (p ∷ ps) (suc i) h = ground (arith, free_index-some ps i)

-- Every slot is taken.
pub free_index-none : (ps : List ℕ) (j : ℕ) → free_index ps ≡ none → taken ps j ≡ ltb j (length ps)
unfolding taken free_index
free_index-none [] j h = ground arith
free_index-none (p ∷ ps) zero h = ground arith
free_index-none (p ∷ ps) (suc j) h = ground (arith, free_index-none ps j)

pub taken-bound : (ps : List ℕ) (j : ℕ) → length ps ≤ j → taken ps j ≡ false
unfolding taken
taken-bound [] j h = refl
taken-bound (p ∷ ps) zero h = absurd (omega arith)
taken-bound (p ∷ ps) (suc j) h = taken-bound ps j (omega arith)
