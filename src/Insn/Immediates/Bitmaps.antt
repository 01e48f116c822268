-- ===== src/Insn/Immediates/Bitmaps.antt =====
-- A bitmap that has a word for each 32 bits.
use wasm_doctor.Prelude.{
  ℕ, zero, suc, ◌*◌, ◌/◌, ◌%◌, ◌^◌, ◌<◌, ◌≡◌, refl, List, [], ◌∷◌, length, get_elem?, set,
  length-set, none, some, not, ◌==◌, bit_or, bit_and, ok, fault, arith,
}
use wasm_doctor.Types.Lookup.Typed.{Yields}
use wasm_doctor.Insn.Immediates.{bitmap_set, bitmap_test}

word_there : (words : List ℕ) (i : ℕ) → i < length words → (w : ℕ) × (get_elem? words i ≡ some w)
word_there [] i h = absurd (omega arith)
word_there (w ∷ words) zero h = (w, refl)
word_there (w ∷ words) (suc i) h = word_there words i (omega arith)

-- Setting a bit inside of a bitmap writes a word of it.
pub bitmap_set-length :
    (words : List ℕ) (idx : ℕ)
    → idx < 32 * length words
    → Yields (λ ws. length ws ≡ length words) (bitmap_set words idx)
unfolding bitmap_set
bitmap_set-length words idx h =
    let (w, e) = word_there words (idx / 32) (omega arith) in
    elim (get_elem? words (idx / 32))
        as (λ o.
          o ≡ some w
          → Yields (λ ws. length ws ≡ length words)
              (elim o [
                | none ↦ fault
                | some w ↦ ok (set words (idx / 32) (bit_or w (2 ^ (idx % 32))))
              ])) [
                | none ↦ λ h. cc
                | some v ↦ λ h. length-set words (idx / 32) (bit_or v (2 ^ (idx % 32)))
              ]
      e

pub bitmap_test-there :
    (words : List ℕ) (idx : ℕ)
    → idx < 32 * length words
    → Yields (λ _. Unit {0}) (bitmap_test words idx)
unfolding bitmap_test
bitmap_test-there words idx h =
    let (w, e) = word_there words (idx / 32) (omega arith) in
    elim (get_elem? words (idx / 32))
        as (λ o.
          o ≡ some w
          → Yields (λ _. Unit {0})
              (elim o [ none ↦ fault | some w ↦ ok (not (bit_and w (2 ^ (idx % 32)) == 0)) ])) [
                | none ↦ λ h. cc
                | some v ↦ λ h. tt
              ]
      e
