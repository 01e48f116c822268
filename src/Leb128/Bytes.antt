-- ===== src/Leb128/Bytes.antt =====
-- The bit tests of `read_leb` on one byte, as arithmetic; each is a table checked by evaluation.
use wasm_doctor.Prelude.{
  ℕ, ◌+◌, ◌-◌, ◌*◌, ◌/◌, ◌%◌, ◌^◌, ◌≤◌, ◌<◌, bit_and, bit_or, ◌≡◌, refl, Bool, true, false, not,
  ◌||◌, arith, ltb, leb, ◌==◌, ==_iff,
}
use wasm_doctor.Prelude.Bits.{all_below, all_below_sound}
use wasm_doctor.Leb128.{high_mask}

same : Bool → Bool → Bool
same true b = b
same false b = not b

same→eq : (a b : Bool) → same a b ≡ true → a ≡ b
unfolding same
same→eq a b h = ground arith

low_table : all_below (λ b. bit_and b 0x7f == b % 128) 256 ≡ true
unfolding all_below
low_table = refl

pub low_bits : (b : ℕ) → b < 256 → bit_and b 0x7f ≡ b % 128
low_bits b h = (==_iff _ _).0 (all_below_sound _ 256 b low_table h)

top_table : all_below (λ b. same (bit_and b 0x80 == 0) (ltb b 128)) 256 ≡ true
unfolding all_below same
top_table = refl

-- The continuation bit.
pub top_bit : (b : ℕ) → b < 256 → (bit_and b 0x80 == 0) ≡ ltb b 128
top_bit b h = same→eq _ _ (all_below_sound _ 256 b top_table h)

sign_table : all_below (λ b. same (not (bit_and b 0x40 == 0)) (leb 64 (b % 128))) 256 ≡ true
unfolding all_below same
sign_table = refl

pub sign_bit : (b : ℕ) → b < 256 → not (bit_and b 0x40 == 0) ≡ leb 64 (b % 128)
sign_bit b h = same→eq _ _ (all_below_sound _ 256 b sign_table h)

-- A group `v` and a count of bits `k` below 7, as one index.
unsigned_mask_table :
    all_below
      (λ i. same (bit_and (i % 128) (high_mask (i / 128)) == 0) (ltb (i % 128) (2 ^ (i / 128))))
      (8 * 128)
    ≡ true
unfolding all_below same
unsigned_mask_table = refl

negative_mask_table :
    all_below
      (λ i.
        same
          (bit_and (bit_and (255 - i % 128) 0x7f) (high_mask (i / 128)) == 0)
          (leb 128 (i % 128 + 2 ^ (i / 128))))
      (8 * 128)
    ≡ true
unfolding all_below same
negative_mask_table = refl

module _ (v k : ℕ) (hv : v < 128) (hk : k < 8) where
  index_fits : k * 128 + v < 8 * 128
  index_fits = omega arith

  index_low : (k * 128 + v) % 128 ≡ v
  index_low = omega arith

  index_high : (k * 128 + v) / 128 ≡ k
  index_high = omega arith

  -- No bit of `v` from bit `k` on.
  pub high_bits_clear : (bit_and v (high_mask k) == 0) ≡ ltb v (2 ^ k)
  high_bits_clear =
      rw (index_low, index_high) at
        (same→eq _ _ (all_below_sound _ (8 * 128) (k * 128 + v) unsigned_mask_table index_fits))

  -- Every bit of `v` from bit `k` on.
  pub high_bits_set : (bit_and (bit_and (255 - v) 0x7f) (high_mask k) == 0) ≡ leb 128 (v + 2 ^ k)
  high_bits_set =
      rw (index_low, index_high) at
        (same→eq _ _ (all_below_sound _ (8 * 128) (k * 128 + v) negative_mask_table index_fits))

extend_table : all_below (λ b. bit_or (b + 64) (2 ^ 64 - 64) == b + 64 + (2 ^ 64 - 128)) 64 ≡ true
unfolding all_below
extend_table = refl

pub sign_extend_byte : (b : ℕ) → b < 128 → 64 ≤ b → bit_or b (2 ^ 64 - 64) ≡ b + (2 ^ 64 - 128)
sign_extend_byte b h k =
    let e : b - 64 + 64 ≡ b = omega arith in
    rw e at ((==_iff _ _).0 (all_below_sound _ 64 (b - 64) extend_table (omega arith)))

-- Shifts of a group within 64 bits, checked at every shift and group.
shift_table :
    all_below
      (λ i. i % 128 * 2 ^ (i / 128) % 2 ^ 64 == i % 128 % 2 ^ (64 - i / 128) * 2 ^ (i / 128))
      (64 * 128)
    ≡ true
unfolding all_below
shift_table = refl

-- A group that sticks out at the top, with ones only, is the negative number that it stands for.
top_group_table :
    all_below
      (λ i.
        ltb (i / 128) 57
        || (ltb (2 ^ 63) ((128 - i % 128) * 2 ^ (i / 128))
            || (i % 128 * 2 ^ (i / 128) % 2 ^ 64 == 2 ^ 64 - (128 - i % 128) * 2 ^ (i / 128))))
      (64 * 128)
    ≡ true
unfolding all_below
top_group_table = refl

ones_table : all_below (λ k. (2 ^ 64 - 1) * 2 ^ k % 2 ^ 64 == (2 ^ (64 - k) - 1) * 2 ^ k) 64 ≡ true
unfolding all_below
ones_table = refl

-- `(~UINT64_C(0)) << k`
pub ones_shifted : (k : ℕ) → k < 64 → (2 ^ 64 - 1) * 2 ^ k % 2 ^ 64 ≡ (2 ^ (64 - k) - 1) * 2 ^ k
ones_shifted k h = (==_iff _ _).0 (all_below_sound _ 64 k ones_table h)

module _ (v k : ℕ) (hv : v < 128) (hk : k < 64) where
  shift_index_fits : k * 128 + v < 64 * 128
  shift_index_fits = omega arith

  shift_index_low : (k * 128 + v) % 128 ≡ v
  shift_index_low = omega arith

  shift_index_high : (k * 128 + v) / 128 ≡ k
  shift_index_high = omega arith

  pub group_shifted : v * 2 ^ k % 2 ^ 64 ≡ v % 2 ^ (64 - k) * 2 ^ k
  group_shifted =
      rw (shift_index_low, shift_index_high) at
        ((==_iff _ _).0 (all_below_sound _ (64 * 128) (k * 128 + v) shift_table shift_index_fits))

  pub top_group :
      57 ≤ k → (128 - v) * 2 ^ k ≤ 2 ^ 63 → v * 2 ^ k % 2 ^ 64 ≡ 2 ^ 64 - (128 - v) * 2 ^ k
  top_group h p =
      let t : (ltb k 57
            || (ltb (2 ^ 63) ((128 - v) * 2 ^ k)
                || (v * 2 ^ k % 2 ^ 64 == 2 ^ 64 - (128 - v) * 2 ^ k)))
          ≡ true =
        rw (shift_index_low, shift_index_high) at
          (all_below_sound _ (64 * 128) (k * 128 + v) top_group_table shift_index_fits) in
      ground (arith, t)
