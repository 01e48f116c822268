-- ===== src/Leb128/Signed/Group.antt =====
-- One group of a signed value: its range check, its place in the result, and the sign extension.
use native.Mathlib.Nat.{pow-le-pow_right, mul-le-mul_right, mod-eq_of_lt}
use wasm_doctor.Prelude.{
  ℕ, ◌+◌, ◌-◌, ◌*◌, ◌%◌, ◌^◌, ◌≤◌, ◌<◌, bit_and, ◌≡◌, refl, ap, sym, ◌∙◌, Bool, true, not, List,
  arith, ltb, leb, ◌==◌, if◌then◌else◌, ok, err, e2big, dec_lt, Bool-cases, inl, inr, lt→ltb,
  le→ltb,
}
use wasm_doctor.Prelude.Int.{ℤ, pos, negsuc}
use wasm_doctor.Prelude.Bits.{pow-add, pow_pos, bit_or_disjoint}
use wasm_doctor.Leb128.{signed, check_group, add_group, round, finish}
use wasm_doctor.Leb128.Bytes.{
  low_bits, sign_bit, high_bits_clear, high_bits_set, group_shifted, top_group, ones_shifted,
}
use wasm_doctor.Leb128.Unsigned.{group_fits, shifted_fits, next_bound}

-- A last group `v` of `left` bits stands for a number of that width.
abbrev pub in_range : ℕ → ℕ → Bool
in_range left v = if ltb v 64 then ltb v (2 ^ (left - 1)) else leb 128 (v + 2 ^ (left - 1))

pub group_sign : (v : ℕ) → v < 128 → not (bit_and v 0x40 == 0) ≡ leb 64 v
group_sign v hv = rw (mod-eq_of_lt hv) at (sign_bit v (omega arith))

pub check_signed :
    (bits shift v : ℕ) (minus : Bool)
    → shift < bits
    → v < 128
    → check_group (signed bits) v shift minus
      ≡ (if in_range (bits - shift) v then ok (leb 64 v) else err e2big)
unfolding check_group
check_signed bits shift v minus hs hv = rw (group_sign v hv) (elim (dec_lt (bits - shift) 7) [
  | yes few ↦
      rw
        (
          high_bits_clear v (bits - shift - 1) hv (omega arith),
          high_bits_set v (bits - shift - 1) hv (omega arith),
        )
        (ground arith)
  | no many ↦ ground (arith, group_fits (bits - shift - 1) v, wide (bits - shift - 1))
])
  where
    wide : (r : ℕ) → 6 ≤ r → 64 ≤ 2 ^ r
    wide r h = pow-le-pow_right {n = 2} (omega arith) h

-- The value of `m` from bit `shift` on above `result`, in two's complement on 64 bits.
abbrev pub embed : ℕ → ℕ → ℤ → ℕ
embed result shift (pos a) = result + a * 2 ^ shift
embed result shift (negsuc a) = result + 2 ^ 64 - (a + 1) * 2 ^ shift

abbrev pub above : ℕ → ℕ → ℤ × List ℕ → ℕ × List ℕ
above result shift p = (embed result shift p.0, p.1)

-- What the last group `v` stands for.
abbrev pub last_group : ℕ → ℤ
last_group v = if ltb v 64 then pos v else negsuc (127 - v)

pub add_group_wraps :
    (shift result v : ℕ)
    → shift < 64
    → result < 2 ^ shift
    → v < 128
    → add_group result v shift ≡ ok (result + v * 2 ^ shift % 2 ^ 64)
unfolding add_group
add_group_wraps shift result v hs hr hv =
    ground
      (arith, group_shifted v shift hv hs, bit_or_disjoint shift result (v % 2 ^ (64 - shift)) hr)

pub round-signed :
    (bits shift result u8 : ℕ) (minus : Bool)
    → bits ≤ 64
    → shift < bits
    → result < 2 ^ shift
    → u8 < 256
    → round (signed bits) u8 shift result minus ≡ (
        if in_range (bits - shift) (u8 % 128)
        then ok (result + u8 % 128 * 2 ^ shift % 2 ^ 64, leb 64 (u8 % 128))
        else err e2big)
unfolding round
round-signed bits shift result u8 minus hb hs hr hu =
    rw
      (
        low_bits u8 hu,
        check_signed bits shift (u8 % 128) minus hs (omega arith),
        add_group_wraps shift result (u8 % 128) (omega arith) hr (omega arith),
      )
      (elim (Bool-cases (in_range (bits - shift) (u8 % 128))) [
        | inl e ↦ rw e refl
        | inr e ↦ rw e refl
      ])

module _ (bits shift result v u8 : ℕ) (hb : bits ≤ 64) (hs : shift < bits) (hr : result < 2 ^ shift)
    (hv : v < 128) where
  split_group : 64 ≤ v → v * 2 ^ shift + (127 - v + 1) * 2 ^ shift ≡ 128 * 2 ^ shift
  split_group h =
      let e : v + (127 - v + 1) ≡ 128 = omega arith in
      omega (arith, ap (λ (t : ℕ). t * 2 ^ shift) e)

  finish_positive :
      v < 2 ^ (bits - shift - 1)
      → v < 64
      → finish (signed bits) u8 (shift + 7) (result + v * 2 ^ shift % 2 ^ 64) (leb 64 v)
        ≡ embed result shift (pos v)
  unfolding finish
  finish_positive fits small =
      let wider : 2 ^ (bits - shift - 1) ≤ 2 ^ (bits - shift) =
        pow-le-pow_right {n = 2} (omega arith) (omega arith) in
      ground (arith, mod-eq_of_lt (shifted_fits bits shift v hb hs (omega arith)))

  finish_extended :
      64 ≤ v
      → shift + 7 < 64
      → finish (signed bits) u8 (shift + 7) (result + v * 2 ^ shift % 2 ^ 64) (leb 64 v)
        ≡ embed result shift (negsuc (127 - v))
  unfolding finish
  finish_extended large below =
      let whole : v * 2 ^ shift % 2 ^ 64 ≡ v * 2 ^ shift = mod-eq_of_lt (
        shifted_fits 64 shift v (omega arith) (omega arith)
          (group_fits (64 - shift) v (omega arith) hv)) in
      let e : 64 - (shift + 7) + (shift + 7) ≡ 64 = omega arith in
      let all : 2 ^ (64 - (shift + 7)) * 2 ^ (shift + 7) ≡ 2 ^ 64 =
        sym (pow-add (64 - (shift + 7)) (shift + 7)) ∙ ap (λ (t : ℕ). 2 ^ t) e in
      let ones : (2 ^ (64 - (shift + 7)) - 1) * 2 ^ (shift + 7) + 2 ^ (shift + 7) ≡ 2 ^ 64 =
        let one : 2 ^ (64 - (shift + 7)) - 1 + 1 ≡ 2 ^ (64 - (shift + 7)) =
          omega (arith, pow_pos (64 - (shift + 7))) in
        omega (arith, all, ap (λ (t : ℕ). t * 2 ^ (shift + 7)) one) in
      ground (
        arith,
        whole,
        next_bound result shift v hr hv,
        ones_shifted (shift + 7) below,
        bit_or_disjoint (shift + 7) (result + v * 2 ^ shift) (2 ^ (64 - (shift + 7)) - 1),
        ones,
        pow-add shift 7,
        split_group large,
      )

  finish_at_top :
      64 ≤ v
      → 128 ≤ v + 2 ^ (bits - shift - 1)
      → 64 ≤ shift + 7
      → finish (signed bits) u8 (shift + 7) (result + v * 2 ^ shift % 2 ^ 64) (leb 64 v)
        ≡ embed result shift (negsuc (127 - v))
  unfolding finish
  finish_at_top large fits top =
      let e : bits - shift - 1 + shift ≡ bits - 1 = omega arith in
      let half : 2 ^ (bits - shift - 1) * 2 ^ shift ≡ 2 ^ (bits - 1) =
        sym (pow-add (bits - shift - 1) shift) ∙ ap (λ (t : ℕ). 2 ^ t) e in
      let below : 2 ^ (bits - 1) ≤ 2 ^ 63 =
        pow-le-pow_right {n = 2} (omega arith) {j = 63} (omega arith) in
      let room : (128 - v) * 2 ^ shift ≤ 2 ^ (bits - shift - 1) * 2 ^ shift =
        mul-le-mul_right (2 ^ shift) (omega arith) in
      let same : 128 - v ≡ 127 - v + 1 = omega arith in
      let here : v * 2 ^ shift % 2 ^ 64 ≡ 2 ^ 64 - (127 - v + 1) * 2 ^ shift =
        rw (← same)
          (top_group v shift hv (omega arith) (omega arith) (omega (arith, half, room))) in
      ground (arith, here, same, half, below, room)

  -- The sign extension behind the last group `v`.
  pub finish-signed :
      in_range (bits - shift) v ≡ true
      → finish (signed bits) u8 (shift + 7) (result + v * 2 ^ shift % 2 ^ 64) (leb 64 v)
        ≡ embed result shift (last_group v)
  finish-signed fits = elim (dec_lt v 64) [
    | yes small ↦ rw (lt→ltb _ _ small) (finish_positive (ground arith) small)
    | no large ↦ rw (le→ltb v 64 (omega arith)) (elim (dec_lt (shift + 7) 64) [
      | yes below ↦ finish_extended (omega arith) below
      | no top ↦ finish_at_top (omega arith) (ground arith) (omega arith)
    ])
  ]

-- A width of seven bits or more holds every group, with its sign.
pub in_range_wide : (left v : ℕ) → 7 ≤ left → v < 128 → in_range left v ≡ true
in_range_wide left v h hv =
    let wide : 2 ^ 6 ≤ 2 ^ (left - 1) =
      pow-le-pow_right {n = 2} (omega arith) {i = 6} (omega arith) in
    ground arith

pub fits_64 : (shift v : ℕ) → shift + 7 < 64 → v < 128 → v * 2 ^ shift % 2 ^ 64 ≡ v * 2 ^ shift
fits_64 shift v h hv = mod-eq_of_lt (
    shifted_fits 64 shift v (omega arith) (omega arith)
      (group_fits (64 - shift) v (omega arith) hv))
