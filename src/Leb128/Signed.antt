-- ===== src/Leb128/Signed.antt =====
-- The signed readers and the grammar sN.
mod Group
mod Step
use mathlib.Core.Option
use native.Mathlib.Nat.{pow-le-pow_right, mul-le-mul_right, mod-eq_of_lt}
use wasm_doctor.Prelude.{
  ℕ, suc, ◌+◌, ◌-◌, ◌*◌, ◌/◌, ◌%◌, ◌^◌, ◌≤◌, ◌<◌, min, bit_and, bit_or, ◌≡◌, refl, ap, sym, ◌∙◌,
  Bool, true, false, not, ◌&&◌, Option, none, some, List, [], ◌∷◌, length, arith, ltb, leb, ◌==◌,
  if◌then◌else◌, Result, ok, err, fault, e2big, einval, ok?, dec_lt, Bool-cases, inl, inr, lt→ltb,
  le→ltb, le→leb, lt→leb, ltb→lt,
}
use wasm_doctor.Prelude.Int.{ℤ, pos, negsuc, ◌+ℤ◌, ◌*ℤ◌}
use wasm_doctor.Prelude.Bits.{pow-add, pow_pos, bit_or_disjoint}
use wasm_doctor.Leb128.{
  signed, check_group, add_group, round, finish, read_leb_loop, read_leb, high_mask, IsBytes,
}
use wasm_doctor.Leb128.Bytes.{
  low_bits, top_bit, sign_bit, high_bits_clear, high_bits_set, group_shifted, top_group,
  ones_shifted, sign_extend_byte,
}
use wasm_doctor.Leb128.Unsigned.{group_fits, shifted_fits, add_group_fits, room_for, next_bound}
use wasm_doctor.Leb128.Grammar.{s_grammar}
use Group.{embed, above, last_group, group_sign, in_range_wide, fits_64}
pub use Step.{times_128_pos, times_128_negsuc}
use Step.{s_grammar_step, s_grammar-nil, signed_round_step, signed_round_nil, round_agrees}

-- Where at most seven bits are left, no byte may follow.
no_room : (left : ℕ) (b : ℕ) (rest : List ℕ) → ltb (room_for left (b ∷ rest)) 1 ≡ leb left 7
no_room left b rest = ground arith

one_less :
    (left : ℕ) (b : ℕ) (rest : List ℕ)
    → 7 < left
    → room_for left (b ∷ rest) - 1 ≡ room_for (left - 7) rest
one_less left b rest h = omega arith

loop_nil :
    (bits u8 : ℕ) (shift result : ℕ) (minus : Bool)
    → bits ≤ 64
    → shift < bits
    → u8 < 256
    → result < 2 ^ shift
    → ok? (read_leb_loop (signed bits) u8 [] (room_for (bits - shift) []) shift result minus)
      ≡ Option.map (above result shift) (s_grammar (bits - shift) (u8 ∷ []))
loop_nil bits u8 shift result minus hb hs hu hr =
    rw
      (
        signed_round_nil bits u8 (room_for (bits - shift) []) shift result minus hb hs hu hr,
        s_grammar_step (bits - shift) u8 [],
        s_grammar-nil (bits - shift - 7),
      )
      (elim (dec_lt u8 128) [
        | yes h ↦ rw (mod-eq_of_lt h, lt→ltb _ _ h) (ground arith)
        | no h ↦ rw (le→ltb u8 128 (omega arith)) (ground arith)
      ])

loop_lem :
    (bits u8 : ℕ) (src : List ℕ) (shift result : ℕ) (minus : Bool)
    → bits ≤ 64
    → shift < bits
    → u8 < 256
    → IsBytes src
    → result < 2 ^ shift
    → ok? (read_leb_loop (signed bits) u8 src (room_for (bits - shift) src) shift result minus)
      ≡ Option.map (above result shift) (s_grammar (bits - shift) (u8 ∷ src))
loop_lem bits u8 [] shift result minus hb hs hu hbs hr =
    loop_nil bits u8 shift result minus hb hs hu hr
loop_lem bits u8 (b ∷ rest) shift result minus hb hs hu hbs hr =
    rw
      (
        signed_round_step bits u8 b rest (room_for (bits - shift) (b ∷ rest)) shift result minus hb
            hs hu hr,
        s_grammar_step (bits - shift) u8 (b ∷ rest),
      )
      (round_agrees (bits - shift) (room_for (bits - shift) (b ∷ rest)) result shift u8 (b ∷ rest) _
        (s_grammar (bits - shift - 7) (b ∷ rest)) hu (no_room (bits - shift) b rest)
        (λ more cont.
          let left : bits - shift - 7 ≡ bits - (shift + 7) = omega arith in
          rw
            (
              one_less (bits - shift) b rest more,
              left,
              fits_64 shift (u8 % 128) (omega arith) (omega arith),
            )
            (loop_lem bits b rest (shift + 7) (result + u8 % 128 * 2 ^ shift) (leb 64 (u8 % 128)) hb
              (omega arith) hbs.0 hbs.1 (next_bound result shift (u8 % 128) hr (omega arith)))))

-- The 64-bit pattern of an integer.
abbrev pub twos_complement : ℤ → ℕ
twos_complement (pos a) = a
twos_complement (negsuc a) = 2 ^ 64 - (a + 1)

abbrev pattern_of : ℤ × List ℕ → ℕ × List ℕ
pattern_of p = (twos_complement p.0, p.1)

above_zero : (o : Option (ℤ × List ℕ)) → Option.map (above 0 0) o ≡ Option.map pattern_of o
above_zero none = refl
above_zero (some (pos a, rest)) = ap (λ (n : ℕ). some (n, rest)) (omega arith)
above_zero (some (negsuc a, rest)) = ap (λ (n : ℕ). some (n, rest)) (omega arith)

-- For a width from 7 to 64 and a list of bytes, the checked signed reader accepts just what the grammar sN derives, and
-- stores the 64-bit pattern of its value.
pub read_leb-s_grammar :
    (bits : ℕ) (src : List ℕ)
    → 7 ≤ bits
    → bits ≤ 64
    → IsBytes src
    → ok? (read_leb (signed bits) src)
      ≡ Option.map (λ p. (twos_complement p.0, p.1)) (s_grammar bits src)
unfolding read_leb
read_leb-s_grammar bits [] lo hi hbs = rw (s_grammar-nil bits)
read_leb-s_grammar bits (u8 ∷ rest) lo hi hbs = rw (top_bit u8 hbs.0) (elim (dec_lt u8 128) [
  | yes h ↦ rw (s_grammar_step bits u8 rest, lt→ltb _ _ h, in_range_wide bits u8 lo h) (fast h)
  | no h ↦ rw (le→ltb u8 128 (omega arith), clamp ((bits + 7 - 1) / 7 - 1) (length rest)) slow
])
  where
    clamp : (limit n : ℕ) → (if ltb limit n then limit else n) ≡ min n limit
    clamp limit n = ground arith

    fast :
        u8 < 128
        → ◌≡◌ {A = Option (ℕ × List ℕ)}
            (some (if not (bit_and u8 0x40 == 0) then bit_or u8 (2 ^ 64 - 64) else u8, rest))
            (some (twos_complement (last_group u8), rest))
    fast h = rw (group_sign u8 h) (ground (arith, sign_extend_byte u8 h))

    slow :
        ok? (read_leb_loop (signed bits) u8 rest (room_for bits rest) 0 0 false)
        ≡ Option.map pattern_of (s_grammar bits (u8 ∷ rest))
    slow =
        let all_left : bits - 0 ≡ bits = omega arith in
        (rw all_left at
          (loop_lem bits u8 rest 0 0 false hi (omega arith) hbs.0 hbs.1 (omega arith)))
        ∙ above_zero (s_grammar bits (u8 ∷ rest))
