-- ===== src/Leb128/Signed/Step.antt =====
-- One round of the loop of a signed value, beside one byte of the grammar sN.
use mathlib.Core.Option
use native.Mathlib.Nat.{mod-eq_of_lt}
use wasm_doctor.Prelude.{
  ℕ, ◌+◌, ◌-◌, ◌*◌, ◌%◌, ◌^◌, ◌≤◌, ◌<◌, ◌≡◌, refl, ap, Bool, true, Option, none, some, List, [],
  ◌∷◌, arith, ltb, leb, if◌then◌else◌, Result, ok, err, e2big, einval, ok?, dec_lt, Bool-cases, inl,
  inr, lt→ltb, le→ltb, le→leb, lt→leb,
}
use wasm_doctor.Prelude.Int.{ℤ, pos, negsuc, ◌+ℤ◌, ◌*ℤ◌}
use wasm_doctor.Prelude.Bits.{pow-add}
use wasm_doctor.Leb128.{signed, finish, read_leb_loop}
use wasm_doctor.Leb128.Bytes.{top_bit}
use wasm_doctor.Leb128.Grammar.{s_grammar}
use wasm_doctor.Leb128.Signed.Group.{
  in_range, embed, above, last_group, round-signed, finish-signed, in_range_wide,
}

pub times_128_pos : (a g : ℕ) → pos 128 *ℤ pos a +ℤ pos g ≡ pos (128 * a + g)
unfolding ◌*ℤ◌ ◌+ℤ◌
times_128_pos a g = ground arith

pub times_128_negsuc :
    (a g : ℕ) → g < 128 → pos 128 *ℤ negsuc a +ℤ pos g ≡ negsuc (128 * (a + 1) - g - 1)
unfolding ◌*ℤ◌ ◌+ℤ◌
times_128_negsuc a g h = ground arith

-- One more group in front of the rest of the value.
pub embed_step :
    (result shift u8 : ℕ) (o : Option (ℤ × List ℕ))
    → 128 ≤ u8
    → u8 < 256
    → Option.map (above (result + u8 % 128 * 2 ^ shift) (shift + 7)) o
      ≡ Option.map
          (above result shift)
          (Option.map (λ p. (pos 128 *ℤ p.0 +ℤ pos (u8 - 128), p.1)) o)
embed_step result shift u8 none h hu = refl
embed_step result shift u8 (some (pos a, rest)) h hu =
    let low : u8 % 128 ≡ u8 - 128 = omega arith in
    let regroup : result + (u8 - 128) * 2 ^ shift + a * 2 ^ (shift + 7)
        ≡ result + (128 * a + (u8 - 128)) * 2 ^ shift =
      rw (pow-add shift 7) (omega arith) in
    rw (times_128_pos a (u8 - 128), low) (ap (λ (t : ℕ). some (t, rest)) regroup)
embed_step result shift u8 (some (negsuc a, rest)) h hu =
    let low : u8 % 128 ≡ u8 - 128 = omega arith in
    let parts : 128 * (a + 1) - (u8 - 128) - 1 + 1 + (u8 - 128) ≡ 128 * (a + 1) = omega arith in
    let regroup : result + (u8 - 128) * 2 ^ shift + 2 ^ 64 - (a + 1) * 2 ^ (shift + 7)
        ≡ result + 2 ^ 64 - (128 * (a + 1) - (u8 - 128) - 1 + 1) * 2 ^ shift =
      rw (pow-add shift 7) (omega (arith, ap (λ (t : ℕ). t * 2 ^ shift) parts)) in
    rw (times_128_negsuc a (u8 - 128) (omega arith), low) (ap (λ (t : ℕ). some (t, rest)) regroup)

pub s_grammar_step :
    (width n : ℕ) (rest : List ℕ)
    → s_grammar width (n ∷ rest) ≡ (
        if ltb n 128
        then (if in_range width n then some (last_group n, rest) else none)
        else if ltb 7 width
        then Option.map (λ p. (pos 128 *ℤ p.0 +ℤ pos (n - 128), p.1)) (s_grammar (width - 7) rest)
        else none)
unfolding s_grammar
s_grammar_step width n rest = ground arith

pub s_grammar-nil : (width : ℕ) → s_grammar width [] ≡ none
unfolding s_grammar
s_grammar-nil width = refl

pub finish_last :
    (bits shift result u8 : ℕ)
    → bits ≤ 64
    → shift < bits
    → result < 2 ^ shift
    → u8 < 128
    → in_range (bits - shift) (u8 % 128) ≡ true
    → finish
        (signed bits)
        u8
        (shift + 7)
        (result + u8 % 128 * 2 ^ shift % 2 ^ 64)
        (leb 64 (u8 % 128))
      ≡ embed result shift (last_group u8)
finish_last bits shift result u8 hb hs hr hu e =
    let low : u8 % 128 ≡ u8 = mod-eq_of_lt hu in
    rw low (finish-signed bits shift result u8 u8 hb hs hr hu (rw low at e))

-- One round of the loop, with a byte behind the one last read.
pub signed_round_step :
    (bits u8 b : ℕ) (rest : List ℕ) (room shift result : ℕ) (minus : Bool)
    → bits ≤ 64
    → shift < bits
    → u8 < 256
    → result < 2 ^ shift
    → read_leb_loop (signed bits) u8 (b ∷ rest) room shift result minus ≡ (
        if in_range (bits - shift) (u8 % 128)
        then (if ltb u8 128
            then ok (embed result shift (last_group u8), b ∷ rest)
            else if ltb room 1
            then err einval
            else read_leb_loop
                (signed bits)
                b
                rest
                (room - 1)
                (shift + 7)
                (result + u8 % 128 * 2 ^ shift % 2 ^ 64)
                (leb 64 (u8 % 128)))
        else err e2big)
unfolding read_leb_loop
signed_round_step bits u8 b rest room shift result minus hb hs hu hr =
    rw (round-signed bits shift result u8 minus hb hs hr hu, top_bit u8 hu)
      (elim (Bool-cases (in_range (bits - shift) (u8 % 128))) [
        | inl e ↦ rw e (elim (dec_lt u8 128) [
          | yes h ↦
              rw (lt→ltb _ _ h)
                (ap (λ (t : ℕ). ok (t, b ∷ rest)) (finish_last bits shift result u8 hb hs hr h e))
          | no h ↦ rw (le→ltb u8 128 (omega arith)) refl
        ])
        | inr e ↦ rw e refl
      ])

-- The same with no byte behind it.
pub signed_round_nil :
    (bits u8 : ℕ) (room shift result : ℕ) (minus : Bool)
    → bits ≤ 64
    → shift < bits
    → u8 < 256
    → result < 2 ^ shift
    → ok? (read_leb_loop (signed bits) u8 [] room shift result minus) ≡ (
        if in_range (bits - shift) (u8 % 128)
        then (if ltb u8 128 then some (embed result shift (last_group u8), []) else none)
        else none)
unfolding read_leb_loop
signed_round_nil bits u8 room shift result minus hb hs hu hr =
    rw (round-signed bits shift result u8 minus hb hs hr hu, top_bit u8 hu)
      (elim (Bool-cases (in_range (bits - shift) (u8 % 128))) [
        | inl e ↦ rw e (elim (dec_lt u8 128) [
          | yes h ↦
              rw (lt→ltb _ _ h)
                (ap (λ (t : ℕ). some (t, [])) (finish_last bits shift result u8 hb hs hr h e))
          | no h ↦ rw (le→ltb u8 128 (omega arith)) (ground arith)
        ])
        | inr e ↦ rw e refl
      ])

-- The two sides of one round, when the rounds behind it (`later`) read the rest of the value (`o`).
pub round_agrees :
    (left room result shift u8 : ℕ) (rest : List ℕ) (later : Result (ℕ × List ℕ))
    (o : Option (ℤ × List ℕ))
    → u8 < 256
    → ltb room 1 ≡ leb left 7
    → (7 < left
        → 128 ≤ u8
        → ok? later ≡ Option.map (above (result + u8 % 128 * 2 ^ shift) (shift + 7)) o)
    → ok? (
        if in_range left (u8 % 128)
        then (if ltb u8 128
            then ok (embed result shift (last_group u8), rest)
            else if ltb room 1
            then err einval
            else later)
        else err e2big)
      ≡ Option.map (above result shift) (
          if ltb u8 128
          then (if in_range left u8 then some (last_group u8, rest) else none)
          else if ltb 7 left
          then Option.map (λ p. (pos 128 *ℤ p.0 +ℤ pos (u8 - 128), p.1)) o
          else none)
round_agrees left room result shift u8 rest later o hu hroom ih = elim (dec_lt u8 128) [
  | yes h ↦
      rw (mod-eq_of_lt h, lt→ltb _ _ h)
        (elim (Bool-cases (in_range left u8)) [ inl e ↦ rw e refl | inr e ↦ rw e refl ])
  | no h ↦
      rw (le→ltb u8 128 (omega arith), hroom)
        (elim (dec_lt 7 left) [
          | yes more ↦
              rw
                (
                  in_range_wide left (u8 % 128) (omega arith) (omega arith),
                  lt→ltb _ _ more,
                  lt→leb left 7 more,
                  ih more (omega arith),
                )
                (embed_step result shift u8 o (omega arith) hu)
          | no few ↦
              rw (le→ltb 7 left (omega arith)) (elim (Bool-cases (in_range left (u8 % 128))) [
                | inl e ↦ rw (e, le→leb left 7 (omega arith)) refl
                | inr e ↦ rw e refl
              ])
        ])
]
