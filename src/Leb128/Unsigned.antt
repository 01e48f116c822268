-- ===== src/Leb128/Unsigned.antt =====
-- The unsigned readers and the grammar uN.
use mathlib.Core.Option
use wasm_doctor.Prelude.{
  ℕ, ◌+◌, ◌-◌, ◌*◌, ◌/◌, ◌%◌, ◌^◌, ◌≤◌, ◌<◌, min, ◌≡◌, refl, ap, sym, ◌∙◌, false, Option, none,
  some, List, [], ◌∷◌, length, arith, ltb, leb, if◌then◌else◌, ok, err, e2big, einval, ok?, dec_lt,
  lt→ltb, le→ltb,
}
use native.Mathlib.Nat.{pow-le-pow_right, mul-lt-mul_of_pos_right, mul-le-mul_right, mod-eq_of_lt}
use wasm_doctor.Prelude.Bits.{pow-add, pow_pos, bit_or_disjoint}
use wasm_doctor.Leb128.{
  unsigned, check_group, add_group, round, finish, read_leb_loop, read_leb, IsBytes,
}
use wasm_doctor.Leb128.Bytes.{low_bits, top_bit, high_bits_clear}
use wasm_doctor.Leb128.Grammar.{u_grammar}

-- Seven bits or more hold every group.
pub group_fits : (r v : ℕ) → 7 ≤ r → v < 128 → v < 2 ^ r
group_fits r v h hv =
    let e : r ≡ 7 + (r - 7) = omega arith in
    let p : 2 ^ r ≡ 2 ^ 7 * 2 ^ (r - 7) = ap (λ (t : ℕ). 2 ^ t) e ∙ pow-add 7 (r - 7) in
    omega (arith, p, pow_pos (r - 7))

check_unsigned :
    (bits shift v : ℕ)
    → shift < bits
    → v < 128
    → check_group (unsigned bits) v shift false
      ≡ (if ltb v (2 ^ (bits - shift)) then ok false else err e2big)
unfolding check_group
check_unsigned bits shift v hs hv = elim (dec_lt (bits - shift) 7) [
  | yes few ↦
      rw (le→ltb' bits shift hs, lt→ltb _ _ few, high_bits_clear v (bits - shift) hv (omega arith))
        refl
  | no many ↦ ground (arith, group_fits (bits - shift) v (omega arith) hv)
]
  where
    le→ltb' : (a b : ℕ) → b < a → leb a b ≡ false
    le→ltb' a b h = ground arith

-- A group within the width fits 64 bits where it stands.
pub shifted_fits :
    (bits shift v : ℕ) → bits ≤ 64 → shift < bits → v < 2 ^ (bits - shift) → v * 2 ^ shift < 2 ^ 64
shifted_fits bits shift v hb hs hv =
    let e : bits - shift + shift ≡ bits = omega arith in
    let p : 2 ^ (bits - shift) * 2 ^ shift ≡ 2 ^ bits =
      sym (pow-add (bits - shift) shift) ∙ ap (λ (t : ℕ). 2 ^ t) e in
    let q : 2 ^ bits ≤ 2 ^ 64 = pow-le-pow_right (omega arith) hb in
    let r : v * 2 ^ shift < 2 ^ (bits - shift) * 2 ^ shift =
      mul-lt-mul_of_pos_right hv (pow_pos shift) in
    omega (arith, p, q, r)

-- A group within the width is added without a loss.
pub add_group_fits :
    (bits shift result v : ℕ)
    → bits ≤ 64
    → shift < bits
    → result < 2 ^ shift
    → v < 2 ^ (bits - shift)
    → add_group result v shift ≡ ok (result + v * 2 ^ shift)
unfolding add_group
add_group_fits bits shift result v hb hs hr hv =
    ground
      (arith, mod-eq_of_lt (shifted_fits bits shift v hb hs hv), bit_or_disjoint shift result v hr)

round-unsigned :
    (bits shift result u8 : ℕ)
    → bits ≤ 64
    → shift < bits
    → result < 2 ^ shift
    → u8 < 256
    → round (unsigned bits) u8 shift result false ≡ (
        if ltb (u8 % 128) (2 ^ (bits - shift))
        then ok (result + u8 % 128 * 2 ^ shift, false)
        else err e2big)
unfolding round
round-unsigned bits shift result u8 hb hs hr hu =
    rw (low_bits u8 hu, check_unsigned bits shift (u8 % 128) hs (omega arith))
      (elim (dec_lt (u8 % 128) (2 ^ (bits - shift))) [
        | yes h ↦ rw (lt→ltb _ _ h, add_group_fits bits shift result (u8 % 128) hb hs hr h) refl
        | no h ↦ rw (le→ltb (u8 % 128) (2 ^ (bits - shift)) (omega arith)) refl
      ])

-- How many bytes may follow the one last read, with `left` bits to come.
abbrev pub room_for : ℕ → List ℕ → ℕ
room_for left rest = min (length rest) ((left + 7 - 1) / 7 - 1)

-- The value of the groups from bit `shift` on, above what is already read.
abbrev above : ℕ → ℕ → ℕ × List ℕ → ℕ × List ℕ
above result shift p = (result + p.0 * 2 ^ shift, p.1)

u_grammar_step :
    (width n : ℕ) (rest : List ℕ)
    → u_grammar width (n ∷ rest) ≡ (
        if ltb n 128
        then (if ltb n (2 ^ width) then some (n, rest) else none)
        else if ltb 7 width
        then Option.map (λ p. (128 * p.0 + (n - 128), p.1)) (u_grammar (width - 7) rest)
        else none)
unfolding u_grammar
u_grammar_step width n rest = refl

u_grammar-nil : (width : ℕ) → u_grammar width [] ≡ none
unfolding u_grammar
u_grammar-nil width = refl

-- One more group in front of the rest of the value.
above_step :
    (result shift u8 : ℕ) (o : Option (ℕ × List ℕ))
    → 128 ≤ u8
    → u8 < 256
    → Option.map (above (result + u8 % 128 * 2 ^ shift) (shift + 7)) o
      ≡ Option.map (above result shift) (Option.map (λ p. (128 * p.0 + (u8 - 128), p.1)) o)
above_step result shift u8 none h hu = refl
above_step result shift u8 (some (m, rest)) h hu =
    let e : u8 % 128 ≡ u8 - 128 = omega arith in
    let regroup : result + (u8 - 128) * 2 ^ shift + m * 2 ^ (shift + 7)
        ≡ result + (128 * m + (u8 - 128)) * 2 ^ shift =
      rw (pow-add shift 7) (omega arith) in
    ap (λ (t : ℕ). some (t, rest)) (rw e regroup)

-- The group is added below the next one.
pub next_bound :
    (result shift v : ℕ) → result < 2 ^ shift → v < 128 → result + v * 2 ^ shift < 2 ^ (shift + 7)
next_bound result shift v hr hv =
    let p : v * 2 ^ shift ≤ 127 * 2 ^ shift = mul-le-mul_right (2 ^ shift) (omega arith) in
    omega (arith, pow-add shift 7, p)

-- One round of the loop, with a byte behind the one last read.
unsigned_round_step :
    (bits u8 b : ℕ) (rest : List ℕ) (room shift result : ℕ)
    → bits ≤ 64
    → shift < bits
    → u8 < 256
    → result < 2 ^ shift
    → read_leb_loop (unsigned bits) u8 (b ∷ rest) room shift result false ≡ (
        if ltb (u8 % 128) (2 ^ (bits - shift))
        then (if ltb u8 128
            then ok (result + u8 % 128 * 2 ^ shift, b ∷ rest)
            else if ltb room 1
            then err einval
            else read_leb_loop
                (unsigned bits)
                b
                rest
                (room - 1)
                (shift + 7)
                (result + u8 % 128 * 2 ^ shift)
                false)
        else err e2big)
unfolding read_leb_loop finish
unsigned_round_step bits u8 b rest room shift result hb hs hu hr =
    rw (round-unsigned bits shift result u8 hb hs hr hu, top_bit u8 hu)
      (elim (dec_lt (u8 % 128) (2 ^ (bits - shift))) [
        | yes h ↦ rw (lt→ltb _ _ h) refl
        | no h ↦ rw (le→ltb (u8 % 128) (2 ^ (bits - shift)) (omega arith)) refl
      ])

loop_lem :
    (bits u8 : ℕ) (src : List ℕ) (shift result : ℕ)
    → bits ≤ 64
    → shift < bits
    → u8 < 256
    → IsBytes src
    → result < 2 ^ shift
    → ok? (read_leb_loop (unsigned bits) u8 src (room_for (bits - shift) src) shift result false)
      ≡ Option.map (above result shift) (u_grammar (bits - shift) (u8 ∷ src))
loop_lem bits u8 [] shift result hb hs hu hbs hr =
    unfold read_leb_loop finish in
    rw
      (
        round-unsigned bits shift result u8 hb hs hr hu,
        top_bit u8 hu,
        u_grammar_step (bits - shift) u8 [],
        u_grammar-nil (bits - shift - 7),
      )
      (ground (arith, group_fits (bits - shift) (u8 % 128)))
loop_lem bits u8 (b ∷ rest) shift result hb hs hu hbs hr =
    rw
      (
        unsigned_round_step bits u8 b rest (room_for (bits - shift) (b ∷ rest)) shift result hb hs
            hu hr,
        u_grammar_step (bits - shift) u8 (b ∷ rest),
      )
      (ground (
        arith,
        group_fits (bits - shift) (u8 % 128),
        above_step result shift u8 (u_grammar (bits - shift - 7) (b ∷ rest)),
        next_bound result shift (u8 % 128),
        loop_lem bits b rest (shift + 7) (result + u8 % 128 * 2 ^ shift),
      ))

-- For a width from 7 to 64 and a list of bytes, the checked unsigned reader accepts just what the grammar uN derives,
-- with its value and with what follows it.
pub read_leb-u_grammar :
    (bits : ℕ) (src : List ℕ)
    → 7 ≤ bits
    → bits ≤ 64
    → IsBytes src
    → ok? (read_leb (unsigned bits) src) ≡ u_grammar bits src
unfolding read_leb
read_leb-u_grammar bits [] lo hi hbs = rw (u_grammar-nil bits)
read_leb-u_grammar bits (u8 ∷ rest) lo hi hbs =
    rw (top_bit u8 hbs.0, u_grammar_step bits u8 rest)
      (ground (arith, group_fits bits u8, loop_at_start, u_grammar_step bits u8 rest))
  where
    map_above_zero : (o : Option (ℕ × List ℕ)) → Option.map (above 0 0) o ≡ o
    map_above_zero none = refl
    map_above_zero (some (v, t)) = ap (λ (n : ℕ). some (n, t)) (omega arith)

    clamp : (limit n : ℕ) → (if ltb limit n then limit else n) ≡ min n limit
    clamp limit n = ground arith

    loop_at_start :
        ok? (
          read_leb_loop
            (unsigned bits)
            u8
            rest
            (if ltb ((bits + 7 - 1) / 7 - 1) (length rest)
              then (bits + 7 - 1) / 7 - 1
              else length rest)
            0
            0
            false)
        ≡ u_grammar bits (u8 ∷ rest)
    loop_at_start =
        let all_left : bits - 0 ≡ bits = omega arith in
        let at_zero : ok? (read_leb_loop (unsigned bits) u8 rest (room_for bits rest) 0 0 false)
            ≡ Option.map (above 0 0) (u_grammar bits (u8 ∷ rest)) =
          rw all_left at (loop_lem bits u8 rest 0 0 hi (omega arith) hbs.0 hbs.1 (omega arith)) in
        rw (clamp ((bits + 7 - 1) / 7 - 1) (length rest))
          (at_zero ∙ map_above_zero (u_grammar bits (u8 ∷ rest)))
