-- ===== src/Leb128/Write.antt =====
-- write_leb_u32 of lib/module_writer.c, and what the reader makes of it. The model returns the bytes
-- that the C function hands to the writer one by one.
use mathlib.Core.Option
use native.Mathlib.Nat.{pow-le-pow_right, mod-eq_of_lt}
use wasm_doctor.Prelude.{
  ℕ, zero, suc, ◌+◌, ◌-◌, ◌*◌, ◌/◌, ◌%◌, ◌^◌, ◌≤◌, ◌<◌, bit_and, bit_or, ◌≡◌, refl, ap, ◌∙◌, not,
  false, Option, none, some, List, [], ◌∷◌, ◌++◌, length, arith, ◌==◌, if◌then◌else◌, ok?, dec_lt,
  lt→ltb, le→ltb,
}
use wasm_doctor.Prelude.Bits.{bit_and_mask, bit_or_disjoint, pow-add}
use wasm_doctor.Leb128.{IsBytes, read_leb_u32}
use wasm_doctor.Leb128.Grammar.{u_grammar}
use wasm_doctor.Leb128.Readers.{read_leb_u32-u_grammar}

-- The do-while loop with fuel; `none` means that the fuel ran out.
pub write_leb_loop : ℕ → ℕ → Option (List ℕ)
write_leb_loop zero u = none
write_leb_loop (suc fuel) u =
    let u8 = bit_and u 0x7f in
    let rest = Option.map (λ bytes. bit_or u8 0x80 ∷ bytes) (write_leb_loop fuel (u / 2 ^ 7)) in
    if not (u / 2 ^ 7 == 0) then rest else some (u8 ∷ [])

-- Five rounds are enough for 32 bits.
pub write_leb_u32 : ℕ → Option (List ℕ)
write_leb_u32 u = write_leb_loop 5 u

set_top : (v : ℕ) → v < 128 → bit_or v 0x80 ≡ v + 128
set_top v h = bit_or_disjoint 7 v 1 h

IsBytes-append : (xs ys : List ℕ) → IsBytes xs → IsBytes ys → IsBytes (xs ++ ys)
IsBytes-append [] ys h k = k
IsBytes-append (x ∷ xs) ys h k = (h.0, IsBytes-append xs ys h.1 k)

-- What a run of the loop has written.
record Encodes (fuel width u : ℕ) : Type 0 where
  bytes : List ℕ
  written : write_leb_loop fuel u ≡ some bytes
  are_bytes : IsBytes bytes
  few : (1 ≤ length bytes) × (length bytes ≤ fuel)
  read_back : (rest : List ℕ) → u_grammar width (bytes ++ rest) ≡ some (u, rest)

one_byte : (fuel width u : ℕ) → u < 2 ^ width → u < 128 → Encodes (suc fuel) width u
unfolding write_leb_loop u_grammar
one_byte fuel width u h small =
    let low : bit_and u 0x7f ≡ u = bit_and_mask 7 u ∙ mod-eq_of_lt small in
    let done : u / 2 ^ 7 ≡ 0 = omega arith in
    record {
      bytes = u ∷ [];
      written = rw (low, done) refl;
      are_bytes = omega arith;
      few = omega arith;
      read_back = λ rest. rw (lt→ltb u 128 small, lt→ltb u (2 ^ width) h) refl;
    }

more_bytes :
    (fuel width u : ℕ)
    → 128 ≤ u
    → 7 < width
    → Encodes fuel (width - 7) (u / 2 ^ 7)
    → Encodes (suc fuel) width u
unfolding write_leb_loop u_grammar
more_bytes fuel width u large wide r =
    let low : bit_or (bit_and u 0x7f) 0x80 ≡ u % 128 + 128 =
      ap (λ (t : ℕ). bit_or t 0x80) (bit_and_mask 7 u) ∙ set_top (u % 128) (omega arith) in
    let again : (u / 2 ^ 7 == 0) ≡ false = ground arith in
    let value : 128 * (u / 2 ^ 7) + (u % 128 + 128 - 128) ≡ u = omega arith in
    record {
      bytes = (u % 128 + 128) ∷ r.bytes;
      written = rw (low, again, r.written) refl;
      are_bytes = (omega arith, r.are_bytes);
      few = omega (arith, r.few.0, r.few.1);
      read_back = λ rest.
          rw
            (le→ltb (u % 128 + 128) 128 (omega arith), lt→ltb 7 width wide, r.read_back rest, value)
            refl;
    }

encodes : (fuel width u : ℕ) → u < 2 ^ width → width ≤ 7 * fuel → 1 ≤ width → Encodes fuel width u
encodes zero width u h hf lo = absurd (omega arith)
encodes (suc fuel) width u h hf lo = elim (dec_lt u 128) [
  | yes small ↦ one_byte fuel width u h small
  | no large ↦ elim (dec_lt 7 width) [
    | yes wide ↦
        let e : width ≡ 7 + (width - 7) = omega arith in
        let p : 2 ^ width ≡ 2 ^ 7 * 2 ^ (width - 7) =
          ap (λ (t : ℕ). 2 ^ t) e ∙ pow-add 7 (width - 7) in
        more_bytes fuel width u (omega arith) wide
          (encodes fuel (width - 7) (u / 2 ^ 7) (omega (arith, p)) (omega arith) (omega arith))
    | no narrow ↦
        let p : 2 ^ width ≤ 2 ^ 7 = pow-le-pow_right {n = 2} (omega arith) {j = 7} (omega arith) in
        absurd (omega (arith, p))
  ]
]

-- For every 32-bit number the writer ends within its five rounds with 1 to 5 bytes, and the reader
-- returns the number from them, leaving whatever bytes follow.
pub read_leb_u32-write_leb_u32 :
    (u : ℕ) (rest : List ℕ)
    → u < 2 ^ 32
    → IsBytes rest
    → (bytes : List ℕ) × (write_leb_u32 u ≡ some bytes)
      × (1 ≤ length bytes)
      × (length bytes ≤ 5)
      × (ok? (read_leb_u32 (bytes ++ rest)) ≡ some (u, rest))
unfolding write_leb_u32
read_leb_u32-write_leb_u32 u rest h hr =
    let r = encodes 5 32 u h (omega arith) (omega arith) in
    (
      r.bytes,
      r.written,
      r.few.0,
      r.few.1,
      read_leb_u32-u_grammar (r.bytes ++ rest) (IsBytes-append r.bytes rest r.are_bytes hr)
          ∙ r.read_back rest,
    )
