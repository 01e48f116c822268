-- ===== src/Leb128/Readers.antt =====
-- The readers of the header, each with the width that it asks for.
use mathlib.Core.Option
use native.Mathlib.Nat.{pow-le-pow_right, mod-eq_of_lt}
use wasm_doctor.Prelude.{
  ℕ, ◌+◌, ◌-◌, ◌*◌, ◌%◌, ◌^◌, ◌≤◌, ◌<◌, ◌≡◌, refl, ap, ◌∙◌, Option, none, some, List, [], ◌∷◌,
  arith, leb, Result, ok, err, fault, ok?, dec_lt, ◌>>=◌, ◌>>◌, assert, sym, lt→ltb, le→ltb, lt→leb,
  le→leb, Option-cases, inl, inr,
}
use wasm_doctor.Prelude.Int.{ℤ, pos, negsuc, ◌+ℤ◌, ◌*ℤ◌}
use wasm_doctor.Prelude.Bits.{pow-add}
use wasm_doctor.Leb128.{
  unsigned, signed, read_leb, int64, IsBytes, read_leb_u32, read_leb_u, read_leb_s,
}
use wasm_doctor.Leb128.Grammar.{u_grammar, s_grammar}
use wasm_doctor.Leb128.Unsigned.{read_leb-u_grammar}
use wasm_doctor.Leb128.Signed.{twos_complement, times_128_pos, times_128_negsuc, read_leb-s_grammar}

seven_more : (width : ℕ) → 7 < width → 2 ^ width ≡ 128 * 2 ^ (width - 7)
seven_more width h =
    let e : width ≡ 7 + (width - 7) = omega arith in ap (λ (t : ℕ). 2 ^ t) e ∙ pow-add 7 (width - 7)

-- The values that the grammar uN derives are below 2^N.
pub u_grammar-lt :
    (width : ℕ) (src : List ℕ) (v : ℕ) (rest : List ℕ)
    → IsBytes src
    → u_grammar width src ≡ some (v, rest)
    → v < 2 ^ width
unfolding u_grammar
u_grammar-lt width [] v rest hbs e = cc
u_grammar-lt width (n ∷ src) v rest hbs e = elim (Option-cases (u_grammar (width - 7) src)) [
  | inl none_ ↦ ground (arith, none_)
  | inr (p, some_) ↦
      ground (arith, seven_more width, u_grammar-lt (width - 7) src p.0 p.1 hbs.1 some_)
]

-- An integer of `width` bits in two's complement.
abbrev pub Fits : ℕ → ℤ → Type 0
Fits width (pos a) = a < 2 ^ (width - 1)
Fits width (negsuc a) = a < 2 ^ (width - 1)

seven_less : (width : ℕ) → 7 < width → 2 ^ (width - 1) ≡ 128 * 2 ^ (width - 7 - 1)
seven_less width h =
    let e : width - 1 ≡ 7 + (width - 7 - 1) = omega arith in
    ap (λ (t : ℕ). 2 ^ t) e ∙ pow-add 7 (width - 7 - 1)

Fits-more :
    (width n : ℕ) (z : ℤ)
    → 7 < width
    → n < 256
    → Fits (width - 7) z
    → Fits width (pos 128 *ℤ z +ℤ pos (n - 128))
Fits-more width n (pos a) h hn fits =
    rw (times_128_pos a (n - 128)) (omega (arith, seven_less width h))
Fits-more width n (negsuc a) h hn fits =
    rw (times_128_negsuc a (n - 128) (omega arith)) (omega (arith, seven_less width h))

abbrev pub AllFit : ℕ → Option (ℤ × List ℕ) → Type 0
AllFit width none = Unit
AllFit width (some p) = Fits width p.0

AllFit-map :
    (width n : ℕ) (o : Option (ℤ × List ℕ))
    → 7 < width
    → n < 256
    → AllFit (width - 7) o
    → AllFit width (Option.map (λ p. (pos 128 *ℤ p.0 +ℤ pos (n - 128), p.1)) o)
AllFit-map width n none h hn fits = tt
AllFit-map width n (some p) h hn fits = Fits-more width n p.0 h hn fits

-- The values that the grammar sN derives are integers of N bits.
pub s_grammar-Fits : (width : ℕ) (src : List ℕ) → IsBytes src → AllFit width (s_grammar width src)
unfolding s_grammar
s_grammar-Fits width [] hbs = tt
s_grammar-Fits width (n ∷ src) hbs = elim (dec_lt n 128) [
  | yes short ↦ rw (lt→ltb _ _ short) (elim (dec_lt n 64) [
    | yes small ↦ rw (lt→ltb _ _ small) (elim (dec_lt n (2 ^ (width - 1))) [
      | yes fits ↦ rw (lt→ltb _ _ fits) fits
      | no wide ↦ rw (le→ltb n (2 ^ (width - 1)) (omega arith)) tt
    ])
    | no large ↦ rw (le→ltb n 64 (omega arith)) (elim (dec_lt (n + 2 ^ (width - 1)) 128) [
      | yes wide ↦ rw (lt→leb 128 (n + 2 ^ (width - 1)) wide) tt
      | no fits ↦ rw (le→leb 128 (n + 2 ^ (width - 1)) (omega arith)) (omega arith)
    ])
  ])
  | no long ↦ rw (le→ltb n 128 (omega arith)) (elim (dec_lt 7 width) [
    | yes more ↦ rw (lt→ltb _ _ more) (
        AllFit-map width n (s_grammar (width - 7) src) more hbs.0
          (s_grammar-Fits (width - 7) src hbs.1))
    | no few ↦ rw (le→ltb 7 width (omega arith)) tt
  ])
]

int64-twos_complement :
    (width : ℕ) (z : ℤ) → 1 ≤ width → width ≤ 64 → Fits width z → int64 (twos_complement z) ≡ z
int64-twos_complement width (pos a) lo hi fits =
    let p : 2 ^ (width - 1) ≤ 2 ^ 63 =
      pow-le-pow_right {n = 2} (omega arith) {j = 63} (omega arith) in
    ground arith
int64-twos_complement width (negsuc a) lo hi fits =
    let p : 2 ^ (width - 1) ≤ 2 ^ 63 =
      pow-le-pow_right {n = 2} (omega arith) {j = 63} (omega arith) in
    ground arith

-- `read_leb_u` with a width from 7 to 64 is the grammar uN.
pub read_leb_u-u_grammar :
    (bits : ℕ) (src : List ℕ)
    → 7 ≤ bits
    → bits ≤ 64
    → IsBytes src
    → ok? (read_leb_u bits src) ≡ u_grammar bits src
unfolding read_leb_u
read_leb_u-u_grammar = read_leb-u_grammar

abbrev pattern_of : ℤ × List ℕ → ℕ × List ℕ
pattern_of p = (twos_complement p.0, p.1)

abbrev to_int64 : ℕ × List ℕ → ℤ × List ℕ
to_int64 p = (int64 p.0, p.1)

-- On a list of bytes, `read_leb_s` with a width from 7 to 64 is the grammar sN: the cast to int64_t gives its value back.
pub read_leb_s-s_grammar :
    (bits : ℕ) (src : List ℕ)
    → 7 ≤ bits
    → bits ≤ 64
    → IsBytes src
    → ok? (read_leb_s bits src) ≡ s_grammar bits src
unfolding read_leb_s
read_leb_s-s_grammar bits src lo hi hbs =
    ok?-cast (read_leb (signed bits) src)
    ∙ ap (Option.map to_int64) (read_leb-s_grammar bits src lo hi hbs)
    ∙ cast_back (s_grammar bits src) (s_grammar-Fits bits src hbs)
  where
    ok?-cast :
        (r : Result (ℕ × List ℕ))
        → ok? {Out = ℤ × List ℕ} (r >>= λ x. ok (int64 x.0, x.1)) ≡ Option.map to_int64 (ok? r)
    ok?-cast (ok p) = refl
    ok?-cast (err e) = refl
    ok?-cast fault = refl

    cast_back :
        (o : Option (ℤ × List ℕ))
        → AllFit bits o
        → Option.map to_int64 (Option.map pattern_of o) ≡ o
    cast_back none h = refl
    cast_back (some (z, rest)) h =
        ap (λ (t : ℤ). some (t, rest)) (int64-twos_complement bits z (omega arith) hi h)

-- On a list of bytes, `read_leb_u32` is the grammar u32: its assertion holds and its cast loses nothing.
pub read_leb_u32-u_grammar :
    (src : List ℕ) → IsBytes src → ok? (read_leb_u32 src) ≡ u_grammar 32 src
unfolding read_leb_u32
read_leb_u32-u_grammar src hbs =
    narrow (read_leb (unsigned 32) src) (read_leb-u_grammar 32 src (omega arith) (omega arith) hbs)
  where
    narrow :
        (r : Result (ℕ × List ℕ))
        → ok? r ≡ u_grammar 32 src
        → ok? (r >>= λ x. assert (leb x.0 0xffff_ffff) >> ok (x.0 % 2 ^ 32, x.1)) ≡ u_grammar 32 src
    narrow (ok (v, rest)) e =
        let small : v < 2 ^ 32 = u_grammar-lt 32 src v rest hbs (sym e) in
        rw (le→leb v 0xffff_ffff (omega arith), mod-eq_of_lt small) e
    narrow (err x) e = e
    narrow fault e = e
