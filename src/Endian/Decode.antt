-- ===== src/Endian/Decode.antt =====
-- The decoders, on a host of either byte order.
use native.Mathlib.Nat.{
  add-mul-mod_self_right, add-mul-div_right, mod-eq_of_lt, div-eq_of_lt, one-le-pow, add_comm,
}
use wasm_doctor.Prelude.{
  ℕ, ◌+◌, ◌*◌, ◌/◌, ◌%◌, ◌^◌, ◌<◌, ◌≡◌, refl, ap, ◌∙◌, Bool, true, false, List, [], ◌∷◌, ok, arith,
}
use wasm_doctor.Prelude.Bits.{bit_or_high}
use wasm_doctor.Leb128.{IsBytes}
use wasm_doctor.Endian.{
  halves, whole, le16_to_host, le32_to_host, le64_to_host, load16, load32, le16_decode, le32_decode,
  le64_decode,
}

low : (k a b : ℕ) → a < 2 ^ k → (a + b * 2 ^ k) % 2 ^ k ≡ a
low k a b h = add-mul-mod_self_right a b (2 ^ k) ∙ mod-eq_of_lt h

high : (k a b : ℕ) → a < 2 ^ k → (a + b * 2 ^ k) / 2 ^ k ≡ b
high k a b h =
    add-mul-div_right a b (one-le-pow k 2 (omega arith))
    ∙ ap (λ (n : ℕ). n + b) (div-eq_of_lt h)
    ∙ omega arith

-- The halves of a number that was put together from them.
pub halves-whole :
    (big : Bool) (k a b : ℕ) → a < 2 ^ k → b < 2 ^ k → halves big k (whole big k a b) ≡ (a, b)
halves-whole true k a b ha hb = rw (add_comm (a * 2 ^ k) b, low k b a hb, high k b a hb) refl
halves-whole false k a b ha hb = rw (low k a b ha, high k a b ha) refl

le16-load16 :
    (big : Bool) (a b : ℕ)
    → a < 2 ^ 8
    → b < 2 ^ 8
    → le16_to_host big (load16 big a b) ≡ a + b * 2 ^ 8
unfolding le16_to_host
le16-load16 big a b ha hb = rw (halves-whole big 8 a b ha hb, bit_or_high 8 a b ha) (omega arith)

abbrev pub load64 : Bool → ℕ → ℕ → ℕ → ℕ → ℕ → ℕ → ℕ → ℕ → ℕ
load64 big a b c d e f g h = whole big 32 (load32 big a b c d) (load32 big e f g h)

pub whole-lt : (big : Bool) (k a b : ℕ) → a < 2 ^ k → b < 2 ^ k → whole big k a b < 2 ^ k * 2 ^ k
whole-lt true k a b ha hb = grind arith
whole-lt false k a b ha hb = grind arith

mod32 :
    (a b : ℕ)
    → a + b * 2 ^ 8 < 2 ^ 16
    → (a + b * 2 ^ 8) * 2 ^ 16 % 2 ^ 32 ≡ (a + b * 2 ^ 8) * 2 ^ 16
mod32 a b h = omega arith

le32-load32 :
    (big : Bool) (a b c d : ℕ)
    → a < 2 ^ 8
    → b < 2 ^ 8
    → c < 2 ^ 8
    → d < 2 ^ 8
    → le32_to_host big (load32 big a b c d) ≡ a + b * 2 ^ 8 + (c + d * 2 ^ 8) * 2 ^ 16
unfolding le32_to_host
le32-load32 big a b c d ha hb hc hd =
    rw
      (
        halves-whole big 16 (load16 big a b) (load16 big c d) (whole-lt big 8 a b ha hb)
            (whole-lt big 8 c d hc hd),
        le16-load16 big a b ha hb,
        le16-load16 big c d hc hd,
        mod32 c d (omega arith),
        bit_or_high 16 (a + b * 2 ^ 8) (c + d * 2 ^ 8) (omega arith),
      )
      (omega arith)

mod64 : (n : ℕ) → n < 2 ^ 32 → n * 2 ^ 32 % 2 ^ 64 ≡ n * 2 ^ 32
mod64 n h = omega arith

le64-load64 :
    (big : Bool) (a b c d e f g h : ℕ)
    → IsBytes (a ∷ b ∷ c ∷ d ∷ e ∷ f ∷ g ∷ h ∷ [])
    → le64_to_host big (load64 big a b c d e f g h)
      ≡ a
        + b * 2 ^ 8
        + (c + d * 2 ^ 8) * 2 ^ 16
        + (e + f * 2 ^ 8 + (g + h * 2 ^ 8) * 2 ^ 16) * 2 ^ 32
unfolding le64_to_host
le64-load64 big a b c d e f g h (ha, (hb, (hc, (hd, (he, (hf, (hg, (hh, _)))))))) =
    rw
      (
        halves-whole big 32 (load32 big a b c d) (load32 big e f g h)
            (whole-lt big 16 (load16 big a b) (load16 big c d) (whole-lt big 8 a b ha hb)
              (whole-lt big 8 c d hc hd))
            (whole-lt big 16 (load16 big e f) (load16 big g h) (whole-lt big 8 e f he hf)
              (whole-lt big 8 g h hg hh)),
        le32-load32 big a b c d ha hb hc hd,
        le32-load32 big e f g h he hf hg hh,
        mod64 (e + f * 2 ^ 8 + (g + h * 2 ^ 8) * 2 ^ 16) (omega arith),
        bit_or_high 32 (a + b * 2 ^ 8 + (c + d * 2 ^ 8) * 2 ^ 16)
            (e + f * 2 ^ 8 + (g + h * 2 ^ 8) * 2 ^ 16) (omega arith),
      )
      (omega arith)

-- The number that bytes stand for, the lowest first.
abbrev pub little : List ℕ → ℕ
little [] = 0
little (b ∷ bs) = b + 2 ^ 8 * little bs

pub le16_decode-little :
    (big : Bool) (a b : ℕ) (rest : List ℕ)
    → IsBytes (a ∷ b ∷ [])
    → le16_decode big (a ∷ b ∷ rest) ≡ ok (little (a ∷ b ∷ []))
unfolding le16_decode
le16_decode-little big a b rest h = ap ok (le16-load16 big a b h.0 h.1.0 ∙ omega arith)

-- On a host of either byte order, le32_decode gives the little-endian number of four bytes.
pub le32_decode-little :
    (big : Bool) (a b c d : ℕ) (rest : List ℕ)
    → IsBytes (a ∷ b ∷ c ∷ d ∷ [])
    → le32_decode big (a ∷ b ∷ c ∷ d ∷ rest) ≡ ok (little (a ∷ b ∷ c ∷ d ∷ []))
unfolding le32_decode
le32_decode-little big a b c d rest h =
    ap ok (le32-load32 big a b c d h.0 h.1.0 h.1.1.0 h.1.1.1.0 ∙ omega arith)

-- On a host of either byte order, le64_decode gives the little-endian number of eight bytes.
pub le64_decode-little :
    (big : Bool) (a b c d e f g h : ℕ) (rest : List ℕ)
    → IsBytes (a ∷ b ∷ c ∷ d ∷ e ∷ f ∷ g ∷ h ∷ [])
    → le64_decode big (a ∷ b ∷ c ∷ d ∷ e ∷ f ∷ g ∷ h ∷ rest)
      ≡ ok (little (a ∷ b ∷ c ∷ d ∷ e ∷ f ∷ g ∷ h ∷ []))
unfolding le64_decode
le64_decode-little big a b c d e f g h rest hs =
    ap ok (le64-load64 big a b c d e f g h hs ∙ omega arith)
