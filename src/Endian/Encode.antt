-- ===== src/Endian/Encode.antt =====
-- The encoders, and what the decoders make of their bytes.
use wasm_doctor.Prelude.{
  length, ℕ, ◌/◌, ◌%◌, ◌^◌, ◌<◌, ◌≡◌, refl, ap, ◌∙◌, Bool, List, [], ◌∷◌, ◌++◌, ok, arith,
}
use wasm_doctor.Leb128.{IsBytes}
use wasm_doctor.Endian.{
  host_to_le16, host_to_le32, host_to_le64, bytes16, bytes32, bytes64, le16_encode, le32_encode,
  le64_encode, le16_decode, le32_decode, le64_decode,
}
use wasm_doctor.Endian.Decode.{
  halves-whole, whole-lt, little, le16_decode-little, le32_decode-little, le64_decode-little,
}

host_to_le16-lt : (big : Bool) (v : ℕ) → host_to_le16 big v < 2 ^ 16
unfolding host_to_le16
host_to_le16-lt big v = whole-lt big 8 (v % 2 ^ 8) (v / 2 ^ 8 % 2 ^ 8) (omega arith) (omega arith)

host_to_le32-lt : (big : Bool) (v : ℕ) → host_to_le32 big v < 2 ^ 32
unfolding host_to_le32
host_to_le32-lt big v =
    whole-lt big 16 (host_to_le16 big (v % 2 ^ 16)) (host_to_le16 big (v / 2 ^ 16 % 2 ^ 16))
      (host_to_le16-lt big (v % 2 ^ 16)) (host_to_le16-lt big (v / 2 ^ 16 % 2 ^ 16))

-- The two bytes of a number, the lowest first.
abbrev two : ℕ → List ℕ
two v = v % 2 ^ 8 ∷ v / 2 ^ 8 % 2 ^ 8 ∷ []

abbrev four : ℕ → List ℕ
four v = two (v % 2 ^ 16) ++ two (v / 2 ^ 16 % 2 ^ 16)

bytes16-two : (big : Bool) (v : ℕ) → bytes16 big (host_to_le16 big v) ≡ two v
unfolding host_to_le16 bytes16
bytes16-two big v =
    rw (halves-whole big 8 (v % 2 ^ 8) (v / 2 ^ 8 % 2 ^ 8) (omega arith) (omega arith)) refl

bytes32-four : (big : Bool) (v : ℕ) → bytes32 big (host_to_le32 big v) ≡ four v
unfolding host_to_le32 bytes32
bytes32-four big v =
    rw
      (
        halves-whole big 16 (host_to_le16 big (v % 2 ^ 16)) (host_to_le16 big (v / 2 ^ 16 % 2 ^ 16))
            (host_to_le16-lt big (v % 2 ^ 16)) (host_to_le16-lt big (v / 2 ^ 16 % 2 ^ 16)),
        bytes16-two big (v % 2 ^ 16),
        bytes16-two big (v / 2 ^ 16 % 2 ^ 16),
      )
      refl

bytes64-eight :
    (big : Bool) (v : ℕ)
    → bytes64 big (host_to_le64 big v) ≡ four (v % 2 ^ 32) ++ four (v / 2 ^ 32 % 2 ^ 32)
unfolding host_to_le64 bytes64
bytes64-eight big v =
    rw
      (
        halves-whole big 32 (host_to_le32 big (v % 2 ^ 32)) (host_to_le32 big (v / 2 ^ 32 % 2 ^ 32))
            (host_to_le32-lt big (v % 2 ^ 32)) (host_to_le32-lt big (v / 2 ^ 32 % 2 ^ 32)),
        bytes32-four big (v % 2 ^ 32),
        bytes32-four big (v / 2 ^ 32 % 2 ^ 32),
      )
      refl

-- On a host of either byte order, le16_decode gives back what le16_encode has written.
pub le16_decode-le16_encode :
    (big : Bool) (v : ℕ) (rest : List ℕ)
    → v < 2 ^ 16
    → le16_decode big (le16_encode big v ++ rest) ≡ ok v
unfolding le16_encode
le16_decode-le16_encode big v rest h =
    rw (bytes16-two big v) (le16_decode-little big _ _ rest (omega arith) ∙ ap ok (omega arith))

-- On a host of either byte order, le32_encode writes the four bytes of a 32-bit number from the
-- lowest up, and le32_decode gives the number back from them.
pub le32_decode-le32_encode :
    (big : Bool) (v : ℕ) (rest : List ℕ)
    → v < 2 ^ 32
    → (little (le32_encode big v) ≡ v) × (le32_decode big (le32_encode big v ++ rest) ≡ ok v)
unfolding le32_encode
le32_decode-le32_encode big v rest h =
    rw (bytes32-four big v)
      (omega arith, le32_decode-little big _ _ _ _ rest (omega arith) ∙ ap ok (omega arith))

-- On a host of either byte order, le64_encode writes a 64-bit number as eight bytes, from the lowest up,
-- and le64_decode gives the number back from them.
pub le64_decode-le64_encode :
    (big : Bool) (v : ℕ) (rest : List ℕ)
    → v < 2 ^ 64
    → (length (le64_encode big v) ≡ 8)
      × IsBytes (le64_encode big v)
      × (little (le64_encode big v) ≡ v)
      × (le64_decode big (le64_encode big v ++ rest) ≡ ok v)
unfolding le64_encode
le64_decode-le64_encode big v rest h = rw (bytes64-eight big v) (
  refl,
  omega arith,
  omega arith,
  le64_decode-little big _ _ _ _ _ _ _ _ rest (omega arith) ∙ ap ok (omega arith),
)
