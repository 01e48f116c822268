-- ===== src/Endian.antt =====
-- lib/endian.c: numbers in little-endian order. The byte order of the host is a parameter: `big` says
-- that the object representation of a number has its high part first. The floating-point functions
-- store the same bit patterns.
pub mod Decode
mod Encode
mod Tests
use wasm_doctor.Prelude.{
  ℕ, ◌+◌, ◌*◌, ◌/◌, ◌%◌, ◌^◌, bit_or, Bool, true, false, List, [], ◌∷◌, ◌++◌, if◌then◌else◌, Result,
  ok, err, fault, ◌>>=◌,
}

-- A union of a number and the array of its two halves of `k` bits: the halves of a number, and back.
abbrev pub halves : Bool → ℕ → ℕ → ℕ × ℕ
halves big k v = if big then (v / 2 ^ k, v % 2 ^ k) else (v % 2 ^ k, v / 2 ^ k)

abbrev pub whole : Bool → ℕ → ℕ → ℕ → ℕ
whole big k first second = if big then first * 2 ^ k + second else first + second * 2 ^ k

unfoldable pub le16_to_host : Bool → ℕ → ℕ
le16_to_host big v = let u8 = halves big 8 v in bit_or (u8.1 * 2 ^ 8) u8.0 % 2 ^ 16

unfoldable pub le32_to_host : Bool → ℕ → ℕ
unfolding le16_to_host
le32_to_host big v =
    let u16 = halves big 16 v in
    bit_or (le16_to_host big u16.1 * 2 ^ 16 % 2 ^ 32) (le16_to_host big u16.0)

unfoldable pub le64_to_host : Bool → ℕ → ℕ
unfolding le32_to_host
le64_to_host big v =
    let u32 = halves big 32 v in
    bit_or (le32_to_host big u32.1 * 2 ^ 32 % 2 ^ 64) (le32_to_host big u32.0)

unfoldable pub host_to_le16 : Bool → ℕ → ℕ
host_to_le16 big v = whole big 8 (v % 2 ^ 8) (v / 2 ^ 8 % 2 ^ 8)

unfoldable pub host_to_le32 : Bool → ℕ → ℕ
unfolding host_to_le16
host_to_le32 big v =
    whole big 16 (host_to_le16 big (v % 2 ^ 16)) (host_to_le16 big (v / 2 ^ 16 % 2 ^ 16))

unfoldable pub host_to_le64 : Bool → ℕ → ℕ
unfolding host_to_le32
host_to_le64 big v =
    whole big 32 (host_to_le32 big (v % 2 ^ 32)) (host_to_le32 big (v / 2 ^ 32 % 2 ^ 32))

-- memcpy from a number to bytes.
unfoldable pub bytes16 : Bool → ℕ → List ℕ
bytes16 big v = let u8 = halves big 8 v in u8.0 ∷ u8.1 ∷ []

unfoldable pub bytes32 : Bool → ℕ → List ℕ
bytes32 big v = let u16 = halves big 16 v in bytes16 big u16.0 ++ bytes16 big u16.1

unfoldable pub bytes64 : Bool → ℕ → List ℕ
bytes64 big v = let u32 = halves big 32 v in bytes32 big u32.0 ++ bytes32 big u32.1

pub le16_encode : Bool → ℕ → List ℕ
le16_encode big v = bytes16 big (host_to_le16 big v)

pub le32_encode : Bool → ℕ → List ℕ
le32_encode big v = bytes32 big (host_to_le32 big v)

pub le64_encode : Bool → ℕ → List ℕ
le64_encode big v = bytes64 big (host_to_le64 big v)

-- memcpy from bytes to a number.
abbrev pub load16 : Bool → ℕ → ℕ → ℕ
load16 big a b = whole big 8 a b

abbrev pub load32 : Bool → ℕ → ℕ → ℕ → ℕ → ℕ
load32 big a b c d = whole big 16 (load16 big a b) (load16 big c d)

pub le16_decode : Bool → List ℕ → Result ℕ
le16_decode big (a ∷ b ∷ rest) = ok (le16_to_host big (load16 big a b))
le16_decode big _ = fault

pub le32_decode : Bool → List ℕ → Result ℕ
le32_decode big (a ∷ b ∷ c ∷ d ∷ rest) = ok (le32_to_host big (load32 big a b c d))
le32_decode big _ = fault

pub le64_decode : Bool → List ℕ → Result ℕ
le64_decode big (a ∷ b ∷ c ∷ d ∷ e ∷ f ∷ g ∷ h ∷ rest) =
    ok (le64_to_host big (whole big 32 (load32 big a b c d) (load32 big e f g h)))
le64_decode big _ = fault
