-- ===== src/Endian/Tests.antt =====
-- Runs of the encoders and decoders.
use wasm_doctor.Leb128.{IsBytes}
use wasm_doctor.Prelude.{length, ◌≡◌, refl, true, false, [], ◌∷◌, ◌++◌, ok, arith}
use wasm_doctor.Endian.{
  le32_encode, le64_encode, le64_decode, host_to_le16, host_to_le32, bytes16, bytes32,
}
use wasm_doctor.Endian.Decode.{little}
use wasm_doctor.Endian.Encode.{le64_decode-le64_encode}

on_big_endian : le32_encode true 0x01020304 ≡ 4 ∷ 3 ∷ 2 ∷ 1 ∷ []
unfolding le32_encode bytes32 bytes16 host_to_le32 host_to_le16
on_big_endian = refl

on_little_endian : le32_encode false 0x01020304 ≡ 4 ∷ 3 ∷ 2 ∷ 1 ∷ []
unfolding le32_encode bytes32 bytes16 host_to_le32 host_to_le16
on_little_endian = refl

le64_decode-le64_encode_example :
    (length (le64_encode false 70000) ≡ 8)
    × IsBytes (le64_encode false 70000)
    × (little (le64_encode false 70000) ≡ 70000)
    × (le64_decode false (le64_encode false 70000 ++ []) ≡ ok 70000)
le64_decode-le64_encode_example = le64_decode-le64_encode false 70000 [] (omega arith)
