-- ===== src/Decode/Tests.antt =====
-- Vectors of numbers, and one that promises more than there is.
use wasm_doctor.Prelude.{ℕ, ◌≡◌, true, ok, List, [], ◌∷◌, arith}
use wasm_doctor.Leb128.{read_leb_u32}
use wasm_doctor.Leb128.Forward.{Gives, read_leb_u32-Gives, read_leb_u32-byte}
use wasm_doctor.Decode.{read_vec, read_vec_count}
use wasm_doctor.Decode.Progress.{IsWord, Vector, read_vec-Vector, IsRefused, read_vec-IsRefused}

abbrev two_numbers : List ℕ
two_numbers = 2 ∷ 0xe5 ∷ 0x8e ∷ 0x26 ∷ 7 ∷ []

read_vec-Vector_example :
    Gives (Vector IsWord two_numbers) (read_vec (λ _. true) 4 read_leb_u32 two_numbers)
read_vec-Vector_example =
    read_vec-Vector IsWord (λ _. true) 4 read_leb_u32 two_numbers (omega arith) read_leb_u32-Gives
      (omega arith, (omega arith, (omega arith, (omega arith, (omega arith, tt)))))

-- Five numbers are promised, and three bytes follow.
abbrev short_vector : List ℕ
short_vector = 5 ∷ 1 ∷ 2 ∷ 3 ∷ []

short_count : read_vec_count short_vector ≡ ok (5, 1 ∷ 2 ∷ 3 ∷ [])
unfolding read_vec_count
short_count = read_leb_u32-byte 5 (1 ∷ 2 ∷ 3 ∷ []) (omega arith)

read_vec-IsRefused_example : IsRefused (read_vec (λ _. true) 4 read_leb_u32 short_vector)
read_vec-IsRefused_example =
    read_vec-IsRefused IsWord (λ _. true) 4 read_leb_u32 short_vector 5 (1 ∷ 2 ∷ 3 ∷ [])
      (omega arith) read_leb_u32-Gives
      (omega arith, (omega arith, (omega arith, (omega arith, tt)))) short_count (omega arith)
