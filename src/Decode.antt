-- ===== src/Decode.antt =====
-- lib/decode.c: the readers of bytes and of vectors. As for lib/leb128.c, a pointer with its end `ep`
-- is the list of the bytes between them; `ep` is not NULL here.
pub mod Progress
mod Tests
use wasm_doctor.Prelude.{
  ℕ, zero, suc, ◌+◌, ◌%◌, ◌^◌, Bool, true, false, List, [], ◌∷◌, length, ltb, Result, ok, err,
  fault, einval, ◌>>=◌, ◌>>◌, assert,
}
use wasm_doctor.Leb128.{read_leb_u32}
use wasm_doctor.Endian.{le32_decode, le64_decode}
use wasm_doctor.Memory.{Realloc, resize_array}

abbrev pub Reader : Type 0 → Type 0
Reader A = List ℕ → Result (A × List ℕ)

pub read_u8 : Reader ℕ
read_u8 [] = err einval
read_u8 (b ∷ rest) = ok (b, rest)

-- `memcpy` and the conversion from little-endian; the host may be of either order.
pub read_u32 : Bool → Reader ℕ
read_u32 big (a ∷ b ∷ c ∷ d ∷ rest) = do v ← le32_decode big (a ∷ b ∷ c ∷ d ∷ []); ok (v, rest)
read_u32 big _ = err einval

pub read_u64 : Bool → Reader ℕ
read_u64 big (a ∷ b ∷ c ∷ d ∷ e ∷ f ∷ g ∷ h ∷ rest) = do
  v ← le64_decode big (a ∷ b ∷ c ∷ d ∷ e ∷ f ∷ g ∷ h ∷ [])
  ok (v, rest)
read_u64 big _ = err einval

pub read_vec_count : Reader ℕ
read_vec_count = read_leb_u32

-- The loop over the elements: `idx` of them are read, `at` is where in the array of `total` elements
-- the next one goes. A write behind the array is a fault.
pub read_elems : {A : Type 0} → (ℕ → Reader A) → (total at idx count : ℕ) → Reader (List A)
read_elems read_elem total at idx zero src = ok ([], src)
read_elems read_elem total at idx (suc n) src = do
  assert (ltb at total)
  (a, rest) ← read_elem idx src
  (tail, end_) ← read_elems read_elem total (suc at) (suc idx) n rest
  ok (a ∷ tail, end_)

-- _read_vec_with_ctx_impl, for an array that has `orig_count` elements already. What it returns are
-- the elements that it has read; those in front of them stay.
pub read_vec_with_ctx : {A : Type 0} → Realloc → ℕ → (ℕ → Reader A) → ℕ → Reader (List A)
unfolding read_vec_count read_elems
read_vec_with_ctx realloc elem_size read_elem orig_count src = do
  (vec_count, rest) ← read_vec_count src
  let total_count = (orig_count + vec_count) % 2 ^ 32
  resize_array realloc elem_size total_count
  read_elems read_elem total_count orig_count 0 vec_count rest

-- read_vec, into an array that is empty yet.
pub read_vec : {A : Type 0} → Realloc → ℕ → Reader A → Reader (List A)
unfolding read_vec_with_ctx
read_vec realloc elem_size read_elem = read_vec_with_ctx realloc elem_size (λ _. read_elem) 0

pub read_vec_u32 : Realloc → Reader (List ℕ)
unfolding read_vec
read_vec_u32 realloc = read_vec realloc 4 read_leb_u32
