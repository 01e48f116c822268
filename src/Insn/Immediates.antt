-- ===== src/Insn/Immediates.antt =====
-- What follows an opcode: read_memarg of lib/insn.c with the checks of READ_MEMARG, and the bytes of
-- the macros of lib/insn_macros.h. There is one memory, so its index is a zero byte.
pub mod Forward
pub mod Bitmaps
use wasm_doctor.Prelude.{
  ℕ, ◌-◌, ◌*◌, ◌/◌, ◌%◌, ◌^◌, List, [], ◌∷◌, get_elem?, set, bit_or, bit_and, Bool, not, none, some,
  leb, ◌==◌, Result, ok, err, fault, einval, guard, ◌>>=◌, ◌>>◌,
}
use wasm_doctor.Types.{Valtype, is_reftype}
use wasm_doctor.Leb128.{read_leb_u32}
use wasm_doctor.Decode.{Reader, read_u8}
use wasm_doctor.Loader.{read_valtype}

-- struct memarg, for the memory 0
pub record Memarg : Type 0 where
  pub offset : ℕ
  pub align : ℕ

pub read_memarg : Reader Memarg
read_memarg src = do
  (align, p) ← read_leb_u32 src
  (offset, p') ← read_leb_u32 p
  ok (record { offset = offset; align = align }, p')

-- READ_MEMARG, and the check of LOADOP2 and STOREOP2 for an access of that many bits.
pub read_access : ℕ → Reader Memarg
unfolding read_memarg
read_access bits src = do
  (arg, p) ← read_memarg src
  guard (leb arg.align 4) einval
  guard (leb 1 (bits / 8 / 2 ^ arg.align)) einval
  ok (arg, p)

-- READ_ZERO_BYTE
pub read_memidx : Reader ℕ
read_memidx src = do (zero_byte, p) ← read_u8 src; guard (zero_byte == 0) einval; ok (zero_byte, p)

unfoldable pub read_two : {A B : Type 0} → Reader A → Reader B → Reader (A × B)
read_two first second src = do (a, p) ← first src; (b, p') ← second p; ok ((a, b), p')

-- The type of `select` with a type.
pub read_select_type : Reader Valtype
read_select_type src = do
  (vec_count, p) ← read_leb_u32 src
  guard (vec_count == 1) einval
  read_valtype p

-- The type of `ref.null`.
pub read_reftype : Reader Valtype
read_reftype src = do (t, p) ← read_valtype src; guard (is_reftype t) einval; ok (t, p)

-- lib/bitmap.c, on the words of a bitmap.
pub bitmap_set : List ℕ → ℕ → Result (List ℕ)
bitmap_set words idx = elim (get_elem? words (idx / 32)) [
  | none ↦ fault
  | some w ↦ ok (set words (idx / 32) (bit_or w (2 ^ (idx % 32))))
]

pub bitmap_test : List ℕ → ℕ → Result Bool
bitmap_test words idx = elim (get_elem? words (idx / 32)) [
  | none ↦ fault
  | some w ↦ ok (not (bit_and w (2 ^ (idx % 32)) == 0))
]
