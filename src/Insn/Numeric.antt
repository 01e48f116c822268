-- ===== src/Insn/Numeric.antt =====
-- The instructions on numbers, and the accesses to memory: which of the macros of lib/insn_op.h each one
-- is, by lib/insn_impl_base.h and lib/insn_impl_fc.h, and its opcode, by lib/insn_list_base.h and
-- lib/insn_list_fc.h.
use wasm_doctor.Prelude.{ℕ, List, [], ◌∷◌}
use wasm_doctor.Types.{Valtype, i32, i64, f32, f64}
use wasm_doctor.Validation.{Validator}
use wasm_doctor.Insn.{Code}
use wasm_doctor.Insn.Operations.{process_unary, process_binary, process_load, process_store}

-- One operand and one result, two operands and one result, and the accesses of a number of bits.
pub data Shape : Type 0 where
  unary binary : Valtype → Valtype → Shape
  load store : ℕ → Valtype → Shape

unfoldable pub process_shape : Code → Shape → List ℕ → Validator (List ℕ)
process_shape code (unary from to) = process_unary code from to
process_shape code (binary from to) = process_binary code from to
process_shape code (load bits to) = process_load code bits to
process_shape code (store bits from) = process_store code bits from

pub data Numeric : Type 0 where
  i32_store i64_store f32_store f64_store i32_store8 i32_store16 i64_store8 i64_store16 i64_store32
        i32_load i64_load f32_load f64_load i32_load8_s i32_load8_u i32_load16_s i32_load16_u
        i64_load8_s i64_load8_u i64_load16_s i64_load16_u i64_load32_s i64_load32_u i32_eqz i32_eq
        i32_ne i32_lt_s i32_lt_u i32_gt_s i32_gt_u i32_le_s i32_le_u i32_ge_s i32_ge_u f32_eq f32_ne
        f32_lt f32_gt f32_le f32_ge f64_eq f64_ne f64_lt f64_gt f64_le f64_ge i64_eqz i64_eq i64_ne
        i64_lt_s i64_lt_u i64_gt_s i64_gt_u i64_le_s i64_le_u i64_ge_s i64_ge_u i32_clz i32_ctz
        i32_popcnt i32_add i32_sub i32_mul i32_div_u i32_div_s i32_rem_u i32_rem_s i32_and i32_or
        i32_xor i32_shl i32_shr_s i32_shr_u i32_rotl i32_rotr i64_clz i64_ctz i64_popcnt i64_add
        i64_sub i64_mul i64_div_u i64_div_s i64_rem_u i64_rem_s i64_and i64_or i64_xor i64_shl
        i64_shr_s i64_shr_u i64_rotl i64_rotr f32_abs f32_neg f32_ceil f32_floor f32_trunc
        f32_nearest f32_sqrt f32_add f32_sub f32_mul f32_div f32_max f32_min f32_copysign f64_abs
        f64_neg f64_ceil f64_floor f64_trunc f64_nearest f64_sqrt f64_add f64_sub f64_mul f64_div
        f64_max f64_min f64_copysign i32_wrap_i64 i32_trunc_f32_s i32_trunc_f32_u i32_trunc_f64_s
        i32_trunc_f64_u i64_extend_i32_s i64_extend_i32_u i64_trunc_f32_s i64_trunc_f32_u
        i64_trunc_f64_s i64_trunc_f64_u f32_convert_i32_s f32_convert_i32_u f32_convert_i64_u
        f32_convert_i64_s f32_demote_f64 f64_convert_i32_s f64_convert_i32_u f64_convert_i64_u
        f64_convert_i64_s f64_promote_f32 i32_reinterpret_f32 i64_reinterpret_f64
        f32_reinterpret_i32 f64_reinterpret_i64 i32_extend8_s i32_extend16_s i64_extend8_s
        i64_extend16_s i64_extend32_s i32_trunc_sat_f32_s i32_trunc_sat_f32_u i32_trunc_sat_f64_s
        i32_trunc_sat_f64_u i64_trunc_sat_f32_s i64_trunc_sat_f32_u i64_trunc_sat_f64_s
        i64_trunc_sat_f64_u :
      Numeric

unfoldable pub shape : Numeric → Shape
shape i32_store = store 32 i32
shape i64_store = store 64 i64
shape f32_store = store 32 f32
shape f64_store = store 64 f64
shape i32_store8 = store 8 i32
shape i32_store16 = store 16 i32
shape i64_store8 = store 8 i64
shape i64_store16 = store 16 i64
shape i64_store32 = store 32 i64
shape i32_load = load 32 i32
shape i64_load = load 64 i64
shape f32_load = load 32 f32
shape f64_load = load 64 f64
shape i32_load8_s = load 8 i32
shape i32_load8_u = load 8 i32
shape i32_load16_s = load 16 i32
shape i32_load16_u = load 16 i32
shape i64_load8_s = load 8 i64
shape i64_load8_u = load 8 i64
shape i64_load16_s = load 16 i64
shape i64_load16_u = load 16 i64
shape i64_load32_s = load 32 i64
shape i64_load32_u = load 32 i64
shape i32_eqz = unary i32 i32
shape i32_eq = binary i32 i32
shape i32_ne = binary i32 i32
shape i32_lt_s = binary i32 i32
shape i32_lt_u = binary i32 i32
shape i32_gt_s = binary i32 i32
shape i32_gt_u = binary i32 i32
shape i32_le_s = binary i32 i32
shape i32_le_u = binary i32 i32
shape i32_ge_s = binary i32 i32
shape i32_ge_u = binary i32 i32
shape f32_eq = binary f32 i32
shape f32_ne = binary f32 i32
shape f32_lt = binary f32 i32
shape f32_gt = binary f32 i32
shape f32_le = binary f32 i32
shape f32_ge = binary f32 i32
shape f64_eq = binary f64 i32
shape f64_ne = binary f64 i32
shape f64_lt = binary f64 i32
shape f64_gt = binary f64 i32
shape f64_le = binary f64 i32
shape f64_ge = binary f64 i32
shape i64_eqz = unary i64 i32
shape i64_eq = binary i64 i32
shape i64_ne = binary i64 i32
shape i64_lt_s = binary i64 i32
shape i64_lt_u = binary i64 i32
shape i64_gt_s = binary i64 i32
shape i64_gt_u = binary i64 i32
shape i64_le_s = binary i64 i32
shape i64_le_u = binary i64 i32
shape i64_ge_s = binary i64 i32
shape i64_ge_u = binary i64 i32
shape i32_clz = unary i32 i32
shape i32_ctz = unary i32 i32
shape i32_popcnt = unary i32 i32
shape i32_add = binary i32 i32
shape i32_sub = binary i32 i32
shape i32_mul = binary i32 i32
shape i32_div_u = binary i32 i32
shape i32_div_s = binary i32 i32
shape i32_rem_u = binary i32 i32
shape i32_rem_s = binary i32 i32
shape i32_and = binary i32 i32
shape i32_or = binary i32 i32
shape i32_xor = binary i32 i32
shape i32_shl = binary i32 i32
shape i32_shr_s = binary i32 i32
shape i32_shr_u = binary i32 i32
shape i32_rotl = binary i32 i32
shape i32_rotr = binary i32 i32
shape i64_clz = unary i64 i64
shape i64_ctz = unary i64 i64
shape i64_popcnt = unary i64 i64
shape i64_add = binary i64 i64
shape i64_sub = binary i64 i64
shape i64_mul = binary i64 i64
shape i64_div_u = binary i64 i64
shape i64_div_s = binary i64 i64
shape i64_rem_u = binary i64 i64
shape i64_rem_s = binary i64 i64
shape i64_and = binary i64 i64
shape i64_or = binary i64 i64
shape i64_xor = binary i64 i64
shape i64_shl = binary i64 i64
shape i64_shr_s = binary i64 i64
shape i64_shr_u = binary i64 i64
shape i64_rotl = binary i64 i64
shape i64_rotr = binary i64 i64
shape f32_abs = unary f32 f32
shape f32_neg = unary f32 f32
shape f32_ceil = unary f32 f32
shape f32_floor = unary f32 f32
shape f32_trunc = unary f32 f32
shape f32_nearest = unary f32 f32
shape f32_sqrt = unary f32 f32
shape f32_add = binary f32 f32
shape f32_sub = binary f32 f32
shape f32_mul = binary f32 f32
shape f32_div = binary f32 f32
shape f32_max = binary f32 f32
shape f32_min = binary f32 f32
shape f32_copysign = binary f32 f32
shape f64_abs = unary f64 f64
shape f64_neg = unary f64 f64
shape f64_ceil = unary f64 f64
shape f64_floor = unary f64 f64
shape f64_trunc = unary f64 f64
shape f64_nearest = unary f64 f64
shape f64_sqrt = unary f64 f64
shape f64_add = binary f64 f64
shape f64_sub = binary f64 f64
shape f64_mul = binary f64 f64
shape f64_div = binary f64 f64
shape f64_max = binary f64 f64
shape f64_min = binary f64 f64
shape f64_copysign = binary f64 f64
shape i32_wrap_i64 = unary i64 i32
shape i32_trunc_f32_s = unary f32 i32
shape i32_trunc_f32_u = unary f32 i32
shape i32_trunc_f64_s = unary f64 i32
shape i32_trunc_f64_u = unary f64 i32
shape i64_extend_i32_s = unary i32 i64
shape i64_extend_i32_u = unary i32 i64
shape i64_trunc_f32_s = unary f32 i64
shape i64_trunc_f32_u = unary f32 i64
shape i64_trunc_f64_s = unary f64 i64
shape i64_trunc_f64_u = unary f64 i64
shape f32_convert_i32_s = unary i32 f32
shape f32_convert_i32_u = unary i32 f32
shape f32_convert_i64_u = unary i64 f32
shape f32_convert_i64_s = unary i64 f32
shape f32_demote_f64 = unary f64 f32
shape f64_convert_i32_s = unary i32 f64
shape f64_convert_i32_u = unary i32 f64
shape f64_convert_i64_u = unary i64 f64
shape f64_convert_i64_s = unary i64 f64
shape f64_promote_f32 = unary f32 f64
shape i32_reinterpret_f32 = unary f32 i32
shape i64_reinterpret_f64 = unary f64 i64
shape f32_reinterpret_i32 = unary i32 f32
shape f64_reinterpret_i64 = unary i64 f64
shape i32_extend8_s = unary i32 i32
shape i32_extend16_s = unary i32 i32
shape i64_extend8_s = unary i64 i64
shape i64_extend16_s = unary i64 i64
shape i64_extend32_s = unary i64 i64
shape i32_trunc_sat_f32_s = unary f32 i32
shape i32_trunc_sat_f32_u = unary f32 i32
shape i32_trunc_sat_f64_s = unary f64 i32
shape i32_trunc_sat_f64_u = unary f64 i32
shape i64_trunc_sat_f32_s = unary f32 i64
shape i64_trunc_sat_f32_u = unary f32 i64
shape i64_trunc_sat_f64_s = unary f64 i64
shape i64_trunc_sat_f64_u = unary f64 i64

-- The opcodes of one byte.
abbrev pub numeric_base : List (ℕ × Numeric)
numeric_base =
    (0x28, i32_load)
    ∷ (0x29, i64_load)
    ∷ (0x2a, f32_load)
    ∷ (0x2b, f64_load)
    ∷ (0x2c, i32_load8_s)
    ∷ (0x2d, i32_load8_u)
    ∷ (0x2e, i32_load16_s)
    ∷ (0x2f, i32_load16_u)
    ∷ (0x30, i64_load8_s)
    ∷ (0x31, i64_load8_u)
    ∷ (0x32, i64_load16_s)
    ∷ (0x33, i64_load16_u)
    ∷ (0x34, i64_load32_s)
    ∷ (0x35, i64_load32_u)
    ∷ (0x36, i32_store)
    ∷ (0x37, i64_store)
    ∷ (0x38, f32_store)
    ∷ (0x39, f64_store)
    ∷ (0x3a, i32_store8)
    ∷ (0x3b, i32_store16)
    ∷ (0x3c, i64_store8)
    ∷ (0x3d, i64_store16)
    ∷ (0x3e, i64_store32)
    ∷ (0x45, i32_eqz)
    ∷ (0x46, i32_eq)
    ∷ (0x47, i32_ne)
    ∷ (0x48, i32_lt_s)
    ∷ (0x49, i32_lt_u)
    ∷ (0x4a, i32_gt_s)
    ∷ (0x4b, i32_gt_u)
    ∷ (0x4c, i32_le_s)
    ∷ (0x4d, i32_le_u)
    ∷ (0x4e, i32_ge_s)
    ∷ (0x4f, i32_ge_u)
    ∷ (0x50, i64_eqz)
    ∷ (0x51, i64_eq)
    ∷ (0x52, i64_ne)
    ∷ (0x53, i64_lt_s)
    ∷ (0x54, i64_lt_u)
    ∷ (0x55, i64_gt_s)
    ∷ (0x56, i64_gt_u)
    ∷ (0x57, i64_le_s)
    ∷ (0x58, i64_le_u)
    ∷ (0x59, i64_ge_s)
    ∷ (0x5a, i64_ge_u)
    ∷ (0x5b, f32_eq)
    ∷ (0x5c, f32_ne)
    ∷ (0x5d, f32_lt)
    ∷ (0x5e, f32_gt)
    ∷ (0x5f, f32_le)
    ∷ (0x60, f32_ge)
    ∷ (0x61, f64_eq)
    ∷ (0x62, f64_ne)
    ∷ (0x63, f64_lt)
    ∷ (0x64, f64_gt)
    ∷ (0x65, f64_le)
    ∷ (0x66, f64_ge)
    ∷ (0x67, i32_clz)
    ∷ (0x68, i32_ctz)
    ∷ (0x69, i32_popcnt)
    ∷ (0x6a, i32_add)
    ∷ (0x6b, i32_sub)
    ∷ (0x6c, i32_mul)
    ∷ (0x6d, i32_div_s)
    ∷ (0x6e, i32_div_u)
    ∷ (0x6f, i32_rem_s)
    ∷ (0x70, i32_rem_u)
    ∷ (0x71, i32_and)
    ∷ (0x72, i32_or)
    ∷ (0x73, i32_xor)
    ∷ (0x74, i32_shl)
    ∷ (0x75, i32_shr_s)
    ∷ (0x76, i32_shr_u)
    ∷ (0x77, i32_rotl)
    ∷ (0x78, i32_rotr)
    ∷ (0x79, i64_clz)
    ∷ (0x7a, i64_ctz)
    ∷ (0x7b, i64_popcnt)
    ∷ (0x7c, i64_add)
    ∷ (0x7d, i64_sub)
    ∷ (0x7e, i64_mul)
    ∷ (0x7f, i64_div_s)
    ∷ (0x80, i64_div_u)
    ∷ (0x81, i64_rem_s)
    ∷ (0x82, i64_rem_u)
    ∷ (0x83, i64_and)
    ∷ (0x84, i64_or)
    ∷ (0x85, i64_xor)
    ∷ (0x86, i64_shl)
    ∷ (0x87, i64_shr_s)
    ∷ (0x88, i64_shr_u)
    ∷ (0x89, i64_rotl)
    ∷ (0x8a, i64_rotr)
    ∷ (0x8b, f32_abs)
    ∷ (0x8c, f32_neg)
    ∷ (0x8d, f32_ceil)
    ∷ (0x8e, f32_floor)
    ∷ (0x8f, f32_trunc)
    ∷ (0x90, f32_nearest)
    ∷ (0x91, f32_sqrt)
    ∷ (0x92, f32_add)
    ∷ (0x93, f32_sub)
    ∷ (0x94, f32_mul)
    ∷ (0x95, f32_div)
    ∷ (0x96, f32_min)
    ∷ (0x97, f32_max)
    ∷ (0x98, f32_copysign)
    ∷ (0x99, f64_abs)
    ∷ (0x9a, f64_neg)
    ∷ (0x9b, f64_ceil)
    ∷ (0x9c, f64_floor)
    ∷ (0x9d, f64_trunc)
    ∷ (0x9e, f64_nearest)
    ∷ (0x9f, f64_sqrt)
    ∷ (0xa0, f64_add)
    ∷ (0xa1, f64_sub)
    ∷ (0xa2, f64_mul)
    ∷ (0xa3, f64_div)
    ∷ (0xa4, f64_min)
    ∷ (0xa5, f64_max)
    ∷ (0xa6, f64_copysign)
    ∷ (0xa7, i32_wrap_i64)
    ∷ (0xa8, i32_trunc_f32_s)
    ∷ (0xa9, i32_trunc_f32_u)
    ∷ (0xaa, i32_trunc_f64_s)
    ∷ (0xab, i32_trunc_f64_u)
    ∷ (0xac, i64_extend_i32_s)
    ∷ (0xad, i64_extend_i32_u)
    ∷ (0xae, i64_trunc_f32_s)
    ∷ (0xaf, i64_trunc_f32_u)
    ∷ (0xb0, i64_trunc_f64_s)
    ∷ (0xb1, i64_trunc_f64_u)
    ∷ (0xb2, f32_convert_i32_s)
    ∷ (0xb3, f32_convert_i32_u)
    ∷ (0xb4, f32_convert_i64_s)
    ∷ (0xb5, f32_convert_i64_u)
    ∷ (0xb6, f32_demote_f64)
    ∷ (0xb7, f64_convert_i32_s)
    ∷ (0xb8, f64_convert_i32_u)
    ∷ (0xb9, f64_convert_i64_s)
    ∷ (0xba, f64_convert_i64_u)
    ∷ (0xbb, f64_promote_f32)
    ∷ (0xbc, i32_reinterpret_f32)
    ∷ (0xbd, i64_reinterpret_f64)
    ∷ (0xbe, f32_reinterpret_i32)
    ∷ (0xbf, f64_reinterpret_i64)
    ∷ (0xc0, i32_extend8_s)
    ∷ (0xc1, i32_extend16_s)
    ∷ (0xc2, i64_extend8_s)
    ∷ (0xc3, i64_extend16_s)
    ∷ (0xc4, i64_extend32_s)
    ∷ []

-- Those behind 0xfc.
abbrev pub numeric_fc : List (ℕ × Numeric)
numeric_fc =
    (0x00, i32_trunc_sat_f32_s)
    ∷ (0x01, i32_trunc_sat_f32_u)
    ∷ (0x02, i32_trunc_sat_f64_s)
    ∷ (0x03, i32_trunc_sat_f64_u)
    ∷ (0x04, i64_trunc_sat_f32_s)
    ∷ (0x05, i64_trunc_sat_f32_u)
    ∷ (0x06, i64_trunc_sat_f64_s)
    ∷ (0x07, i64_trunc_sat_f64_u)
    ∷ []
