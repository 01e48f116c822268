-- ===== src/Insn/Lists.antt =====
-- lib/insn_list_base.h and lib/insn_list_fc.h: the instructions other than those for control by their
-- opcodes. The table of the vector instructions, behind 0xfd, is an argument. The proposal that makes
-- additions constant is off.
pub mod Kept
mod Tests
use wasm_doctor.Prelude.{ℕ, Bool, true, false, List, [], ◌∷◌, ◌++◌}
use wasm_doctor.Types.{i32, i64, f32, f64}
use wasm_doctor.Leb128.{read_leb_i32, read_leb_i64}
use wasm_doctor.Decode.{read_u32, read_u64}
use wasm_doctor.Validation.{Validator}
use wasm_doctor.Insn.{Code}
use wasm_doctor.Insn.Opcodes.{Desc, no_insn, insn, next_table}
use wasm_doctor.Insn.Expr.{control, lookup}
use wasm_doctor.Insn.Numeric.{Numeric, shape, process_shape, numeric_base, numeric_fc}
use wasm_doctor.Insn.Operations.{
  process_const, process_drop, process_select, process_select_t, process_local_get,
  process_local_set, process_local_tee, process_global_get, process_global_set, process_table_get,
  process_table_set, process_memory_size, process_memory_grow, process_ref_null,
  process_ref_is_null, process_ref_func,
}
use wasm_doctor.Insn.Bulk.{
  process_memory_init, process_data_drop, process_memory_copy, process_memory_fill,
  process_table_init, process_elem_drop, process_table_copy, process_table_grow, process_table_size,
  process_table_fill,
}

-- An instruction that a constant expression may have.
abbrev pub constant : ℕ → (List ℕ → Validator (List ℕ)) → ℕ × Desc
constant opcode process = (opcode, insn (record { process = process; is_const = true }))

abbrev pub numerics : Code → List (ℕ × Numeric) → List (ℕ × Desc)
numerics code [] = []
numerics code ((opcode, n) ∷ ns) = control opcode (process_shape code (shape n)) ∷ numerics code ns

pub bulk_list : Code → List (ℕ × Desc)
bulk_list code =
    control 0x08 (process_memory_init code)
    ∷ control 0x09 (process_data_drop code)
    ∷ control 0x0a (process_memory_copy code)
    ∷ control 0x0b (process_memory_fill code)
    ∷ control 0x0c (process_table_init code)
    ∷ control 0x0d (process_elem_drop code)
    ∷ control 0x0e (process_table_copy code)
    ∷ control 0x0f (process_table_grow code)
    ∷ control 0x10 (process_table_size code)
    ∷ control 0x11 (process_table_fill code)
    ∷ []

-- instructions_fc
pub instructions_fc : Code → ℕ → Desc
unfolding bulk_list
instructions_fc code = lookup (numerics code numeric_fc ++ bulk_list code) no_insn

-- The instructions on operands and variables, with the byte order of the host.
pub base_list : Code → Bool → List (ℕ × Desc)
base_list code big =
    control 0x1a (process_drop code)
    ∷ control 0x1b (process_select code)
    ∷ control 0x1c (process_select_t code)
    ∷ control 0x20 (process_local_get code)
    ∷ control 0x21 (process_local_set code)
    ∷ control 0x22 (process_local_tee code)
    ∷ constant 0x23 (process_global_get code)
    ∷ control 0x24 (process_global_set code)
    ∷ control 0x25 (process_table_get code)
    ∷ control 0x26 (process_table_set code)
    ∷ control 0x3f (process_memory_size code)
    ∷ control 0x40 (process_memory_grow code)
    ∷ constant 0x41 (process_const code read_leb_i32 i32)
    ∷ constant 0x42 (process_const code read_leb_i64 i64)
    ∷ constant 0x43 (process_const code (read_u32 big) f32)
    ∷ constant 0x44 (process_const code (read_u64 big) f64)
    ∷ constant 0xd0 (process_ref_null code)
    ∷ control 0xd1 (process_ref_is_null code)
    ∷ constant 0xd2 (process_ref_func code)
    ∷ []

-- What the table of one-byte opcodes has but the instructions for control.
pub other_instructions : Code → Bool → (ℕ → Desc) → ℕ → Desc
unfolding base_list instructions_fc
other_instructions code big instructions_fd =
    lookup
      (base_list code big
        ++ (numerics code numeric_base
            ++ ((0xfc, next_table (instructions_fc code))
                ∷ (0xfd, next_table instructions_fd)
                ∷ [])))
      no_insn
