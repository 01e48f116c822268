-- ===== src/Insn/Bulk.antt =====
-- lib/insn_impl_fc.h, as it validates: the instructions on ranges of memories and tables.
pub mod Kept
pub mod Imported
use wasm_doctor.Prelude.{ℕ, ◌+◌, ◌%◌, ◌^◌, List, [], ◌∷◌, length, ltb, einval, guard}
use wasm_doctor.Types.{Valtype, i32, is}
use wasm_doctor.Types.Lookup.{elem_of}
use wasm_doctor.Leb128.{read_leb_u32}
use wasm_doctor.Validation.{Validator, ◌>>=◌, ◌>>◌, lift, pure}
use wasm_doctor.Insn.{Code, lift_result}
use wasm_doctor.Insn.Immediates.{read_memidx, read_two}
use wasm_doctor.Insn.Operations.{ntables, reads, pop, push, check_memory, table_type}

module _ (code : Code) where
  -- The operands of a range: its length, and two indexes.
  pub pop_range : Validator (Unit {0})
  pop_range = pop code i32 >> pop code i32 >> pop code i32

  -- There is a datacount section, and the segment is below its number.
  abbrev pub check_data : ℕ → Validator (Unit {0})
  check_data dataidx =
      lift (guard code.has_datacount einval)
      >> lift (guard (ltb dataidx code.ndatas_in_datacount) einval)

  pub process_memory_init : List ℕ → Validator (List ℕ)
  unfolding pop_range
  process_memory_init =
      reads code (read_two read_leb_u32 read_memidx)
        λ (dataidx, memidx). check_memory code memidx >> pop_range >> check_data dataidx

  pub process_data_drop : List ℕ → Validator (List ℕ)
  process_data_drop = reads code read_leb_u32 check_data

  pub process_memory_copy : List ℕ → Validator (List ℕ)
  unfolding pop_range
  process_memory_copy =
      reads code (read_two read_memidx read_memidx)
        λ (dst, src). check_memory code dst >> check_memory code src >> pop_range

  pub process_memory_fill : List ℕ → Validator (List ℕ)
  unfolding pop_range
  process_memory_fill = reads code read_memidx λ memidx. check_memory code memidx >> pop_range

  abbrev check_elem : ℕ → Validator (Unit {0})
  check_elem elemidx = lift (guard (ltb elemidx (length code.m.elem_types)) einval)

  abbrev check_table : ℕ → Validator (Unit {0})
  check_table tableidx = lift (guard (ltb tableidx (ntables code)) einval)

  -- `m->tables[tableidx].et`: the array has the tables that the module defines, and not the imported
  -- ones.
  pub defined_type : ℕ → Validator Valtype
  defined_type tableidx = do tab ← lift_result (elem_of code.m.tables tableidx); pure tab.et

  pub process_table_init : List ℕ → Validator (List ℕ)
  unfolding pop_range defined_type
  process_table_init = reads code (read_two read_leb_u32 read_leb_u32) λ (elemidx, tableidx). do
    check_elem elemidx
    check_table tableidx
    et ← defined_type tableidx
    type ← lift_result (elem_of code.m.elem_types elemidx)
    lift (guard (is et type) einval)
    pop_range

  pub process_elem_drop : List ℕ → Validator (List ℕ)
  process_elem_drop = reads code read_leb_u32 check_elem

  pub process_table_copy : List ℕ → Validator (List ℕ)
  unfolding pop_range defined_type
  process_table_copy = reads code (read_two read_leb_u32 read_leb_u32) λ (dst, src). do
    check_table dst
    check_table src
    et_dst ← defined_type dst
    et_src ← defined_type src
    lift (guard (is et_dst et_src) einval)
    pop_range

  pub process_table_grow : List ℕ → Validator (List ℕ)
  process_table_grow = reads code read_leb_u32 λ tableidx. do
    check_table tableidx
    pop code i32
    et ← table_type code tableidx
    pop code et
    push code i32

  pub process_table_size : List ℕ → Validator (List ℕ)
  process_table_size = reads code read_leb_u32 λ tableidx. check_table tableidx >> push code i32

  pub process_table_fill : List ℕ → Validator (List ℕ)
  process_table_fill = reads code read_leb_u32 λ tableidx. do
    check_table tableidx
    pop code i32
    et ← table_type code tableidx
    pop code et
    pop code i32
