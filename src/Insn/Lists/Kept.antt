-- ===== src/Insn/Lists/Kept.antt =====
-- The instructions other than those for control, and the validation of an expression with them.
use wasm_doctor.Prelude.{
  ℕ, ◌*◌, ◌<◌, ◌≤◌, ◌≡◌, refl, Bool, true, false, ◌&&◌, List, [], ◌∷◌, ◌++◌, length, arith,
}
use wasm_doctor.Types.{Resulttype, i32, i64, f32, f64, is_valtype}
use wasm_doctor.Types.Lookup.{nimportedtables}
use wasm_doctor.Leb128.{IsBytes, read_leb_i32, read_leb_i64}
use wasm_doctor.Leb128.Forward.{Behind, Gives-mono, read_leb_i32-Gives, read_leb_i64-Gives}
use wasm_doctor.Decode.{Reader, read_u32, read_u64}
use wasm_doctor.Decode.Progress.{Forward, Reads, Yielding, read_u32-Forward, read_u64-Forward}
use wasm_doctor.Validation.{Context}
use wasm_doctor.Validation.Invariant.{Operands}
use wasm_doctor.Validation.Safe.{Safe}
use wasm_doctor.Insn.{Code}
use wasm_doctor.Insn.Reads.{IsReady}
use wasm_doctor.Insn.Opcodes.{Desc, no_insn, next_table}
use wasm_doctor.Insn.Carried.{Processes}
use wasm_doctor.Insn.Immediates.Forward.{Anything}
use wasm_doctor.Insn.Numeric.{
  Shape, unary, binary, load, store, process_shape, Numeric, shape, numeric_base, numeric_fc,
}
use wasm_doctor.Insn.Operations.{nfuncs}
use wasm_doctor.Insn.Operations.Kept.{
  process_unary-Processes, process_binary-Processes, process_load-Processes,
  process_store-Processes, process_const-Processes, process_select_t-Processes,
  process_local_get-Processes, process_local_set-Processes, process_local_tee-Processes,
  process_global_get-Processes, process_global_set-Processes, process_table_get-Processes,
  process_table_set-Processes, process_memory_size-Processes, process_memory_grow-Processes,
  process_ref_null-Processes,
}
use wasm_doctor.Insn.Operations.Noted.{
  process_drop-Processes, process_select-Processes, process_ref_is_null-Processes,
  process_ref_func-Processes,
}
use wasm_doctor.Insn.Bulk.Kept.{
  process_memory_init-Processes, process_data_drop-Processes, process_memory_copy-Processes,
  process_memory_fill-Processes, process_table_init-Processes, process_elem_drop-Processes,
  process_table_copy-Processes, process_table_grow-Processes, process_table_size-Processes,
  process_table_fill-Processes,
}
use wasm_doctor.Insn.Expr.{read_expr_common}
use wasm_doctor.Insn.Expr.Table.{AllKeep, ListKeeps, lookup-AllKeep}
use wasm_doctor.Insn.Expr.Runs.{IsFresh, read_expr_common-IsFresh}
use wasm_doctor.Insn.Lists.{numerics, bulk_list, instructions_fc, base_list, other_instructions}

-- The result of an instruction is of a value type.
abbrev has_value : Shape → Bool
has_value (unary from to) = is_valtype to
has_value (binary from to) = is_valtype to
has_value (load bits to) = is_valtype to
has_value (store bits from) = true

abbrev all_have : List (ℕ × Numeric) → Bool
all_have [] = true
all_have ((opcode, n) ∷ ns) = has_value (shape n) && all_have ns

ListKeeps-append :
    (code : Code) (xs ys : List (ℕ × Desc))
    → ListKeeps code xs
    → ListKeeps code ys
    → ListKeeps code (xs ++ ys)
ListKeeps-append code [] ys h k = k
ListKeeps-append code ((opcode, desc) ∷ xs) ys (h, hs) k = (h, ListKeeps-append code xs ys hs k)

anything : {A : Type 0} (reader : Reader A) → Forward reader → Yielding Anything reader
anything reader fw src b =
    Gives-mono (λ _ p. Behind src p) (Reads Anything src) (reader src) (fw src b) λ a p l. (tt, l)

module _ (code : Code) (ready : IsReady code) where
  process_shape-Processes : (s : Shape) → has_value s ≡ true → Processes code (process_shape code s)
  unfolding process_shape
  process_shape-Processes (unary from to) v = process_unary-Processes code ready from to v
  process_shape-Processes (binary from to) v = process_binary-Processes code ready from to v
  process_shape-Processes (load bits to) v = process_load-Processes code ready bits to v
  process_shape-Processes (store bits from) v = process_store-Processes code ready bits from

  numerics-ListKeeps :
      (ns : List (ℕ × Numeric)) → all_have ns ≡ true → ListKeeps code (numerics code ns)
  numerics-ListKeeps [] h = tt
  numerics-ListKeeps ((opcode, n) ∷ ns) h = (
    process_shape-Processes (shape n) (ground (arith, h)),
    numerics-ListKeeps ns (ground (arith, h)),
  )

  base_list-ListKeeps : (big : Bool) → ListKeeps code (base_list code big)
  unfolding base_list
  base_list-ListKeeps big = (
    process_drop-Processes code ready,
    (
      process_select-Processes code ready,
      (
        process_select_t-Processes code ready,
        (
          process_local_get-Processes code ready,
          (
            process_local_set-Processes code ready,
            (
              process_local_tee-Processes code ready,
              (
                process_global_get-Processes code ready,
                (
                  process_global_set-Processes code ready,
                  (
                    process_table_get-Processes code ready,
                    (
                      process_table_set-Processes code ready,
                      (
                        process_memory_size-Processes code ready,
                        (
                          process_memory_grow-Processes code ready,
                          (
                            process_const-Processes code ready read_leb_i32 i32
                                (anything read_leb_i32 read_leb_i32-Gives) refl,
                            (
                              process_const-Processes code ready read_leb_i64 i64
                                  (anything read_leb_i64 read_leb_i64-Gives) refl,
                              (
                                process_const-Processes code ready (read_u32 big) f32
                                    (anything (read_u32 big) (read_u32-Forward big)) refl,
                                (
                                  process_const-Processes code ready (read_u64 big) f64
                                      (anything (read_u64 big) (read_u64-Forward big)) refl,
                                  (
                                    process_ref_null-Processes code ready,
                                    (
                                      process_ref_is_null-Processes code ready,
                                      (process_ref_func-Processes code ready, tt),
                                    ),
                                  ),
                                ),
                              ),
                            ),
                          ),
                        ),
                      ),
                    ),
                  ),
                ),
              ),
            ),
          ),
        ),
      ),
    ),
  )

  numeric_base-ListKeeps : ListKeeps code (numerics code numeric_base)
  unfolding shape
  numeric_base-ListKeeps = numerics-ListKeeps numeric_base refl

  numeric_fc-ListKeeps : ListKeeps code (numerics code numeric_fc)
  unfolding shape
  numeric_fc-ListKeeps = numerics-ListKeeps numeric_fc refl

  module _ (own : nimportedtables code.m.imports ≡ 0) where
    bulk_list-ListKeeps : ListKeeps code (bulk_list code)
    unfolding bulk_list
    bulk_list-ListKeeps = (
      process_memory_init-Processes code ready,
      (
        process_data_drop-Processes code ready,
        (
          process_memory_copy-Processes code ready,
          (
            process_memory_fill-Processes code ready,
            (
              process_table_init-Processes code ready own,
              (
                process_elem_drop-Processes code ready,
                (
                  process_table_copy-Processes code ready own,
                  (
                    process_table_grow-Processes code ready,
                    (
                      process_table_size-Processes code ready,
                      (process_table_fill-Processes code ready, tt),
                    ),
                  ),
                ),
              ),
            ),
          ),
        ),
      ),
    )

    instructions_fc-AllKeep : (inst : ℕ) → AllKeep code (instructions_fc code inst)
    unfolding instructions_fc
    instructions_fc-AllKeep inst =
        lookup-AllKeep code (numerics code numeric_fc ++ bulk_list code) no_insn inst
          (ListKeeps-append code (numerics code numeric_fc) (bulk_list code) numeric_fc-ListKeeps
            bulk_list-ListKeeps)
          tt

    pub other_instructions-AllKeep :
        (big : Bool) (instructions_fd : ℕ → Desc)
        → ((inst : ℕ) → AllKeep code (instructions_fd inst))
        → (inst : ℕ) → AllKeep code (other_instructions code big instructions_fd inst)
    unfolding other_instructions
    other_instructions-AllKeep big instructions_fd fd inst =
        let last : List (ℕ × Desc) =
          (0xfc, next_table (instructions_fc code)) ∷ (0xfd, next_table instructions_fd) ∷ [] in
        lookup-AllKeep code (base_list code big ++ (numerics code numeric_base ++ last)) no_insn
          inst
          (ListKeeps-append code (base_list code big) (numerics code numeric_base ++ last)
            (base_list-ListKeeps big)
            (ListKeeps-append code (numerics code numeric_base) last numeric_base-ListKeeps
              (instructions_fc-AllKeep, (fd, tt))))
          tt

-- Where code is validated in a fresh context, against results that are value types, the validation
-- of an expression with all instructions but the vector ones ends, with an error or behind its
-- last instruction, in a context that is fresh again, provided that no table is imported, that the
-- bitmap of references has a bit for each function, and that the vector instructions keep what
-- holds of the context. No assertion fails but that of `valtype_cellsize` on `exnref`. It is
-- assumed that realloc grants no vector of more than 2^28 value types.
pub all_instructions-IsFresh :
    (code : Code) (big : Bool) (instructions_fd : ℕ → Desc) (result_types : Resulttype)
    (src : List ℕ) (ctx : Context)
    → IsReady code
    → nimportedtables code.m.imports ≡ 0
    → ((inst : ℕ) → AllKeep code (instructions_fd inst))
    → Operands false result_types
    → IsBytes src
    → length src < code.end_offset
    → IsFresh ctx
    → nfuncs code ≤ 32 * length ctx.refs
    → Safe
        (λ p c. IsFresh c × Behind src p)
        (read_expr_common code (other_instructions code big instructions_fd) result_types src ctx)
all_instructions-IsFresh code big instructions_fd result_types src ctx r own fd =
    read_expr_common-IsFresh code (other_instructions code big instructions_fd) result_types src ctx
      r (other_instructions-AllKeep code r own big instructions_fd fd)
