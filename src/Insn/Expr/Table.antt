-- ===== src/Insn/Expr/Table.antt =====
-- The instructions of the base table keep what holds during the validation, and opcodes are found in it.
use wasm_doctor.Prelude.{ℕ, ◌^◌, ◌<◌, Bool, true, false, List, [], ◌∷◌, ◌==◌, if◌then◌else◌, arith}
use wasm_doctor.Leb128.{IsBytes, read_leb_u32}
use wasm_doctor.Leb128.Forward.{Behind, Gives, Gives->>=, Gives-mono, read_leb_u32-Gives}
use wasm_doctor.Decode.{read_u8}
use wasm_doctor.Decode.Progress.{read_u8-Forward}
use wasm_doctor.Insn.{
  Code, process_unreachable, process_nop, process_block, process_loop, process_if, process_else,
  process_end, process_br, process_br_if, process_br_table, process_return, process_call,
  process_call_indirect,
}
use wasm_doctor.Insn.Quiet.{
  process_unreachable-Quiet, process_nop-Quiet, process_block-Quiet, process_loop-Quiet,
  process_if-Quiet, process_else-Quiet, process_end-Quiet, process_br-Quiet, process_br_if-Quiet,
  process_br_table-Quiet, process_return-Quiet, process_call-Quiet, process_call_indirect-Quiet,
}
use wasm_doctor.Insn.Carried.{Keeps, goes_on, Quiet-Processes}
use wasm_doctor.Insn.Reads.{IsReady, Rest}
use wasm_doctor.Insn.Blocks.{
  process_block-Continues, process_loop-Continues, process_if-Continues, process_else-Continues,
}
use wasm_doctor.Insn.Ends.{process_end-Ends}
use wasm_doctor.Insn.Branches.{
  process_unreachable-Continues, process_nop-Continues, process_br-Continues,
  process_br_if-Continues, process_br_table-Continues, process_return-Continues,
}
use wasm_doctor.Insn.Calls.{process_call-Continues, process_call_indirect-Continues}
use wasm_doctor.Insn.Opcodes.{Desc, no_insn, insn, next_table, find_insn, read_op}
use wasm_doctor.Insn.Expr.{control_table, lookup, instructions}

abbrev pub AllKeep : Code → Desc → Type 0
AllKeep code no_insn = Unit
AllKeep code (insn i) = Keeps code i
AllKeep code (next_table table) = (inst : ℕ) → AllKeep code (table inst)

abbrev pub ListKeeps : Code → List (ℕ × Desc) → Type 0
ListKeeps code [] = Unit
ListKeeps code ((opcode, desc) ∷ table) = AllKeep code desc × ListKeeps code table

pub lookup-AllKeep :
    (code : Code) (table : List (ℕ × Desc)) (other : Desc) (inst : ℕ)
    → ListKeeps code table
    → AllKeep code other
    → AllKeep code (lookup table other inst)
unfolding lookup
lookup-AllKeep code [] other inst k o = o
lookup-AllKeep code ((opcode, desc) ∷ table) other inst (k, ks) o =
    by_test (opcode == inst) desc (lookup table other inst) k
      (lookup-AllKeep code table other inst ks o)
  where
    by_test :
        (b : Bool) (x y : Desc)
        → AllKeep code x
        → AllKeep code y
        → AllKeep code (if b then x else y)
    by_test true x y h k = h
    by_test false x y h k = k

control_table-ListKeeps : (code : Code) → IsReady code → ListKeeps code (control_table code)
unfolding control_table
control_table-ListKeeps code r = (
  goes_on code (process_unreachable code) (process_unreachable-Continues code r)
      (process_unreachable-Quiet code),
  (
    goes_on code (process_nop code) (process_nop-Continues code r) (process_nop-Quiet code),
    (
      goes_on code (process_block code) (process_block-Continues code r) (process_block-Quiet code),
      (
        goes_on code (process_loop code) (process_loop-Continues code r) (process_loop-Quiet code),
        (
          goes_on code (process_if code) (process_if-Continues code r) (process_if-Quiet code),
          (
            goes_on code (process_else code) (process_else-Continues code r)
                (process_else-Quiet code),
            (
              Quiet-Processes code (process_end code) (process_end-Ends code r)
                  (process_end-Quiet code),
              (
                goes_on code (process_br code) (process_br-Continues code r)
                    (process_br-Quiet code),
                (
                  goes_on code (process_br_if code) (process_br_if-Continues code r)
                      (process_br_if-Quiet code),
                  (
                    goes_on code (process_br_table code) (process_br_table-Continues code r)
                        (process_br_table-Quiet code),
                    (
                      goes_on code (process_return code) (process_return-Continues code r)
                          (process_return-Quiet code),
                      (
                        goes_on code (process_call code) (process_call-Continues code r)
                            (process_call-Quiet code),
                        (
                          goes_on code (process_call_indirect code)
                              (process_call_indirect-Continues code r)
                              (process_call_indirect-Quiet code),
                          tt,
                        ),
                      ),
                    ),
                  ),
                ),
              ),
            ),
          ),
        ),
      ),
    ),
  ),
)

pub instructions-AllKeep :
    (code : Code) (others : ℕ → Desc)
    → IsReady code
    → ((inst : ℕ) → AllKeep code (others inst))
    → (inst : ℕ) → AllKeep code (instructions code others inst)
unfolding instructions
instructions-AllKeep code others r o inst =
    lookup-AllKeep code (control_table code) (others inst) inst (control_table-ListKeeps code r)
      (o inst)

find_insn-Keeps :
    (code : Code) (desc : Desc) (src : List ℕ)
    → AllKeep code desc
    → IsBytes src
    → Gives (λ i p. Keeps code i × Rest src p) (find_insn desc src)
unfolding find_insn
find_insn-Keeps code no_insn src k b = tt
find_insn-Keeps code (insn i) src k b = (k, (b, omega arith))
find_insn-Keeps code (next_table table) src k b =
    Gives->>= (λ v p. (v < 2 ^ 32) × Behind src p) (λ i p. Keeps code i × Rest src p)
      (read_leb_u32 src) (λ inst rest. find_insn (table inst) rest) (read_leb_u32-Gives src b)
      λ inst rest (_, (b', l)).
        Gives-mono (λ i p. Keeps code i × Rest rest p) (λ i p. Keeps code i × Rest src p)
          (find_insn (table inst) rest) (find_insn-Keeps code (table inst) rest (k inst) b')
          λ i p (k', (b'', l')). (k', (b'', omega arith))

-- Reading an opcode takes a byte at least.
pub read_op-Keeps :
    (code : Code) (table : ℕ → Desc) (src : List ℕ)
    → ((inst : ℕ) → AllKeep code (table inst))
    → IsBytes src
    → Gives (λ i p. Keeps code i × Behind src p) (read_op table src)
unfolding read_op
read_op-Keeps code table src k b =
    Gives->>= (λ _ p. Behind src p) (λ i p. Keeps code i × Behind src p) (read_u8 src)
      (λ inst rest. find_insn (table inst) rest) (read_u8-Forward src b)
      λ inst rest (b', l).
        Gives-mono (λ i p. Keeps code i × Rest rest p) (λ i p. Keeps code i × Behind src p)
          (find_insn (table inst) rest) (find_insn-Keeps code (table inst) rest (k inst) b')
          λ i p (k', (b'', l')). (k', (b'', omega arith))
