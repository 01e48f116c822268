-- ===== src/Insn/Opcodes.antt =====
-- read_op of lib/expr.c: an instruction is looked up by its opcode, in tables of tables.
use wasm_doctor.Prelude.{ℕ, Bool, List, Result, ok, err, einval, ◌>>=◌}
use wasm_doctor.Leb128.{read_leb_u32}
use wasm_doctor.Decode.{read_u8}
use wasm_doctor.Validation.{Validator}

-- What validation uses of struct instruction_desc.
pub record Instruction : Type 0 where
  pub process : List ℕ → Validator (List ℕ)
  pub is_const : Bool

-- An entry of a table: nothing, an instruction, or the table of its sub-opcodes. Behind the end of a
-- table there is nothing.
pub data Desc : Type 0 where
  no_insn : Desc
  insn : Instruction → Desc
  next_table : (ℕ → Desc) → Desc

-- The loop of read_op.
unfoldable pub find_insn : Desc → List ℕ → Result (Instruction × List ℕ)
find_insn no_insn src = err einval
find_insn (insn i) src = ok (i, src)
find_insn (next_table table) src = do (inst, rest) ← read_leb_u32 src; find_insn (table inst) rest

unfoldable pub read_op : (ℕ → Desc) → List ℕ → Result (Instruction × List ℕ)
unfolding find_insn
read_op table src = do (inst8, rest) ← read_u8 src; find_insn (table inst8) rest
