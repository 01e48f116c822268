-- ===== src/Insn/Expr.antt =====
-- lib/expr.c: the instructions of an expression, by the tables of their opcodes. The instructions other
-- than those for control stand in a table of the same kind, which is an argument.
pub mod Table
pub mod Runs
use wasm_doctor.Prelude.{
  ℕ, zero, suc, ◌+◌, Bool, true, false, not, ◌||◌, List, [], ◌∷◌, length, ◌==◌, if◌then◌else◌,
  Result, ok, err, fault, einval, guard,
}
use wasm_doctor.Types.{Resulttype}
use wasm_doctor.Insn.Opcodes.{Instruction, Desc, insn, read_op}
use wasm_doctor.Validation.{
  Context, Validator, invoke, lift, gets, pure, push_ctrlframe, ◌>>=◌, ◌>>◌,
}
use wasm_doctor.Insn.{
  Code, lift_result, is_empty_stack, process_unreachable, process_nop, process_block, process_loop,
  process_if, process_else, process_end, process_br, process_br_if, process_br_table,
  process_return, process_call, process_call_indirect,
}

abbrev pub control : ℕ → (List ℕ → Validator (List ℕ)) → ℕ × Desc
control opcode process = (opcode, insn (record { process = process; is_const = false }))

pub control_table : Code → List (ℕ × Desc)
control_table code =
    control 0x00 (process_unreachable code)
    ∷ control 0x01 (process_nop code)
    ∷ control 0x02 (process_block code)
    ∷ control 0x03 (process_loop code)
    ∷ control 0x04 (process_if code)
    ∷ control 0x05 (process_else code)
    ∷ (0x0b, insn (record { process = process_end code; is_const = true }))
    ∷ control 0x0c (process_br code)
    ∷ control 0x0d (process_br_if code)
    ∷ control 0x0e (process_br_table code)
    ∷ control 0x0f (process_return code)
    ∷ control 0x10 (process_call code)
    ∷ control 0x11 (process_call_indirect code)
    ∷ []

pub lookup : List (ℕ × Desc) → Desc → ℕ → Desc
lookup [] other inst = other
lookup ((opcode, desc) ∷ table) other inst =
    if opcode == inst then desc else lookup table other inst

-- The base table: the control instructions, and the others.
pub instructions : Code → (ℕ → Desc) → ℕ → Desc
unfolding control_table lookup
instructions code others inst = lookup (control_table code) (others inst) inst

-- The loop over the instructions, until no frame is left. Without fuel it is a fault.
pub read_insns : (ℕ → Desc) → Bool → ℕ → List ℕ → Validator (List ℕ)
read_insns table const_expr zero src = λ ctx. fault
read_insns table const_expr (suc fuel) src = do
  (desc, p) ← lift_result (read_op table src)
  lift (guard (not const_expr || desc.is_const) einval)
  p' ← desc.process p
  done ← gets is_empty_stack
  elim done [ true ↦ pure p' | false ↦ read_insns table const_expr fuel p' ]

pub validation_context_reuse : Context → Context
validation_context_reuse ctx = record ctx { cframes = []; valtypes = []; ncells = 0 }

-- The contents of `ei` before an expression.
pub clear_ei : Context → Context
clear_ei ctx = record ctx {
  maxcells = 0;
  maxlabels = 0;
  jumps = [];
  annotations = record { default_size = 0; types = [] };
}

-- read_expr_common, behind the setting up of the locals; each instruction takes a byte at least.
pub read_expr_common : Code → (ℕ → Desc) → Resulttype → List ℕ → Validator (List ℕ)
unfolding read_insns instructions validation_context_reuse clear_ei
read_expr_common code others result_types src ctx =
    (do
      push_ctrlframe code.env 0 invoke 0 [] result_types
      p ← read_insns (instructions code others) code.const_expr (suc (length src)) src
      λ c. ok (p, validation_context_reuse c))
      (clear_ei ctx)
