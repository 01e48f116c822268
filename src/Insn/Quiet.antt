-- ===== src/Insn/Quiet.antt =====
-- The control instructions, with the annotations and the bitmap of references.
use wasm_doctor.Prelude.{
  refl, ℕ, List, [], ◌∷◌, Result, arith, length, ◌==◌, guard, einval, ok, err, fault,
}
use wasm_doctor.Prelude.Int.{ℤ}
use wasm_doctor.Types.{Functype, Resulttype}
use wasm_doctor.Validation.{
  FrameOp, Ctrlframe, Validator, ◌>>=◌, ◌>>◌, lift, target_label_types, peek_valtypes,
}
use wasm_doctor.Validation.Quiet.{
  Quiet, Leaves, Quiet->>=, Quiet-pure, Quiet-lift, Quiet-gets, Quiet-if, last_cframe-Quiet,
  pop_valtype-Quiet, pop_valtypes-Quiet, peek_valtypes-Quiet, mark_unreachable-Quiet,
  target_label_types-Quiet, push_valtypes-Quiet, push_ctrlframe-Quiet, pop_ctrlframe-Quiet,
}
use wasm_doctor.Insn.{
  Code, lift_result, ptr2pc, enter, process_unreachable, process_nop, process_block, process_loop,
  process_if, process_else, empty_else_of, process_end, process_br, keep_operands, process_br_if,
  check_labels, process_br_table, return_types, process_return, call_functype, process_call,
  process_call_indirect,
}

pub Quiet-lift_result : {A : Type 0} (r : Result A) → Quiet (lift_result r)
Quiet-lift_result (ok a) = record { at = λ ctx. (refl, refl) }
Quiet-lift_result (err e) = record { at = λ ctx. tt }
Quiet-lift_result fault = record { at = λ ctx. tt }

pub ruleset quiet_steps = (
  Quiet->>=, Quiet-pure, Quiet-lift, Quiet-gets, Quiet-if, Quiet-lift_result, last_cframe-Quiet,
  pop_valtype-Quiet, pop_valtypes-Quiet, peek_valtypes-Quiet, mark_unreachable-Quiet,
  target_label_types-Quiet, push_valtypes-Quiet, push_ctrlframe-Quiet, pop_ctrlframe-Quiet,
)

module _ (code : Code) where
  pub ptr2pc-Quiet : (p : List ℕ) (back : ℕ) → Quiet (ptr2pc code p back)
  unfolding ptr2pc
  ptr2pc-Quiet p back = search quiet_steps depth 12

  enter-Quiet :
      (op : FrameOp) (blocktype : ℤ) (orig_pc : List ℕ) → Quiet (enter code op blocktype orig_pc)
  unfolding enter
  enter-Quiet op blocktype orig_pc = search (quiet_steps, ptr2pc-Quiet) depth 20

  pub process_block-Quiet : (src : List ℕ) → Quiet (process_block code src)
  unfolding process_block
  process_block-Quiet src = search (quiet_steps, enter-Quiet) depth 20

  pub process_loop-Quiet : (src : List ℕ) → Quiet (process_loop code src)
  unfolding process_loop
  process_loop-Quiet src = search (quiet_steps, enter-Quiet) depth 20

  pub process_if-Quiet : (src : List ℕ) → Quiet (process_if code src)
  unfolding process_if
  process_if-Quiet src = search (quiet_steps, enter-Quiet) depth 20

  pub process_else-Quiet : (src : List ℕ) → Quiet (process_else code src)
  unfolding process_else
  process_else-Quiet src = search (quiet_steps, ptr2pc-Quiet) depth 20

  empty_else_of-Quiet : (pc : ℕ) (f : Ctrlframe) → Quiet (empty_else_of code pc f)
  unfolding empty_else_of
  empty_else_of-Quiet pc f = search quiet_steps depth 20

  pub process_end-Quiet : (src : List ℕ) → Quiet (process_end code src)
  unfolding process_end
  process_end-Quiet src = search (quiet_steps, ptr2pc-Quiet, empty_else_of-Quiet) depth 25

  pub process_br-Quiet : (src : List ℕ) → Quiet (process_br code src)
  unfolding process_br
  process_br-Quiet src = search quiet_steps depth 20

  keep_operands-Quiet : (rt : Resulttype) → Quiet (keep_operands code rt)
  unfolding keep_operands
  keep_operands-Quiet rt = search quiet_steps depth 20

  pub process_br_if-Quiet : (src : List ℕ) → Quiet (process_br_if code src)
  unfolding process_br_if
  process_br_if-Quiet src = search (quiet_steps, keep_operands-Quiet) depth 20

  label-Quiet :
      (arity idx : ℕ) (k : Validator (Unit {0}))
      → Quiet k
      → Quiet (do
        rt ← target_label_types idx
        lift (guard (length rt == arity) einval)
        peek_valtypes rt
        k)
  label-Quiet arity idx k q = search quiet_steps depth 20

  check_labels-Quiet : (arity : ℕ) (table : List ℕ) → Quiet (check_labels code arity table)
  unfolding check_labels
  check_labels-Quiet arity [] = Quiet-pure tt
  check_labels-Quiet arity (idx ∷ table) =
      label-Quiet arity idx (check_labels code arity table) (check_labels-Quiet arity table)

  pub process_br_table-Quiet : (src : List ℕ) → Quiet (process_br_table code src)
  unfolding process_br_table
  process_br_table-Quiet src = search (quiet_steps, check_labels-Quiet) depth 25

  return_types-Quiet : Quiet (return_types code)
  unfolding return_types
  return_types-Quiet = record { at = λ ctx. ground arith }

  pub process_return-Quiet : (src : List ℕ) → Quiet (process_return code src)
  unfolding process_return
  process_return-Quiet src = search (quiet_steps, return_types-Quiet) depth 20

  call_functype-Quiet : (ft : Functype) → Quiet (call_functype code ft)
  unfolding call_functype
  call_functype-Quiet ft = search quiet_steps depth 20

  pub process_call-Quiet : (src : List ℕ) → Quiet (process_call code src)
  unfolding process_call
  process_call-Quiet src = search (quiet_steps, call_functype-Quiet) depth 25

  pub process_call_indirect-Quiet : (src : List ℕ) → Quiet (process_call_indirect code src)
  unfolding process_call_indirect
  process_call_indirect-Quiet src = search (quiet_steps, call_functype-Quiet) depth 30

  pub process_unreachable-Quiet : (src : List ℕ) → Quiet (process_unreachable code src)
  unfolding process_unreachable
  process_unreachable-Quiet src = search quiet_steps depth 20

  pub process_nop-Quiet : (src : List ℕ) → Quiet (process_nop code src)
  unfolding process_nop
  process_nop-Quiet src = Quiet-pure src
