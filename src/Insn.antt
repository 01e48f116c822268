-- ===== src/Insn.antt =====
-- lib/insn_impl_control.h, as it validates: each function is the VALIDATING branch of the instruction
-- of its name, with the bytes behind its opcode. It returns the bytes behind its immediates.
pub mod Reads
pub mod Blocks
pub mod Ends
pub mod Branches
pub mod Calls
pub mod Opcodes
pub mod Quiet
pub mod Expr
pub mod Annotations
pub mod Immediates
pub mod Operations
pub mod Bulk
pub mod Steady
pub mod Carried
pub mod Numeric
pub mod Lists
mod Tests
use wasm_doctor.Prelude.{
  ℕ, zero, suc, ◌+◌, ◌-◌, ◌*◌, ◌/◌, ◌%◌, ◌^◌, Bool, true, false, not, ◌&&◌, ◌||◌, Option, none,
  some, List, [], ◌∷◌, length, get_elem?, ltb, leb, ◌==◌, if◌then◌else◌, Result, ok, err, fault,
  einval, enomem, guard, assert,
}
use wasm_doctor.Prelude.Int.{ℤ, pos, negsuc}
use wasm_doctor.Types.{Valtype, i32, funcref, is, Functype, Module, Resulttype}
use wasm_doctor.Types.Lookup.{
  get_functype_for_blocktype, module_functype, module_tabletype, nimportedfuncs, nimportedtables,
  elem_of,
}
use wasm_doctor.Memory.{Realloc}
use wasm_doctor.Leb128.{read_leb_u32, read_leb_s}
use wasm_doctor.Decode.{read_vec_u32}
use wasm_doctor.Validation.{
  FrameOp, block, loop, if_, else_, empty_else, invoke, is_op, Ctrlframe, Context, Env, Validator,
  ◌>>=◌, ◌>>◌, pure, lift, gets, last_cframe, pop_valtype, pop_valtypes, peek_valtypes,
  push_valtypes, mark_unreachable, push_ctrlframe, pop_ctrlframe, target_label_types, returntype,
}

-- What is fixed while an expression is validated: the module, what realloc answers, how many bytes of
-- the module lie in front of `ep`, the types of the locals, whether the expression has to be constant,
-- and the number of data segments that the datacount section gives, if there is one.
pub record Code : Type 0 where
  pub env : Env
  pub m : Module
  pub realloc : Realloc
  pub end_offset : ℕ
  pub locals : List Valtype
  pub const_expr : Bool
  pub has_datacount : Bool
  pub ndatas_in_datacount : ℕ

abbrev pub lift_result : {A : Type 0} → Result A → Validator A
lift_result (ok a) ctx = ok (a, ctx)
lift_result (err e) ctx = err e
lift_result fault ctx = fault

-- ptr2pc of the pointer to the bytes, or of the one `back` bytes in front of it.
pub ptr2pc : Code → List ℕ → ℕ → Validator ℕ
ptr2pc code p back = do
  let offset = code.end_offset - length p - back
  lift (assert (leb (length p + back) code.end_offset))
  lift (assert (leb offset 0xffff_ffff))
  pure offset

pub is_empty_stack : Context → Bool
is_empty_stack ctx = length ctx.cframes == 0

module _ (code : Code) where
  pub process_unreachable : List ℕ → Validator (List ℕ)
  process_unreachable src = do mark_unreachable; pure src

  pub process_nop : List ℕ → Validator (List ℕ)
  process_nop src = pure src

  -- What `block`, `loop` and `if` do after they have read the block type.
  pub enter : FrameOp → ℤ → List ℕ → Validator (Unit {0})
  unfolding ptr2pc
  enter op blocktype orig_pc = do
    (parameter, result) ← lift_result (get_functype_for_blocktype code.realloc code.m blocktype)
    pop_valtypes parameter
    pc ← ptr2pc code orig_pc 1
    push_ctrlframe code.env pc op 0 parameter result

  pub process_block : List ℕ → Validator (List ℕ)
  unfolding enter
  process_block src = do
    (blocktype, p) ← lift_result (read_leb_s 33 src)
    enter block blocktype src
    pure p

  pub process_loop : List ℕ → Validator (List ℕ)
  unfolding enter
  process_loop src = do
    (blocktype, p) ← lift_result (read_leb_s 33 src)
    enter loop blocktype src
    pure p

  pub process_if : List ℕ → Validator (List ℕ)
  unfolding enter
  process_if src = do
    (blocktype, p) ← lift_result (read_leb_s 33 src)
    _ ← pop_valtype i32
    enter if_ blocktype src
    pure p

  pub process_else : List ℕ → Validator (List ℕ)
  unfolding ptr2pc
  process_else src = do
    pc ← ptr2pc code src 0
    cframe ← pop_ctrlframe pc true
    push_ctrlframe code.env (pc - 1) else_ cframe.jumpslot cframe.start_types cframe.end_types
    pure src

  -- No `else` is the same as an empty one.
  pub empty_else_of : ℕ → Ctrlframe → Validator Ctrlframe
  empty_else_of pc cframe =
      if is_op cframe.op if_
      then (do
        push_ctrlframe code.env pc empty_else 0 cframe.start_types cframe.end_types
        pop_ctrlframe pc false)
      else pure cframe

  pub process_end : List ℕ → Validator (List ℕ)
  unfolding ptr2pc empty_else_of is_empty_stack
  process_end src = do
    pc ← ptr2pc code src 0
    closed ← pop_ctrlframe pc false
    cframe ← empty_else_of pc closed
    done ← gets is_empty_stack
    let root = is_op cframe.op invoke
    lift (assert (root && done || not root && not done))
    if root then pure tt else push_valtypes code.env cframe.end_types
    pure src

  pub process_br : List ℕ → Validator (List ℕ)
  process_br src = do
    (labelidx, p) ← lift_result (read_leb_u32 src)
    rt ← target_label_types labelidx
    pop_valtypes rt
    mark_unreachable
    pure p

  -- In a reachable frame the operands are looked at, else popped and pushed.
  pub keep_operands : Resulttype → Validator (Unit {0})
  unfolding last_cframe
  keep_operands rt = do
    cframe ← last_cframe
    if not cframe.unreachable
        then peek_valtypes rt
        else (do pop_valtypes rt; push_valtypes code.env rt)

  pub process_br_if : List ℕ → Validator (List ℕ)
  unfolding keep_operands
  process_br_if src = do
    (labelidx, p) ← lift_result (read_leb_u32 src)
    _ ← pop_valtype i32
    rt ← target_label_types labelidx
    keep_operands rt
    pure p

  -- The loop of `br_table` over its labels.
  pub check_labels : ℕ → List ℕ → Validator (Unit {0})
  check_labels arity [] = pure tt
  check_labels arity (idx ∷ table) = do
    rt ← target_label_types idx
    lift (guard (length rt == arity) einval)
    peek_valtypes rt
    check_labels arity table

  pub process_br_table : List ℕ → Validator (List ℕ)
  unfolding check_labels
  process_br_table src = do
    (table, p) ← lift_result (read_vec_u32 code.realloc src)
    (defaultidx, p') ← lift_result (read_leb_u32 p)
    _ ← pop_valtype i32
    rt_default ← target_label_types defaultidx
    check_labels (length rt_default) table
    pop_valtypes rt_default
    mark_unreachable
    pure p'

  -- The innermost `returntype` is read off the vector, which is not empty.
  pub return_types : Validator Resulttype
  return_types ctx = elim (returntype ctx.cframes) [ none ↦ fault | some rt ↦ ok (rt, ctx) ]

  pub process_return : List ℕ → Validator (List ℕ)
  unfolding return_types
  process_return src = do rt ← return_types; pop_valtypes rt; mark_unreachable; pure src

  pub call_functype : Functype → Validator (Unit {0})
  call_functype ft = do pop_valtypes ft.parameter; push_valtypes code.env ft.result

  pub process_call : List ℕ → Validator (List ℕ)
  unfolding call_functype
  process_call src = do
    (funcidx, p) ← lift_result (read_leb_u32 src)
    let nfuncs = (nimportedfuncs code.m.imports + length code.m.functypeidxes) % 2 ^ 32
    lift (guard (ltb funcidx nfuncs) einval)
    ft ← lift_result (module_functype code.m funcidx)
    call_functype ft
    pure p

  pub process_call_indirect : List ℕ → Validator (List ℕ)
  unfolding call_functype
  process_call_indirect src = do
    (typeidx, p) ← lift_result (read_leb_u32 src)
    (tableidx, p') ← lift_result (read_leb_u32 p)
    let ntables = (nimportedtables code.m.imports + length code.m.tables) % 2 ^ 32
    lift (guard (ltb tableidx ntables) einval)
    lift (guard (ltb typeidx (length code.m.types)) einval)
    _ ← pop_valtype i32
    tab ← lift_result (module_tabletype code.m tableidx)
    lift (guard (is tab.et funcref) einval)
    ft ← lift_result (elem_of code.m.types typeidx)
    call_functype ft
    pure p'
