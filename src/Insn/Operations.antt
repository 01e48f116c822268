-- ===== src/Insn/Operations.antt =====
-- lib/insn_impl_base.h and lib/insn_op.h, as they validate: the immediates behind the opcode are read,
-- then the operands are checked.
pub mod Kept
pub mod Noted
use wasm_doctor.Prelude.{
  ℕ, ◌+◌, ◌%◌, ◌^◌, Bool, true, false, not, ◌&&◌, ◌||◌, List, [], ◌∷◌, length, ltb, leb, ◌==◌,
  if◌then◌else◌, Result, ok, err, fault, einval, guard,
}
use wasm_doctor.Types.{Valtype, i32, funcref, anyref, unknown, is, is_numtype, is_vectype}
use wasm_doctor.Types.Lookup.{
  module_tabletype, module_globaltype, nimportedfuncs, nimportedtables, nimportedmems,
  nimportedglobals, elem_of,
}
use wasm_doctor.Leb128.{read_leb_u32}
use wasm_doctor.Decode.{Reader}
use wasm_doctor.Validation.{
  Context, Validator, ◌>>=◌, ◌>>◌, lift, gets, pure, pop_valtype, push_valtype,
}
use wasm_doctor.Insn.{Code, lift_result}
use wasm_doctor.Insn.Immediates.{
  read_access, read_memidx, read_select_type, read_reftype, bitmap_set, bitmap_test,
}
use wasm_doctor.Insn.Annotations.{record_type_annotation}

-- The numbers of what a module has of a kind, as 32-bit sums.
abbrev pub nfuncs : Code → ℕ
nfuncs code = (nimportedfuncs code.m.imports + length code.m.functypeidxes) % 2 ^ 32

abbrev pub ntables : Code → ℕ
ntables code = (nimportedtables code.m.imports + length code.m.tables) % 2 ^ 32

abbrev pub nmems : Code → ℕ
nmems code = (nimportedmems code.m.imports + length code.m.mems) % 2 ^ 32

abbrev pub nglobals : Code → ℕ
nglobals code = (nimportedglobals code.m.imports + length code.m.globals) % 2 ^ 32

module _ (code : Code) where
  -- An instruction that reads its immediates first.
  abbrev pub reads :
      {A : Type 0} → Reader A → (A → Validator (Unit {0})) → List ℕ → Validator (List ℕ)
  reads reader effect src = do (a, p) ← lift_result (reader src); effect a; pure p

  -- POP_VAL and PUSH_VAL
  unfoldable pub pop : Valtype → Validator (Unit {0})
  pop t = do _ ← pop_valtype t; pure tt

  unfoldable pub push : Valtype → Validator (Unit {0})
  push t = push_valtype code.env t

  -- UNOP, TESTOP, BITCOUNTOP, EXTENDOP, REINTERPRETOP and CVTOP
  pub process_unary : Valtype → Valtype → List ℕ → Validator (List ℕ)
  unfolding pop push
  process_unary from to src = pop from >> push to >> pure src

  -- BINOP2 and CMPOP2
  pub process_binary : Valtype → Valtype → List ℕ → Validator (List ℕ)
  unfolding pop push
  process_binary from to src = pop from >> pop from >> push to >> pure src

  abbrev pub check_memory : ℕ → Validator (Unit {0})
  check_memory memidx = lift (guard (ltb memidx (nmems code)) einval)

  -- LOADOP2
  pub process_load : ℕ → Valtype → List ℕ → Validator (List ℕ)
  unfolding pop push
  process_load bits to = reads (read_access bits) λ _. check_memory 0 >> pop i32 >> push to

  -- STOREOP2
  pub process_store : ℕ → Valtype → List ℕ → Validator (List ℕ)
  unfolding pop
  process_store bits from = reads (read_access bits) λ _. check_memory 0 >> pop from >> pop i32

  -- CONSTOP and CONSTOP_F, with the reader of the immediate
  pub process_const : Reader ℕ → Valtype → List ℕ → Validator (List ℕ)
  unfolding push
  process_const reader t = reads reader λ _. push t

  pub process_drop : List ℕ → Validator (List ℕ)
  process_drop src = do
    type_a ← pop_valtype unknown
    record_type_annotation code src type_a
    pure src

  pub process_select : List ℕ → Validator (List ℕ)
  unfolding pop push
  process_select src = do
    pop i32
    type_v2 ← pop_valtype unknown
    pop type_v2
    record_type_annotation code src type_v2
    lift (guard (is_numtype type_v2 || is_vectype type_v2 || is type_v2 unknown) einval)
    push type_v2
    pure src

  pub process_select_t : List ℕ → Validator (List ℕ)
  unfolding pop push
  process_select_t = reads read_select_type λ t. pop i32 >> pop t >> pop t >> push t

  abbrev pub local_type : ℕ → Validator Valtype
  local_type localidx =
      lift (guard (ltb localidx (length code.locals)) einval)
      >> lift_result (elem_of code.locals localidx)

  pub process_local_get : List ℕ → Validator (List ℕ)
  unfolding push
  process_local_get = reads read_leb_u32 λ localidx. do t ← local_type localidx; push t

  pub process_local_set : List ℕ → Validator (List ℕ)
  unfolding pop
  process_local_set = reads read_leb_u32 λ localidx. do t ← local_type localidx; pop t

  pub process_local_tee : List ℕ → Validator (List ℕ)
  unfolding pop push
  process_local_tee = reads read_leb_u32 λ localidx. do t ← local_type localidx; pop t; push t

  -- In a constant expression only imported constants may be read.
  pub process_global_get : List ℕ → Validator (List ℕ)
  unfolding push
  process_global_get = reads read_leb_u32 λ globalidx. do
    lift (guard (ltb globalidx (nglobals code)) einval)
    lift (guard (not code.const_expr || ltb globalidx (nimportedglobals code.m.imports)) einval)
    gt ← lift_result (module_globaltype code.m globalidx)
    lift (guard (not code.const_expr || not gt.is_var) einval)
    push gt.t

  pub process_global_set : List ℕ → Validator (List ℕ)
  unfolding pop
  process_global_set = reads read_leb_u32 λ globalidx. do
    lift (guard (ltb globalidx (nglobals code)) einval)
    gt ← lift_result (module_globaltype code.m globalidx)
    lift (guard gt.is_var einval)
    pop gt.t

  -- The element type of a table, whose index is checked.
  abbrev pub table_type : ℕ → Validator Valtype
  table_type tableidx = do
    lift (guard (ltb tableidx (ntables code)) einval)
    tab ← lift_result (module_tabletype code.m tableidx)
    pure tab.et

  pub process_table_get : List ℕ → Validator (List ℕ)
  unfolding pop push
  process_table_get = reads read_leb_u32 λ tableidx. do et ← table_type tableidx; pop i32; push et

  pub process_table_set : List ℕ → Validator (List ℕ)
  unfolding pop
  process_table_set = reads read_leb_u32 λ tableidx. do et ← table_type tableidx; pop et; pop i32

  pub process_memory_size : List ℕ → Validator (List ℕ)
  unfolding push
  process_memory_size = reads read_memidx λ memidx. check_memory memidx >> push i32

  pub process_memory_grow : List ℕ → Validator (List ℕ)
  unfolding pop push
  process_memory_grow = reads read_memidx λ memidx. check_memory memidx >> pop i32 >> push i32

  pub process_ref_null : List ℕ → Validator (List ℕ)
  unfolding push
  process_ref_null = reads read_reftype λ t. push t

  pub process_ref_is_null : List ℕ → Validator (List ℕ)
  unfolding push
  process_ref_is_null src = do
    type_n ← pop_valtype anyref
    record_type_annotation code src type_n
    push i32
    pure src

  -- A reference to a function is declared in a constant expression, and has to be so in code.
  pub declare_ref : ℕ → Validator (Unit {0})
  declare_ref funcidx ctx = elim (bitmap_set ctx.refs funcidx) [
    | ok words ↦ ok (tt, record ctx { refs = words })
    | err e ↦ err e
    | fault ↦ fault
  ]

  pub check_ref : ℕ → Validator (Unit {0})
  check_ref funcidx ctx = elim (bitmap_test ctx.refs funcidx) [
    | ok declared ↦ lift (guard declared einval) ctx
    | err e ↦ err e
    | fault ↦ fault
  ]

  abbrev pub reference : ℕ → Validator (Unit {0})
  unfolding push declare_ref check_ref
  reference funcidx = do
    lift (guard (ltb funcidx (nfuncs code)) einval)
    if code.const_expr then declare_ref funcidx else check_ref funcidx
    push funcref

  pub process_ref_func : List ℕ → Validator (List ℕ)
  process_ref_func = reads read_leb_u32 reference
