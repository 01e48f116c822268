-- ===== src/Insn/Operations/Kept.antt =====
-- The instructions on operands, variables, memories and tables, in a sound context.
use wasm_doctor.Prelude.{
  ℕ, ◌<◌, ◌≡◌, refl, true, false, not, ◌||◌, List, [], ◌∷◌, length, ltb, einval, zero, suc,
  Bool-cases, Result, ok, err, fault, arith, ltb→lt, inl, inr,
}
use wasm_doctor.Types.{Tabletype, Valtype, i32, is_valtype}
use wasm_doctor.Types.Lookup.{nimportedglobals, module_tabletype, module_globaltype, elem_of}
use wasm_doctor.Types.Lookup.Typed.{module_tabletype-Valued, module_globaltype-Valued, Yields}
use wasm_doctor.Leb128.{read_leb_u32}
use wasm_doctor.Decode.Progress.{Yielding}
use wasm_doctor.Decode.{Reader}
use wasm_doctor.Validation.{Context, Validator, ◌>>=◌, ◌>>◌, pure}
use wasm_doctor.Validation.Safe.{Safe}
use wasm_doctor.Validation.Sound.{IsSound}
use wasm_doctor.Validation.Invariant.{Operands}
use wasm_doctor.Insn.{Code, lift_result}
use wasm_doctor.Insn.Reads.{IsReady}
use wasm_doctor.Insn.Carried.{Processes, reads-Processes, operands-Processes}
use wasm_doctor.Insn.Immediates.{read_access, read_memidx, read_select_type, read_reftype}
use wasm_doctor.Insn.Immediates.Forward.{
  Anything, IsValue, read_index-Yielding, read_access-Yielding, read_memidx-Yielding,
  read_select_type-Yielding, read_reftype-Yielding,
}
use wasm_doctor.Insn.Steady.{
  Gives, Gives->>=, Gives-checked, Remains, Remains-refl, Steady, Steady->>=, Steady-guard,
  Steady-last_guard, Steady-Yields, pop-Steady, push-Steady,
}
use wasm_doctor.Insn.Operations.{
  pop, push, ntables, nglobals, process_unary, process_binary, process_load, process_store,
  process_const, process_select_t, local_type, process_local_get, process_local_set,
  process_local_tee, process_global_get, process_global_set, table_type, process_table_get,
  process_table_set, process_memory_size, process_memory_grow, process_ref_null,
}

module _ (code : Code) (ready : IsReady code) where
  pub push_value : (t : Valtype) → is_valtype t ≡ true → Steady code.env (push code t)
  push_value t v = push-Steady code t ready.modest v

  pub process_unary-Processes :
      (from to : Valtype) → is_valtype to ≡ true → Processes code (process_unary code from to)
  unfolding process_unary
  process_unary-Processes from to v =
      operands-Processes code (pop code from >> push code to)
        (Steady->>= (pop-Steady code from) (λ _. push_value to v))

  pub process_binary-Processes :
      (from to : Valtype) → is_valtype to ≡ true → Processes code (process_binary code from to)
  unfolding process_binary
  process_binary-Processes from to v =
      operands-Processes code (pop code from >> pop code from >> push code to) (
        Steady->>= (Steady->>= (pop-Steady code from) (λ _. pop-Steady code from))
          (λ _. push_value to v))

  pub process_load-Processes :
      (bits : ℕ) (to : Valtype) → is_valtype to ≡ true → Processes code (process_load code bits to)
  unfolding process_load
  process_load-Processes bits to v =
      reads-Processes Anything code (read_access bits) _ (read_access-Yielding bits) λ _ _.
        Steady->>= (Steady->>= (Steady-last_guard _ einval) (λ _. pop-Steady code i32))
          (λ _. push_value to v)

  pub process_store-Processes :
      (bits : ℕ) (from : Valtype) → Processes code (process_store code bits from)
  unfolding process_store
  process_store-Processes bits from =
      reads-Processes Anything code (read_access bits) _ (read_access-Yielding bits) λ _ _.
        Steady->>= (Steady->>= (Steady-last_guard _ einval) (λ _. pop-Steady code from))
          (λ _. pop-Steady code i32)

  pub process_const-Processes :
      (reader : Reader ℕ) (t : Valtype)
      → Yielding Anything reader
      → is_valtype t ≡ true
      → Processes code (process_const code reader t)
  unfolding process_const
  process_const-Processes reader t y v =
      reads-Processes Anything code reader _ y λ _ _. push_value t v

  pub process_select_t-Processes : Processes code (process_select_t code)
  unfolding process_select_t
  process_select_t-Processes =
      reads-Processes IsValue code read_select_type _ read_select_type-Yielding λ t v.
        Steady->>=
          (Steady->>= (Steady->>= (pop-Steady code i32) (λ _. pop-Steady code t))
            (λ _. pop-Steady code t))
          (λ _. push_value t v)

  elem_of-Operands :
      (ts : List Valtype) (i : ℕ)
      → Operands false ts
      → i < length ts
      → Yields IsValue (elem_of ts i)
  elem_of-Operands [] i v h = absurd (omega arith)
  elem_of-Operands (t ∷ ts) zero (v, vs) h = ground (arith, v)
  elem_of-Operands (t ∷ ts) (suc i) (v, vs) h = elem_of-Operands ts i vs (omega arith)

  -- A local that is there, and is of a value type.
  local_type-then :
      {B : Type 0} (localidx : ℕ) (k : Valtype → Validator B)
      → ((t : Valtype) → is_valtype t ≡ true → Steady code.env (k t))
      → Steady code.env (local_type code localidx >>= k)
  local_type-then localidx k h =
      Gives->>= IsValue (local_type code localidx)
        (Gives-checked IsValue (ltb localidx (length code.locals)) einval
          (elem_of code.locals localidx)
          λ lt.
            elem_of-Operands code.locals localidx ready.typed_locals
              (ltb→lt localidx (length code.locals) lt))
        h

  pub process_local_get-Processes : Processes code (process_local_get code)
  unfolding process_local_get
  process_local_get-Processes =
      reads-Processes Anything code read_leb_u32 _ read_index-Yielding
        λ localidx _. local_type-then localidx _ push_value

  pub process_local_set-Processes : Processes code (process_local_set code)
  unfolding process_local_set
  process_local_set-Processes =
      reads-Processes Anything code read_leb_u32 _ read_index-Yielding
        λ localidx _. local_type-then localidx _ (λ t _. pop-Steady code t)

  pub process_local_tee-Processes : Processes code (process_local_tee code)
  unfolding process_local_tee
  process_local_tee-Processes =
      reads-Processes Anything code read_leb_u32 _ read_index-Yielding λ localidx _.
        local_type-then localidx _ (λ t v. Steady->>= (pop-Steady code t) (λ _. push_value t v))

  pub process_memory_size-Processes : Processes code (process_memory_size code)
  unfolding process_memory_size
  process_memory_size-Processes =
      reads-Processes Anything code read_memidx _ read_memidx-Yielding
        λ _ _. Steady->>= (Steady-last_guard _ einval) (λ _. push_value i32 refl)

  pub process_memory_grow-Processes : Processes code (process_memory_grow code)
  unfolding process_memory_grow
  process_memory_grow-Processes =
      reads-Processes Anything code read_memidx _ read_memidx-Yielding λ _ _.
        Steady->>= (Steady->>= (Steady-last_guard _ einval) (λ _. pop-Steady code i32))
          (λ _. push_value i32 refl)

  pub process_ref_null-Processes : Processes code (process_ref_null code)
  unfolding process_ref_null
  process_ref_null-Processes =
      reads-Processes IsValue code read_reftype _ read_reftype-Yielding push_value

  table_type-Gives : (tableidx : ℕ) → Gives code.env IsValue (table_type code tableidx)
  table_type-Gives tableidx = elim (Bool-cases (ltb tableidx (ntables code))) [
    | inr e ↦ λ ctx s. rw e tt
    | inl e ↦ λ ctx s. rw e (
        found ctx s (module_tabletype code.m tableidx) (
          module_tabletype-Valued code.m tableidx ready.loaded
            (omega (arith, ltb→lt tableidx (ntables code) e))))
  ]
    where
      found :
          (ctx : Context)
          → IsSound code.env ctx
          → (r : Result Tabletype) → Yields (λ t. is_valtype t.et ≡ true) r
          → Safe
              (λ t c. IsValue t × Remains code.env ctx c)
              ((lift_result r >>= λ tab. pure tab.et) ctx)
      found ctx s (ok t) h = (h, Remains-refl code.env ctx s)
      found ctx s (err e) h = tt
      found ctx s fault h = h

  pub table_type-then :
      {B : Type 0} (tableidx : ℕ) (k : Valtype → Validator B)
      → ((t : Valtype) → is_valtype t ≡ true → Steady code.env (k t))
      → Steady code.env (table_type code tableidx >>= k)
  table_type-then tableidx k h =
      Gives->>= IsValue (table_type code tableidx) (table_type-Gives tableidx) h

  pub process_table_get-Processes : Processes code (process_table_get code)
  unfolding process_table_get
  process_table_get-Processes =
      reads-Processes Anything code read_leb_u32 _ read_index-Yielding λ tableidx _.
        table_type-then tableidx _ (λ t v. Steady->>= (pop-Steady code i32) (λ _. push_value t v))

  pub process_table_set-Processes : Processes code (process_table_set code)
  unfolding process_table_set
  process_table_set-Processes =
      reads-Processes Anything code read_leb_u32 _ read_index-Yielding λ tableidx _.
        table_type-then tableidx _
          (λ t v. Steady->>= (pop-Steady code t) (λ _. pop-Steady code i32))

  global_there :
      (globalidx : ℕ)
      → ltb globalidx (nglobals code) ≡ true
      → Yields (λ g. is_valtype g.t ≡ true) (module_globaltype code.m globalidx)
  global_there globalidx lt =
      module_globaltype-Valued code.m globalidx ready.loaded
        (omega (arith, ltb→lt globalidx (nglobals code) lt))

  pub process_global_get-Processes : Processes code (process_global_get code)
  unfolding process_global_get
  process_global_get-Processes =
      reads-Processes Anything code read_leb_u32 _ read_index-Yielding λ globalidx _.
        Steady-guard (ltb globalidx (nglobals code)) einval λ lt.
          Steady-guard (not code.const_expr || ltb globalidx (nimportedglobals code.m.imports))
            einval
            λ _.
              Steady-Yields (λ g. is_valtype g.t ≡ true) (module_globaltype code.m globalidx)
                (global_there globalidx lt)
                λ g v.
                  Steady-guard (not code.const_expr || not g.is_var) einval λ _. push_value g.t v

  pub process_global_set-Processes : Processes code (process_global_set code)
  unfolding process_global_set
  process_global_set-Processes =
      reads-Processes Anything code read_leb_u32 _ read_index-Yielding λ globalidx _.
        Steady-guard (ltb globalidx (nglobals code)) einval λ lt.
          Steady-Yields (λ g. is_valtype g.t ≡ true) (module_globaltype code.m globalidx)
            (global_there globalidx lt) λ g v. Steady-guard _ einval λ _. pop-Steady code g.t
