-- ===== src/Insn/Calls.antt =====
-- The calls keep what holds during the validation.
use wasm_doctor.Prelude.{
  ℕ, ◌+◌, ◌%◌, ◌^◌, ◌<◌, ◌≡◌, refl, Bool, true, false, List, length, ltb, einval, guard, arith,
  ltb→lt,
}
use wasm_doctor.Types.{i32, funcref, is, is_valtype, Functype}
use wasm_doctor.Types.Lookup.{
  module_functype, module_tabletype, nimportedfuncs, nimportedtables, elem_of,
}
use wasm_doctor.Types.Lookup.Typed.{
  IsValued, module_functype-Valued, module_tabletype-Valued, elem_of-Valued,
}
use wasm_doctor.Leb128.{read_leb_u32}
use wasm_doctor.Leb128.Forward.{Behind, read_leb_u32-Gives}
use wasm_doctor.Validation.{Context, Validator, ◌>>◌, pure, lift, pop_valtype, pop_valtypes}
use wasm_doctor.Validation.Safe.{Safe, Safe-guard}
use wasm_doctor.Validation.Sound.{IsSound}
use wasm_doctor.Validation.Sound.Steps.{
  Sound->>=, pop_valtype-Sound, pop_valtypes-Sound, push_valtypes-Sound,
}
use wasm_doctor.Insn.{Code, call_functype, process_call, process_call_indirect}
use wasm_doctor.Insn.Reads.{IsReady, IsCode, Rest, Continues, Gives-then, Yields-then}

-- A guard that holds is known to hold behind it.
pub guarded :
    {B : Type 0} (Q : B → Context → Type 0) (b : Bool) (k : Validator B) (ctx : Context)
    → (b ≡ true → Safe Q (k ctx))
    → Safe Q ((lift (guard b einval) >> k) ctx)
guarded Q true k ctx h = h refl
guarded Q false k ctx h = tt

module _ (code : Code) (ready : IsReady code) where
  call_functype-Continues :
      (ft : Functype) (src p : List ℕ) (ctx : Context)
      → IsValued ft
      → Rest src p
      → IsSound code.env ctx
      → Safe (Continues code src) ((call_functype code ft >> pure p) ctx)
  unfolding call_functype
  call_functype-Continues ft src p ctx v r s =
      Sound->>= code.env (Continues code src) (call_functype code ft) _ ctx
        (Sound->>= code.env (λ _ c. IsSound code.env c) (pop_valtypes ft.parameter) _ ctx
          (pop_valtypes-Sound code.env ft.parameter ctx s)
          λ _ c s'. push_valtypes-Sound code.env ready.modest ft.result c v.1 s')
        λ _ d s''. (s'', r)

  -- The same for the instruction `call`.
  pub process_call-Continues :
      (src : List ℕ) (ctx : Context)
      → IsCode code src
      → IsSound code.env ctx
      → Safe (Continues code src) (process_call code src ctx)
  unfolding process_call
  process_call-Continues src ctx b s =
      let n = nimportedfuncs code.m.imports + length code.m.functypeidxes in
      Gives-then (λ v p. (v < 2 ^ 32) × Behind src p) (Continues code src) (read_leb_u32 src) _ ctx
        (read_leb_u32-Gives src b.0)
        λ funcidx p (_, (b', l)).
          guarded (Continues code src) (ltb funcidx (n % 2 ^ 32)) _ ctx λ lt.
            Yields-then IsValued (Continues code src) (module_functype code.m funcidx) _ ctx
              (module_functype-Valued code.m funcidx ready.loaded
                (omega (arith, ltb→lt funcidx (n % 2 ^ 32) lt)))
              λ ft v. call_functype-Continues ft src p ctx v (b', omega arith) s

  pub process_call_indirect-Continues :
      (src : List ℕ) (ctx : Context)
      → IsCode code src
      → IsSound code.env ctx
      → Safe (Continues code src) (process_call_indirect code src ctx)
  unfolding process_call_indirect
  process_call_indirect-Continues src ctx b s =
      let n = nimportedtables code.m.imports + length code.m.tables in
      Gives-then (λ v p. (v < 2 ^ 32) × Behind src p) (Continues code src) (read_leb_u32 src) _ ctx
        (read_leb_u32-Gives src b.0)
        λ typeidx p (_, (b', l)).
          Gives-then (λ v q. (v < 2 ^ 32) × Behind p q) (Continues code src) (read_leb_u32 p) _ ctx
            (read_leb_u32-Gives p b')
            λ tableidx q (_, (b'', l')).
              guarded (Continues code src) (ltb tableidx (n % 2 ^ 32)) _ ctx λ lt.
                guarded (Continues code src) (ltb typeidx (length code.m.types)) _ ctx λ lt'.
                  Sound->>= code.env (Continues code src) (pop_valtype i32) _ ctx
                    (pop_valtype-Sound code.env i32 ctx s)
                    λ _ c s'.
                      Yields-then (λ t. is_valtype t.et ≡ true) (Continues code src)
                        (module_tabletype code.m tableidx) _ c
                        (module_tabletype-Valued code.m tableidx ready.loaded
                          (omega (arith, ltb→lt tableidx (n % 2 ^ 32) lt)))
                        λ tab _. Safe-guard (Continues code src) (is tab.et funcref) einval _ c (
                          Yields-then IsValued (Continues code src) (elem_of code.m.types typeidx) _
                            c
                            (elem_of-Valued code.m.types typeidx ready.loaded.valued
                              (ltb→lt typeidx (length code.m.types) lt'))
                            λ ft v. call_functype-Continues ft src q c v (b'', omega arith) s')
