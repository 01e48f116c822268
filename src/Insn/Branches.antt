-- ===== src/Insn/Branches.antt =====
-- The branches keep what holds during the validation.
use mathlib.Core.Path.{subst}
use wasm_doctor.Prelude.{
  ℕ, ◌^◌, ◌<◌, ◌≡◌, refl, sym, Bool, true, false, not, List, [], ◌∷◌, length, ◌==◌, ok, fault,
  einval, arith, if◌then◌else◌, none, some,
}
use wasm_doctor.Types.{i32, Resulttype}
use wasm_doctor.Leb128.{read_leb_u32}
use wasm_doctor.Leb128.Forward.{Behind, read_leb_u32-Gives}
use wasm_doctor.Decode.{read_vec_u32}
use wasm_doctor.Decode.Progress.{IsWord, Vector, read_vec_u32-Vector}
use wasm_doctor.Validation.{
  Context, Validator, ◌>>=◌, ◌>>◌, pure, last_cframe, pop_valtype, pop_valtypes, peek_valtypes,
  push_valtypes, mark_unreachable, target_label_types, returntype,
}
use wasm_doctor.Validation.Safe.{Safe, Safe->>=, Safe-guard}
use wasm_doctor.Validation.Invariant.{Operands}
use wasm_doctor.Validation.Sound.{IsSound}
use wasm_doctor.Validation.Sound.Steps.{
  Sound, Sound->>=, frame_of, last_cframe-gives, pop_valtype-Sound, pop_valtypes-Sound,
  peek_valtypes-Sound, push_valtypes-Sound, mark_unreachable-Sound, target_label_types-Sound,
  returntype-Operands,
}
use wasm_doctor.Insn.{
  Code, process_unreachable, process_nop, process_br, keep_operands, process_br_if, check_labels,
  process_br_table, return_types, process_return,
}
use wasm_doctor.Insn.Reads.{IsReady, IsCode, Rest, Continues, Gives-then}

-- A step that only looks at the context.
abbrev Looks : {A : Type 0} → A → Context → A → Context → Type 0
Looks a ctx b c = (b ≡ a) × (c ≡ ctx)

Looks-then :
    {A B : Type 0} (Q : B → Context → Type 0) (m : Validator A) (k : A → Validator B)
    (ctx : Context) (a : A)
    → Safe (Looks a ctx) (m ctx)
    → Safe Q (k a ctx)
    → Safe Q ((m >>= k) ctx)
Looks-then Q m k ctx a l h =
    Safe->>= (Looks a ctx) Q m k ctx l
      λ b c (eb, ec). subst (λ b. Safe Q (k b c)) (sym eb) (subst (λ c. Safe Q (k a c)) (sym ec) h)

return_types-Looks :
    (code : Code) (rt : Resulttype) (ctx : Context)
    → returntype ctx.cframes ≡ some rt
    → Safe (Looks rt ctx) (return_types code ctx)
unfolding return_types
return_types-Looks code rt ctx e =
    elim (returntype ctx.cframes)
        as (λ r.
          r ≡ some rt → Safe (Looks rt ctx) (elim r [ none ↦ fault | some t ↦ ok (t, ctx) ])) [
            | none ↦ λ h. cc
            | some t ↦ λ h. (cc, refl)
          ]
      e

module _ (code : Code) (ready : IsReady code) where
  -- The operands of a branch that is always taken are popped, and what follows is unreachable.
  leave-Continues :
      (rt : Resulttype) (src p : List ℕ) (ctx : Context)
      → Rest src p
      → IsSound code.env ctx
      → Safe (Continues code src) ((pop_valtypes rt >> (mark_unreachable >> pure p)) ctx)
  leave-Continues rt src p ctx r s =
      Sound->>= code.env (Continues code src) (pop_valtypes rt) _ ctx
        (pop_valtypes-Sound code.env rt ctx s)
        λ _ c s'.
          Sound->>= code.env (Continues code src) mark_unreachable _ c
            (mark_unreachable-Sound code.env c s') λ _ d s''. (s'', r)

  -- In a sound context, the instruction `unreachable` leaves a sound context. No assertion fails
  -- but that of `valtype_cellsize` on `exnref`.
  pub process_unreachable-Continues :
      (src : List ℕ) (ctx : Context)
      → IsCode code src
      → IsSound code.env ctx
      → Safe (Continues code src) (process_unreachable code src ctx)
  unfolding process_unreachable
  process_unreachable-Continues src ctx (b, l) s =
      Sound->>= code.env (Continues code src) mark_unreachable _ ctx
        (mark_unreachable-Sound code.env ctx s) λ _ c s'. (s', (b, omega arith))

  pub process_nop-Continues :
      (src : List ℕ) (ctx : Context)
      → IsCode code src
      → IsSound code.env ctx
      → Safe (Continues code src) (process_nop code src ctx)
  unfolding process_nop
  process_nop-Continues src ctx (b, l) s = (s, (b, omega arith))

  -- In a sound context, the instruction `br` is an error, or leaves a sound context and goes
  -- forward. No assertion fails but that of `valtype_cellsize` on `exnref`.
  pub process_br-Continues :
      (src : List ℕ) (ctx : Context)
      → IsCode code src
      → IsSound code.env ctx
      → Safe (Continues code src) (process_br code src ctx)
  unfolding process_br
  process_br-Continues src ctx b s =
      Gives-then (λ v p. (v < 2 ^ 32) × Behind src p) (Continues code src) (read_leb_u32 src) _ ctx
        (read_leb_u32-Gives src b.0)
        λ labelidx p (_, (b', l)).
          Safe->>= (λ types c. IsSound code.env c × Operands false types) (Continues code src)
            (target_label_types labelidx) _ ctx (target_label_types-Sound code.env labelidx ctx s)
            λ rt c (s', os). leave-Continues rt src p c (b', omega arith) s'

  keep_operands-Sound :
      (rt : Resulttype) (ctx : Context)
      → Operands false rt
      → IsSound code.env ctx
      → Sound code.env (keep_operands code rt ctx)
  unfolding keep_operands
  keep_operands-Sound rt ctx os s =
      let (f, fs, e) = frame_of code.env ctx s in
      Looks-then (λ _ c. IsSound code.env c) last_cframe
        (λ g.
          if not g.unreachable
          then peek_valtypes rt
          else (pop_valtypes rt >> push_valtypes code.env rt))
        ctx f (last_cframe-gives f fs ctx e) (by_reach f.unreachable rt ctx os s)
    where
      by_reach :
          (u : Bool) (rt : Resulttype) (ctx : Context)
          → Operands false rt
          → IsSound code.env ctx
          → Sound code.env (
              (if not u then peek_valtypes rt else (pop_valtypes rt >> push_valtypes code.env rt))
                ctx)
      by_reach false rt ctx os s = peek_valtypes-Sound code.env rt ctx s
      by_reach true rt ctx os s =
          Sound->>= code.env (λ _ c. IsSound code.env c) (pop_valtypes rt)
            (λ _. push_valtypes code.env rt) ctx (pop_valtypes-Sound code.env rt ctx s)
            λ _ c s'. push_valtypes-Sound code.env ready.modest rt c os s'

  -- In a sound context of code that is ready, the instruction `br_if` is an error, or leaves a
  -- sound context and goes forward. No assertion fails but that of `valtype_cellsize` on `exnref`.
  pub process_br_if-Continues :
      (src : List ℕ) (ctx : Context)
      → IsCode code src
      → IsSound code.env ctx
      → Safe (Continues code src) (process_br_if code src ctx)
  unfolding process_br_if
  process_br_if-Continues src ctx b s =
      Gives-then (λ v p. (v < 2 ^ 32) × Behind src p) (Continues code src) (read_leb_u32 src) _ ctx
        (read_leb_u32-Gives src b.0)
        λ labelidx p (_, (b', l)).
          Sound->>= code.env (Continues code src) (pop_valtype i32) _ ctx
            (pop_valtype-Sound code.env i32 ctx s)
            λ _ c s'.
              Safe->>= (λ types d. IsSound code.env d × Operands false types) (Continues code src)
                (target_label_types labelidx) _ c (target_label_types-Sound code.env labelidx c s')
                λ rt d (s'', os).
                  Sound->>= code.env (Continues code src) (keep_operands code rt) _ d
                    (keep_operands-Sound rt d os s'') λ _ g s'''. (s''', (b', omega arith))

  check_labels-Sound :
      (arity : ℕ) (table : List ℕ) (ctx : Context)
      → IsSound code.env ctx
      → Sound code.env (check_labels code arity table ctx)
  unfolding check_labels
  check_labels-Sound arity [] ctx s = s
  check_labels-Sound arity (idx ∷ table) ctx s =
      Safe->>= (λ types c. IsSound code.env c × Operands false types) (λ _ c. IsSound code.env c)
        (target_label_types idx) _ ctx (target_label_types-Sound code.env idx ctx s)
        λ rt c (s', os).
          Safe-guard (λ _ c. IsSound code.env c) (length rt == arity) einval
            (peek_valtypes rt >> check_labels code arity table) c
            (Sound->>= code.env (λ _ c. IsSound code.env c) (peek_valtypes rt)
              (λ _. check_labels code arity table) c (peek_valtypes-Sound code.env rt c s')
              λ _ d s''. check_labels-Sound arity table d s'')

  pub process_br_table-Continues :
      (src : List ℕ) (ctx : Context)
      → IsCode code src
      → IsSound code.env ctx
      → Safe (Continues code src) (process_br_table code src ctx)
  unfolding process_br_table
  process_br_table-Continues src ctx b s =
      Gives-then (Vector IsWord src) (Continues code src) (read_vec_u32 code.realloc src) _ ctx
        (read_vec_u32-Vector code.realloc src b.0)
        λ table p (_, (b', l), _).
          Gives-then (λ v q. (v < 2 ^ 32) × Behind p q) (Continues code src) (read_leb_u32 p) _ ctx
            (read_leb_u32-Gives p b')
            λ defaultidx q (_, (b'', l')).
              Sound->>= code.env (Continues code src) (pop_valtype i32) _ ctx
                (pop_valtype-Sound code.env i32 ctx s)
                λ _ c s'.
                  Safe->>= (λ types d. IsSound code.env d × Operands false types)
                    (Continues code src) (target_label_types defaultidx) _ c
                    (target_label_types-Sound code.env defaultidx c s')
                    λ rt d (s'', os).
                      Sound->>= code.env (Continues code src) (check_labels code (length rt) table)
                        _ d (check_labels-Sound (length rt) table d s'')
                        λ _ g s'''. leave-Continues rt src q g (b'', omega arith) s'''

  -- The same for the instruction `return`.
  pub process_return-Continues :
      (src : List ℕ) (ctx : Context)
      → IsCode code src
      → IsSound code.env ctx
      → Safe (Continues code src) (process_return code src ctx)
  unfolding process_return
  process_return-Continues src ctx (b, l) s =
      let (rt, e, os) = returntype-Operands code.env ctx.cframes s.typed s.open_frame in
      Looks-then (Continues code src) (return_types code)
        (λ rt. pop_valtypes rt >> (mark_unreachable >> pure src)) ctx rt
        (return_types-Looks code rt ctx e) (leave-Continues rt src src ctx (b, omega arith) s)
