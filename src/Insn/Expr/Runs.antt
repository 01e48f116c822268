-- ===== src/Insn/Expr/Runs.antt =====
-- The validation of an expression ends, with an error or with a context that can be used again.
use mathlib.Core.Path.{subst}
use wasm_doctor.Prelude.{
  ◌+◌, ◌-◌, ◌*◌, ◌≤◌, ℕ, zero, suc, ◌<◌, ◌≡◌, ◌≢◌, refl, sym, ap, Bool, true, false, not, ◌||◌,
  List, [], ◌∷◌, length, ◌==◌, einval, arith, inl, inr,
}
use wasm_doctor.Types.{Resulttype}
use wasm_doctor.Leb128.{IsBytes}
use wasm_doctor.Leb128.Forward.{Behind}
use wasm_doctor.Validation.{Context, Validator, invoke, pure, push_ctrlframe}
use wasm_doctor.Validation.Safe.{Safe, Safe->>=, Safe-mono, Safe-guard}
use wasm_doctor.Validation.Invariant.{Operands}
use wasm_doctor.Validation.Sound.{IsSound}
use wasm_doctor.Validation.Sound.Blocks.{Ready, Opens, invoke-Opens}
use wasm_doctor.Insn.{Code, is_empty_stack}
use wasm_doctor.Insn.Reads.{IsReady, IsFinished, Gives-then}
use wasm_doctor.Insn.Opcodes.{Desc, read_op}
use wasm_doctor.Insn.Expr.{
  instructions, read_insns, validation_context_reuse, clear_ei, read_expr_common,
}
use wasm_doctor.Insn.Carried.{Keeps, Carried, Carried-Same, Follows}
use wasm_doctor.Insn.Operations.{nfuncs}
use wasm_doctor.Insn.Steady.{Safe-Leaves}
use wasm_doctor.Validation.Quiet.{Same, push_ctrlframe-Quiet}
use wasm_doctor.Insn.Expr.Table.{AllKeep, instructions-AllKeep, read_op-Keeps}

-- What the loop ends in.
abbrev Finishes : List ℕ → List ℕ → Context → Type 0
Finishes src p ctx = IsFinished ctx × Behind src p

empty_stack : (ctx : Context) → ctx.cframes ≡ [] → is_empty_stack ctx ≡ true
unfolding is_empty_stack
empty_stack ctx e = ap (λ cs. length cs == 0) e

open_stack : (ctx : Context) → ctx.cframes ≢ [] → is_empty_stack ctx ≡ false
unfolding is_empty_stack
open_stack ctx h =
    elim ctx.cframes as (λ cs. cs ≢ [] → (length cs == 0) ≡ false) [
      | [] ↦ λ k. absurd (k refl)
      | f ∷ fs ↦ λ _. ground arith
    ]
      h

read_insns-Finishes :
    (code : Code) (table : ℕ → Desc) (const_expr : Bool) (fuel : ℕ) (src : List ℕ) (ctx : Context)
    → ((inst : ℕ) → AllKeep code (table inst))
    → length src < fuel
    → IsBytes src
    → length src < code.end_offset
    → IsSound code.env ctx
    → Carried code (code.end_offset - length src + 1) ctx
    → Safe (Finishes src) (read_insns table const_expr fuel src ctx)
unfolding read_insns
read_insns-Finishes code table const_expr zero src ctx k lt b h s ca = absurd (omega arith)
read_insns-Finishes code table const_expr (suc fuel) src ctx k lt b h s ca =
    Gives-then (λ i p. Keeps code i × Behind src p) (Finishes src) (read_op table src) _ ctx
      (read_op-Keeps code table src k b)
      λ i p (ki, (b', l)). Safe-guard (Finishes src) (not const_expr || i.is_const) einval _ ctx (
        Safe->>= (Follows code p) (Finishes src) (i.process p) _ ctx
          (ki p ctx (b', omega arith) s
            (Carried-Same code (code.end_offset - length src + 1) (code.end_offset - length p) ctx
              ctx (omega arith) (refl, refl) ca))
          λ p' c ((o, (b'', l'')), ca').
            let next = λ (d : Bool). Safe (Finishes src) (
              (elim d as (λ _. Validator (List ℕ)) [
                | true ↦ pure p'
                | false ↦ read_insns table const_expr fuel p'
              ])
                c) in
            elim o [
              | inr done ↦ subst next (sym (empty_stack c done.1)) (done, (b'', omega arith))
              | inl s' ↦ subst next (sym (open_stack c s'.open_frame)) (
                  Safe-mono (Finishes p') (Finishes src)
                    (λ q d (g, (b3, l3)). (g, (b3, omega arith)))
                    (read_insns table const_expr fuel p' c)
                    (read_insns-Finishes code table const_expr fuel p' c k (omega arith) b''
                      (omega arith) s' ca'))
            ])

-- A context between two expressions.
abbrev pub IsFresh : Context → Type 0
IsFresh ctx = (ctx.cframes ≡ []) × (ctx.valtypes ≡ []) × (ctx.ncells ≡ 0)

fresh-Ready :
    (code : Code) (result_types : Resulttype) (ctx : Context)
    → IsFresh ctx
    → Operands false result_types
    → Ready code.env invoke [] result_types (clear_ei ctx)
unfolding clear_ei
fresh-Ready code result_types ctx (f, v, n) os = record {
  valid = record {
    frames = rw f (v, n);
    cells_bound = omega arith;
    labels_bound = rw f (omega arith);
  };
  few = rw v (omega arith);
  typed = rw f tt;
  rooted = rw f tt;
  typed_start = tt;
  typed_end = os;
  root = rw f refl;
}

-- Where code is validated in a fresh context, against results that are value types, the validation
-- of an expression ends, with an error or behind its last instruction, in a context that is fresh
-- again. The bitmap of references has a bit for each function, and the other instructions keep
-- what holds of the context and go forward. No assertion fails but that of `valtype_cellsize` on
-- `exnref`. It is assumed that realloc grants no vector of more than 2^28 value types.
pub read_expr_common-IsFresh :
    (code : Code) (others : ℕ → Desc) (result_types : Resulttype) (src : List ℕ) (ctx : Context)
    → IsReady code
    → ((inst : ℕ) → AllKeep code (others inst))
    → Operands false result_types
    → IsBytes src
    → length src < code.end_offset
    → IsFresh ctx
    → nfuncs code ≤ 32 * length ctx.refs
    → Safe (λ p c. IsFresh c × Behind src p) (read_expr_common code others result_types src ctx)
unfolding read_expr_common clear_ei validation_context_reuse
read_expr_common-IsFresh code others result_types src ctx r o os b h fr fit =
    let c0 = clear_ei ctx in
    let insns = instructions code others in
    let push = push_ctrlframe code.env 0 invoke 0 [] result_types in
    Safe->>= (λ _ c. Opens code.env invoke 0 [] result_types c0 c × Same c0 c)
      (λ p c. IsFresh c × Behind src p) push _ c0
      (Safe-Leaves (λ _ c. Opens code.env invoke 0 [] result_types c0 c) c0 (push c0)
        (invoke-Opens code.env r.modest result_types c0 fr.0 refl
          (fresh-Ready code result_types ctx fr os))
        ((push_ctrlframe-Quiet code.env 0 invoke 0 [] result_types).at c0))
      λ _ c ((s, _), (an, rf)).
        Safe->>= (Finishes src) (λ p c. IsFresh c × Behind src p)
          (read_insns insns code.const_expr (suc (length src)) src) _ c
          (read_insns-Finishes code insns code.const_expr (suc (length src)) src c
            (instructions-AllKeep code others r o) (omega arith) b h s
            (record { noted = rw an tt; fit = rw rf fit }))
          λ p d (_, l). ((refl, refl, refl), l)
