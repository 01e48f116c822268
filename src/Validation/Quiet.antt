-- ===== src/Validation/Quiet.antt =====
-- The steps of the validation, with the annotations and the bitmap of references.
use wasm_doctor.Prelude.{
  ℕ, ◌+◌, ◌≡◌, refl, ◌∙◌, Bool, true, false, ◌&&◌, List, [], ◌∷◌, length, arith, not, ◌==◌,
  if◌then◌else◌, Result, ok, err, fault, einval, guard, assert,
}
use mathlib.Core.List.{reverse}
use wasm_doctor.Types.{Valtype}
use wasm_doctor.Validation.{
  refusal, Ctrlframe, Context, Env, FrameOp, Validator, ◌>>=◌, ◌>>◌, pure, lift, gets, last_cframe,
  pop_pushed, pop_valtype, pop_each, pop_valtypes, peek_valtypes, mark_unreachable,
  target_label_types, fill_slot, has_slot, pop_ctrlframe, push_valtype, push_valtypes,
  push_ctrlframe, is_op, if_,
}

abbrev pub Same : Context → Context → Type 0
Same ctx c = (c.annotations ≡ ctx.annotations) × (c.refs ≡ ctx.refs)

abbrev pub Leaves : {A : Type 0} → Context → Result (A × Context) → Type 0
Leaves ctx (ok (a, c)) = Same ctx c
Leaves ctx (err e) = Unit
Leaves ctx fault = Unit

pub record Quiet {A : Type 0} (m : Validator A) : Type 0 where
  pub at : (ctx : Context) → Leaves ctx (m ctx)

pub Leaves-trans :
    {A : Type 0} (ctx c : Context) (r : Result (A × Context))
    → Same ctx c
    → Leaves c r
    → Leaves ctx r
Leaves-trans ctx c (ok (b, d)) h (x, y) = (x ∙ h.0, y ∙ h.1)
Leaves-trans ctx c (err e) h x = tt
Leaves-trans ctx c fault h x = tt

Leaves->>= :
    {A B : Type 0} (ctx : Context) (r : Result (A × Context)) (f : A → Validator B)
    → Leaves ctx r
    → ((a : A) → Quiet (f a))
    → Leaves ctx (elim r [ ok (a, c) ↦ f a c | err e ↦ err e | fault ↦ fault ])
Leaves->>= ctx (ok (a, c)) f h k = Leaves-trans ctx c (f a c) h ((k a).at c)
Leaves->>= ctx (err e) f h k = tt
Leaves->>= ctx fault f h k = tt

pub Quiet->>= :
    {A B : Type 0} {m : Validator A} {f : A → Validator B}
    → Quiet m
    → ((a : A) → Quiet (f a))
    → Quiet (m >>= f)
Quiet->>= {m} {f} q k = record { at = λ ctx. Leaves->>= ctx (m ctx) f (q.at ctx) k }

pub Quiet-pure : {A : Type 0} (a : A) → Quiet (pure a)
Quiet-pure a = record { at = λ ctx. (refl, refl) }

pub Quiet-lift : (r : Result (Unit {0})) → Quiet (lift r)
Quiet-lift (ok a) = record { at = λ ctx. (refl, refl) }
Quiet-lift (err e) = record { at = λ ctx. tt }
Quiet-lift fault = record { at = λ ctx. tt }

pub Quiet-gets : {A : Type 0} (f : Context → A) → Quiet (gets f)
Quiet-gets f = record { at = λ ctx. (refl, refl) }

pub Quiet-if :
    {A : Type 0} (b : Bool) {m n : Validator A} → Quiet m → Quiet n → Quiet (if b then m else n)
Quiet-if true q r = q
Quiet-if false q r = r

pub Quiet-modify :
    (g : Context → Context) → ((ctx : Context) → Same ctx (g ctx)) → Quiet (λ ctx. ok (tt, g ctx))
Quiet-modify g h = record { at = h }

ruleset quiet_rules = (Quiet->>=, Quiet-pure, Quiet-lift, Quiet-gets, Quiet-if)

pub last_cframe-Quiet : Quiet last_cframe
unfolding last_cframe
last_cframe-Quiet = record {
  at = λ ctx.
      elim ctx.cframes as (λ cs. Leaves ctx (elim cs [ [] ↦ fault | f ∷ fs ↦ ok (f, ctx) ])) [
        | [] ↦ tt
        | f ∷ fs ↦ (refl, refl)
      ];
}

pop_pushed-Quiet : (expected : Valtype) (f : Ctrlframe) → Quiet (pop_pushed expected f)
unfolding pop_pushed
pop_pushed-Quiet expected f = record {
  at = λ ctx.
      elim ctx.valtypes
        as (λ vs. Leaves ctx (pop_pushed expected f (record ctx { valtypes = vs }))) [
          | [] ↦ tt
          | t ∷ vs ↦ ground arith
        ];
}

pub pop_valtype-Quiet : (expected : Valtype) → Quiet (pop_valtype expected)
unfolding pop_valtype
pop_valtype-Quiet expected = search (quiet_rules, last_cframe-Quiet, pop_pushed-Quiet) depth 20

pop_each-Quiet : (ts : List Valtype) → Quiet (pop_each ts)
unfolding pop_each
pop_each-Quiet [] = Quiet-pure tt
pop_each-Quiet (t ∷ ts) = Quiet->>= (pop_valtype-Quiet t) (λ _. pop_each-Quiet ts)

pub pop_valtypes-Quiet : (ts : List Valtype) → Quiet (pop_valtypes ts)
unfolding pop_valtypes
pop_valtypes-Quiet ts = pop_each-Quiet (reverse ts)

pub peek_valtypes-Quiet : (ts : List Valtype) → Quiet (peek_valtypes ts)
unfolding peek_valtypes
peek_valtypes-Quiet ts = record {
  at = λ ctx.
      elim (pop_valtypes ts ctx)
          as (λ r.
            Leaves ctx r
            → Leaves ctx (elim r [
              | ok (_, c) ↦ ok (tt, record c { valtypes = ctx.valtypes; ncells = ctx.ncells })
              | err e ↦ err e
              | fault ↦ fault
            ])) [ ok (_, c) ↦ λ h. h | err e ↦ λ h. tt | fault ↦ λ h. tt ]
        ((pop_valtypes-Quiet ts).at ctx);
}

pub mark_unreachable-Quiet : Quiet mark_unreachable
unfolding mark_unreachable
mark_unreachable-Quiet = record { at = λ ctx. ground arith }

pub target_label_types-Quiet : (labelidx : ℕ) → Quiet (target_label_types labelidx)
unfolding target_label_types
target_label_types-Quiet labelidx = record { at = λ ctx. ground arith }

fill_slot-Quiet : (slot pc : ℕ) → Quiet (fill_slot slot pc)
unfolding fill_slot
fill_slot-Quiet slot pc = record { at = λ ctx. ground arith }

-- The end of `pop_ctrlframe`, in which a mismatch of the results is EINVAL.
results-Quiet :
    (ts : List Valtype)
    → Quiet
        (λ c. elim (pop_valtypes ts c) [ ok r ↦ ok r | err e ↦ err (refusal e) | fault ↦ fault ])
results-Quiet ts = record {
  at = λ c.
      elim (pop_valtypes ts c)
          as (λ r.
            Leaves c r
            → Leaves c (elim r [ ok r ↦ ok r | err e ↦ err (refusal e) | fault ↦ fault ])) [
              | ok r ↦ λ h. h
              | err e ↦ λ h. tt
              | fault ↦ λ h. tt
            ]
        ((pop_valtypes-Quiet ts).at c);
}

closed-Quiet :
    (f : Ctrlframe) (fs : List Ctrlframe) → Quiet (λ c. ok (f, record c { cframes = fs }))
closed-Quiet f fs = record { at = λ c. (refl, refl) }

module _ (env : Env) where
  pub push_valtype-Quiet : (t : Valtype) → Quiet (push_valtype env t)
  unfolding push_valtype last_cframe
  push_valtype-Quiet t = record { at = λ ctx. ground arith }

  pub push_valtypes-Quiet : (ts : List Valtype) → Quiet (push_valtypes env ts)
  unfolding push_valtypes
  push_valtypes-Quiet [] = Quiet-pure tt
  push_valtypes-Quiet (t ∷ ts) = Quiet->>= (push_valtype-Quiet t) (λ _. push_valtypes-Quiet ts)

  pub push_ctrlframe-Quiet :
      (pc : ℕ) (op : FrameOp) (jumpslot : ℕ) (start_types end_types : List Valtype)
      → Quiet (push_ctrlframe env pc op jumpslot start_types end_types)
  unfolding push_ctrlframe
  push_ctrlframe-Quiet pc op jumpslot start_types end_types =
      search (quiet_rules, push_valtypes-Quiet, Quiet-modify) depth 25

leave-Quiet :
    (pc : ℕ) (is_else b : Bool) (f : Ctrlframe) (fs : List Ctrlframe)
    → Quiet (do
      lift (guard (not (is_else && not (is_op f.op if_))) einval)
      if b then fill_slot (f.jumpslot + (if is_else then 1 else 0)) pc else pure tt
      λ c. elim (pop_valtypes f.end_types c) [
        | ok r ↦ ok r
        | err e ↦ err (refusal e)
        | fault ↦ fault
      ]
      lsize ← gets (λ c. length c.valtypes)
      ncells ← gets (λ c. c.ncells)
      lift (guard (lsize == f.height) einval)
      lift (assert (ncells == f.height_cell))
      λ c. ok (f, record c { cframes = fs }))
leave-Quiet pc is_else b f fs =
    search (quiet_rules, fill_slot-Quiet, results-Quiet, closed-Quiet) depth 25

pub pop_ctrlframe-Quiet : (pc : ℕ) (is_else : Bool) → Quiet (pop_ctrlframe pc is_else)
unfolding pop_ctrlframe
pop_ctrlframe-Quiet pc is_else = record {
  at = λ ctx.
      elim ctx.cframes
        as (λ cs. Leaves ctx (pop_ctrlframe pc is_else (record ctx { cframes = cs }))) [
          | [] ↦ tt
          | f ∷ fs ↦
              (leave-Quiet pc is_else (has_slot f.op ctx.jumps) f fs).at
                (record ctx { cframes = f ∷ fs })
        ];
}
