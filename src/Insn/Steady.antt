-- ===== src/Insn/Steady.antt =====
-- What a step on operands keeps: the context is sound, and the frames, the annotations and the bitmap
-- of references are the same.
use wasm_doctor.Prelude.{◌≡◌, refl, ◌∙◌, Bool, true, false, Result, ok, err, fault, Errno, guard}
use wasm_doctor.Types.{Valtype, is_valtype}
use wasm_doctor.Types.Lookup.Typed.{Yields}
use wasm_doctor.Validation.{
  Context, Env, Validator, ◌>>=◌, ◌>>◌, pure, lift, pop_valtype, push_valtype,
}
use wasm_doctor.Validation.Safe.{Safe, Safe->>=, Safe-mono}
use wasm_doctor.Validation.Operands.{Stands, PopsTo, pop_valtype-PopsTo}
use wasm_doctor.Validation.Sound.{IsModest, IsSound}
use wasm_doctor.Validation.Sound.Steps.{Stays, Pops-IsSound, Stands-value, push_valtype-back}
use wasm_doctor.Validation.Quiet.{Same, Leaves, pop_valtype-Quiet, push_valtype-Quiet}
use wasm_doctor.Insn.{Code, lift_result}
use wasm_doctor.Insn.Operations.{pop, push}

abbrev pub Remains : Env → Context → Context → Type 0
Remains env ctx c = IsSound env c × (c.cframes ≡ ctx.cframes) × Same ctx c

pub Remains-refl : (env : Env) (ctx : Context) → IsSound env ctx → Remains env ctx ctx
Remains-refl env ctx s = (s, refl, (refl, refl))

pub Remains-trans :
    (env : Env) (a b c : Context) → Remains env a b → Remains env b c → Remains env a c
Remains-trans env a b c (s, f, (x, y)) (s', f', (x', y')) = (s', f' ∙ f, (x' ∙ x, y' ∙ y))

-- A success of a quiet step.
pub Safe-Leaves :
    {A : Type 0} (P : A → Context → Type 0) (ctx : Context) (r : Result (A × Context))
    → Safe P r
    → Leaves ctx r
    → Safe (λ a c. P a c × Same ctx c) r
Safe-Leaves P ctx (ok (a, c)) h l = (h, l)
Safe-Leaves P ctx (err e) h l = tt
Safe-Leaves P ctx fault h l = h

pub record Steady (env : Env) {A : Type 0} (m : Validator A) : Type 0 where
  pub at : (ctx : Context) → IsSound env ctx → Safe (λ _ c. Remains env ctx c) (m ctx)

module _ {env : Env} where
  pub Steady->>= :
      {A B : Type 0} {m : Validator A} {f : A → Validator B}
      → Steady env m
      → ((a : A) → Steady env (f a))
      → Steady env (m >>= f)
  Steady->>= {m} {f} q k = record {
    at = λ ctx s.
        Safe->>= (λ _ c. Remains env ctx c) (λ _ c. Remains env ctx c) m f ctx (q.at ctx s)
          λ a c r.
            Safe-mono (λ _ d. Remains env c d) (λ _ d. Remains env ctx d)
              (λ _ d. Remains-trans env ctx c d r) (f a c) ((k a).at c r.0);
  }

  pub Steady-pure : {A : Type 0} (a : A) → Steady env (pure a)
  Steady-pure a = record { at = λ ctx s. Remains-refl env ctx s }

  -- A guard that holds is known to hold behind it.
  pub Steady-guard :
      {B : Type 0} (b : Bool) (e : Errno) {k : Validator B}
      → (b ≡ true → Steady env k)
      → Steady env (lift (guard b e) >> k)
  Steady-guard true e h = record { at = (h refl).at }
  Steady-guard false e h = record { at = λ ctx s. tt }

  pub Steady-last_guard : (b : Bool) (e : Errno) → Steady env (lift (guard b e))
  Steady-last_guard true e = record { at = λ ctx s. Remains-refl env ctx s }
  Steady-last_guard false e = record { at = λ ctx s. tt }

  pub Steady-Yields :
      {A B : Type 0} (P : A → Type 0) (r : Result A) {k : A → Validator B}
      → Yields P r
      → ((a : A) → P a → Steady env (k a))
      → Steady env (lift_result r >>= k)
  Steady-Yields P (ok a) h f = record { at = (f a h).at }
  Steady-Yields P (err e) h f = record { at = λ ctx s. tt }
  Steady-Yields P fault h f = absurd h

-- A step that gives a value of which something is known.
abbrev pub Gives : {A : Type 0} → Env → (A → Type 0) → Validator A → Type 0
Gives env P m = (ctx : Context) → IsSound env ctx → Safe (λ a c. P a × Remains env ctx c) (m ctx)

pub Gives->>= :
    {env : Env} {A B : Type 0} (P : A → Type 0) (m : Validator A) {k : A → Validator B}
    → Gives env P m
    → ((a : A) → P a → Steady env (k a))
    → Steady env (m >>= k)
Gives->>= {env} P m {k} g h = record {
  at = λ ctx s.
      Safe->>= (λ a c. P a × Remains env ctx c) (λ _ c. Remains env ctx c) m k ctx (g ctx s)
        λ a c (p, r).
          Safe-mono (λ _ d. Remains env c d) (λ _ d. Remains env ctx d)
            (λ _ d. Remains-trans env ctx c d r) (k a c) ((h a p).at c r.0);
}

-- A value of the module, behind the check of its index.
pub Gives-checked :
    {env : Env} {A : Type 0} (P : A → Type 0) (b : Bool) (e : Errno) (r : Result A)
    → (b ≡ true → Yields P r)
    → Gives env P (lift (guard b e) >> lift_result r)
Gives-checked {env} P true e (ok a) h ctx s = (h refl, Remains-refl env ctx s)
Gives-checked P true e (err c) h ctx s = tt
Gives-checked P true e fault h ctx s = h refl
Gives-checked P false e r h ctx s = tt

-- What `pop_valtype` gives, with what it keeps.
pub pop_valtype-Remains :
    (env : Env) (expected : Valtype) (ctx : Context)
    → IsSound env ctx
    → Safe (λ t c. Remains env ctx c × Stands c.cframes t) (pop_valtype expected ctx)
pop_valtype-Remains env expected ctx s =
    Safe-mono (λ t c. PopsTo expected ctx t c × Same ctx c) _
      (λ t c (p, q).
        ((Pops-IsSound env ctx c s p.1, p.1.0.same_frames, q), rw p.1.0.same_frames p.2))
      (pop_valtype expected ctx)
      (Safe-Leaves (PopsTo expected ctx) ctx (pop_valtype expected ctx)
        (pop_valtype-PopsTo expected ctx s.valid s.open_frame)
        ((pop_valtype-Quiet expected).at ctx))

pub push_valtype-Remains :
    (env : Env) (t : Valtype) (ctx : Context)
    → IsModest env
    → Stands ctx.cframes t
    → IsSound env ctx
    → Safe (λ _ c. Remains env ctx c) (push_valtype env t ctx)
push_valtype-Remains env t ctx modest o s =
    Safe-mono (λ _ c. Stays env ctx c × Same ctx c) _ (λ _ c (p, q). (p.0, p.1, q))
      (push_valtype env t ctx)
      (Safe-Leaves (λ _ c. Stays env ctx c) ctx (push_valtype env t ctx)
        (push_valtype-back env modest t ctx o s) ((push_valtype-Quiet env t).at ctx))

module _ (code : Code) where
  pub pop-Steady : (t : Valtype) → Steady code.env (pop code t)
  unfolding pop
  pop-Steady t = record {
    at = λ ctx s.
        Safe->>= (λ t c. Remains code.env ctx c × Stands c.cframes t)
          (λ _ c. Remains code.env ctx c) (pop_valtype t) (λ _. pure tt) ctx
          (pop_valtype-Remains code.env t ctx s) λ _ c r. r.0;
  }

  pub push-Steady :
      (t : Valtype) → IsModest code.env → is_valtype t ≡ true → Steady code.env (push code t)
  unfolding push
  push-Steady t modest v = record {
    at = λ ctx s.
        push_valtype-Remains code.env t ctx modest (Stands-value code.env ctx.cframes t (rw v refl))
          s;
  }
