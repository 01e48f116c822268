-- ===== src/Validation/Safe.antt =====
-- Safety of a step of the validation: what holds of a success, and no fault.
use wasm_doctor.Prelude.{
  ◌≡◌, ◌≤◌, refl, arith, length, ◌∙◌, Result, ok, err, fault, Errno, guard, Bool, true, false,
}
use wasm_doctor.Validation.{Context, Validator, lift, ◌>>◌, ◌>>=◌}
use wasm_doctor.Validation.Invariant.{IsValid}

-- A success satisfies `P`; an error is allowed; a fault is not.
abbrev pub Safe : {A : Type 0} → (A → Context → Type 0) → Result (A × Context) → Type 0
Safe P (ok (a, ctx)) = P a ctx
Safe P (err e) = Unit
Safe P fault = ⊥

pub Safe->>= :
    {A B : Type 0} (P : A → Context → Type 0) (Q : B → Context → Type 0) (m : Validator A)
    (f : A → Validator B) (ctx : Context)
    → Safe P (m ctx)
    → ((a : A) (ctx' : Context) → P a ctx' → Safe Q (f a ctx'))
    → Safe Q ((m >>= f) ctx)
Safe->>= P Q m f ctx h k =
    elim (m ctx)
        as (λ r.
          Safe P r → Safe Q (elim r [ ok (a, ctx') ↦ f a ctx' | err e ↦ err e | fault ↦ fault ])) [
            | ok (a, ctx') ↦ λ p. k a ctx' p
            | err e ↦ λ p. tt
            | fault ↦ λ p. p
          ]
      h

-- The step leaves a valid context with the same frames and jumps.
pub record Keeps (ctx ctx' : Context) : Type 0 where
  pub valid : IsValid ctx'
  pub same_frames : ctx'.cframes ≡ ctx.cframes
  pub same_jumps : ctx'.jumps ≡ ctx.jumps
  pub more_cells : ctx.maxcells ≤ ctx'.maxcells
  pub same_labels : ctx'.maxlabels ≡ ctx.maxlabels

pub Keeps-refl : (ctx : Context) → IsValid ctx → Keeps ctx ctx
Keeps-refl ctx v = record {
  valid = v;
  same_frames = refl;
  same_jumps = refl;
  more_cells = omega arith;
  same_labels = refl;
}

pub Keeps-trans : (a b c : Context) → Keeps a b → Keeps b c → Keeps a c
Keeps-trans a b c k l = record {
  valid = l.valid;
  same_frames = l.same_frames ∙ k.same_frames;
  same_jumps = l.same_jumps ∙ k.same_jumps;
  more_cells = omega (arith, k.more_cells, l.more_cells);
  same_labels = l.same_labels ∙ k.same_labels;
}

-- A step that only pops.
abbrev pub Pops : Context → Context → Type 0
Pops ctx ctx' = Keeps ctx ctx' × (length ctx'.valtypes ≤ length ctx.valtypes)

pub Pops-trans : (a b c : Context) → Pops a b → Pops b c → Pops a c
Pops-trans a b c k l = (Keeps-trans a b c k.0 l.0, omega (arith, k.1, l.1))

pub Safe-mono :
    {A : Type 0} (P Q : A → Context → Type 0)
    → ((a : A) (ctx : Context) → P a ctx → Q a ctx)
    → (r : Result (A × Context)) → Safe P r
    → Safe Q r
Safe-mono P Q k (ok (a, ctx)) h = k a ctx h
Safe-mono P Q k (err e) h = tt
Safe-mono P Q k fault h = h

pub Safe-guard :
    {B : Type 0} (Q : B → Context → Type 0) (b : Bool) (e : Errno) (k : Validator B) (ctx : Context)
    → Safe Q (k ctx)
    → Safe Q ((lift (guard b e) >> k) ctx)
Safe-guard Q true e k ctx h = h
Safe-guard Q false e k ctx h = tt
