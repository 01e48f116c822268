-- ===== src/Validation/Sound/Steps.antt =====
-- The operations on operands keep what holds during the validation of an expression.
use wasm_doctor.Prelude.{
  ℕ, zero, suc, ◌+◌, ◌-◌, ◌%◌, ◌^◌, ◌≤◌, ◌≡◌, ◌≢◌, refl, sym, ◌∙◌, Bool, true, false, none, some,
  List, [], ◌∷◌, length, drop, get_elem?, Result, ok, err, fault, einval, arith, length-drop, inl,
  inr, Bool-cases, ◌||◌, ◌&&◌,
}
use wasm_doctor.Types.{Valtype, unknown, is, is_valtype}
use wasm_doctor.Validation.{
  Ctrlframe, Context, Env, Validator, last_cframe, pop_valtype, pop_valtypes, peek_valtypes,
  mark_unreachable, push_valtype, push_valtypes, target_label_types, label_types, is_op, loop,
  returntype, ◌>>=◌,
}
use wasm_doctor.Validation.Invariant.{Operands, IsValid}
use wasm_doctor.Validation.Safe.{Safe, Safe->>=, Safe-mono, Keeps, Pops}
use wasm_doctor.Validation.Operands.{Stands, PopsTo, pop_valtype-PopsTo, pop_valtypes-Pops}
use wasm_doctor.Validation.Pushes.{
  pushed, has_room, push_valtype-has_room, pushed-Keeps, value-IsPushable,
}
use wasm_doctor.Validation.Control.{mark_unreachable-IsValid}
use wasm_doctor.Validation.Sound.{IsModest, Typed, IsSound, Keeps-IsSound, cells_fit}

-- A step that leaves a sound context.
abbrev pub Sound : {A : Type 0} → Env → Result (A × Context) → Type 0
Sound env r = Safe (λ _ c. IsSound env c) r

-- One that keeps the frames, too.
abbrev pub Stays : Env → Context → Context → Type 0
Stays env ctx c = IsSound env c × (c.cframes ≡ ctx.cframes)

pub Sound->>= :
    {A B : Type 0} (env : Env) (Q : B → Context → Type 0) (m : Validator A) (k : A → Validator B)
    (ctx : Context)
    → Sound env (m ctx)
    → ((a : A) (c : Context) → IsSound env c → Safe Q (k a c))
    → Safe Q ((m >>= k) ctx)
Sound->>= env Q m k ctx = Safe->>= (λ _ c. IsSound env c) Q m k ctx

-- A sound context has an innermost frame.
pub frame_of :
    (env : Env) (ctx : Context)
    → IsSound env ctx
    → (f : Ctrlframe) × (fs : List Ctrlframe) × (ctx.cframes ≡ f ∷ fs)
frame_of env ctx s = nonempty ctx.cframes s.open_frame
  where
    nonempty :
        (cs : List Ctrlframe) → cs ≢ [] → (f : Ctrlframe) × (fs : List Ctrlframe) × (cs ≡ f ∷ fs)
    nonempty [] h = absurd (h refl)
    nonempty (f ∷ fs) h = (f, fs, refl)

pub last_cframe-gives :
    (f : Ctrlframe) (fs : List Ctrlframe) (ctx : Context)
    → ctx.cframes ≡ f ∷ fs
    → Safe (λ g c. (g ≡ f) × (c ≡ ctx)) (last_cframe ctx)
unfolding last_cframe
last_cframe-gives f fs ctx e =
    elim ctx.cframes
        as (λ cs.
          cs ≡ f ∷ fs
          → Safe (λ g c. (g ≡ f) × (c ≡ ctx)) (elim cs [ [] ↦ fault | g ∷ gs ↦ ok (g, ctx) ])) [
            | [] ↦ λ h. cc
            | g ∷ gs ↦ λ h. (cc, refl)
          ]
      e

module _ (env : Env) where
  pub Pops-IsSound : (ctx c : Context) → IsSound env ctx → Pops ctx c → IsSound env c
  Pops-IsSound ctx c s (k, l) = Keeps-IsSound env ctx c s k (omega (arith, s.few))

  pub pop_valtype-Sound :
      (expected : Valtype) (ctx : Context) → IsSound env ctx → Sound env (pop_valtype expected ctx)
  pop_valtype-Sound expected ctx s =
      Safe-mono (PopsTo expected ctx) _ (λ _ c p. Pops-IsSound ctx c s p.1)
        (pop_valtype expected ctx) (pop_valtype-PopsTo expected ctx s.valid s.open_frame)

  pub pop_valtypes-Sound :
      (types : List Valtype) (ctx : Context) → IsSound env ctx → Sound env (pop_valtypes types ctx)
  pop_valtypes-Sound types ctx s =
      Safe-mono (λ _ c. Pops ctx c) _ (λ _ c p. Pops-IsSound ctx c s p) (pop_valtypes types ctx)
        (pop_valtypes-Pops types ctx s.valid s.open_frame)

  pub pop_valtype-Stays :
      (expected : Valtype) (ctx : Context)
      → IsSound env ctx
      → Safe (λ _ c. Stays env ctx c) (pop_valtype expected ctx)
  pop_valtype-Stays expected ctx s =
      Safe-mono (PopsTo expected ctx) _ (λ _ c p. (Pops-IsSound ctx c s p.1, p.1.0.same_frames))
        (pop_valtype expected ctx) (pop_valtype-PopsTo expected ctx s.valid s.open_frame)

  pub pop_valtypes-Stays :
      (types : List Valtype) (ctx : Context)
      → IsSound env ctx
      → Safe (λ _ c. Stays env ctx c) (pop_valtypes types ctx)
  pop_valtypes-Stays types ctx s =
      Safe-mono (λ _ c. Pops ctx c) _ (λ _ c p. (Pops-IsSound ctx c s p, p.0.same_frames))
        (pop_valtypes types ctx) (pop_valtypes-Pops types ctx s.valid s.open_frame)

  restored-IsSound :
      (ctx c : Context)
      → IsSound env ctx
      → Keeps ctx c
      → IsSound env (record c { valtypes = ctx.valtypes; ncells = ctx.ncells })
  restored-IsSound ctx c s k = record {
    valid = record {
      frames = rw k.same_frames s.valid.frames;
      cells_bound = omega (arith, s.valid.cells_bound, k.more_cells);
      labels_bound = k.valid.labels_bound;
    };
    few = s.few;
    typed = rw k.same_frames s.typed;
    table = rw (k.same_frames, k.same_jumps) s.table;
    rooted = rw k.same_frames s.rooted;
    open_frame = rw k.same_frames s.open_frame;
  }

  pub peek_valtypes-Sound :
      (types : List Valtype) (ctx : Context) → IsSound env ctx → Sound env (peek_valtypes types ctx)
  unfolding peek_valtypes
  peek_valtypes-Sound types ctx s =
      elim (pop_valtypes types ctx)
          as (λ r.
            Safe (λ _ c. Pops ctx c) r
            → Sound env (elim r [
              | ok (_, c) ↦ ok (tt, record c { valtypes = ctx.valtypes; ncells = ctx.ncells })
              | err e ↦ err e
              | fault ↦ fault
            ])) [ ok (_, c) ↦ λ p. restored-IsSound ctx c s p.0 | err e ↦ λ _. tt | fault ↦ λ p. p ]
        (pop_valtypes-Pops types ctx s.valid s.open_frame)

  -- What mark_unreachable leaves.
  abbrev pub marked : Ctrlframe → List Ctrlframe → Context → Context
  marked f fs ctx = record ctx {
    valtypes = drop (length ctx.valtypes - f.height) ctx.valtypes;
    ncells = f.height_cell;
    cframes = record f { unreachable = true } ∷ fs;
  }

  mark_unreachable-marked :
      (f : Ctrlframe) (fs : List Ctrlframe) (ctx : Context)
      → ctx.cframes ≡ f ∷ fs
      → mark_unreachable ctx ≡ ok (tt, marked f fs ctx)
  unfolding mark_unreachable
  mark_unreachable-marked f fs ctx e = rw e refl

  marked-IsValid :
      (f : Ctrlframe) (fs : List Ctrlframe) (ctx : Context)
      → ctx.cframes ≡ f ∷ fs
      → IsValid ctx
      → IsValid (marked f fs ctx)
  marked-IsValid f fs ctx e v =
      (rw (mark_unreachable-marked f fs ctx e) at (mark_unreachable-IsValid f fs ctx e v)).0

  marked-IsSound :
      (f : Ctrlframe) (fs : List Ctrlframe) (ctx : Context)
      → ctx.cframes ≡ f ∷ fs
      → IsSound env ctx
      → IsSound env (marked f fs ctx)
  marked-IsSound f fs ctx e s = record {
    valid = marked-IsValid f fs ctx e s.valid;
    few = omega (arith, s.few, length-drop (length ctx.valtypes - f.height) ctx.valtypes);
    typed = rw e at s.typed;
    table = rw e at s.table;
    rooted = rw e at s.rooted;
    open_frame = λ h. cc;
  }

  pub mark_unreachable-Sound : (ctx : Context) → IsSound env ctx → Sound env (mark_unreachable ctx)
  mark_unreachable-Sound ctx s =
      let (f, fs, e) = frame_of env ctx s in
      rw (mark_unreachable-marked f fs ctx e) (marked-IsSound f fs ctx e s)

  pub Stands-value :
      (fs : List Ctrlframe) (t : Valtype)
      → (is_valtype t || (false && is t unknown)) ≡ true
      → Stands fs t
  Stands-value [] t h = tt
  Stands-value (f ∷ fs) t h = value-IsPushable f t h

  module _ (modest : IsModest env) where
    room-few : (l : ℕ) → l ≤ 2 ^ 28 → (l + (l + 1) % 2 ^ 32) % 2 ^ 32 ≤ 2 ^ 28 → suc l ≤ 2 ^ 28
    room-few l h r = omega arith

    pushed-Stays :
        (f : Ctrlframe) (t : Valtype) (ctx c : Context)
        → IsSound env ctx
        → c ≡ pushed f t ctx
        → IsValid c
        → has_room env ctx ≡ true
        → Stays env ctx c
    pushed-Stays f t ctx c s e v r =
        let k : Keeps ctx c = rw e (pushed-Keeps f t ctx (rw e at v)) in
        let l = room-few (length ctx.valtypes) s.few (modest _ r) in
        (Keeps-IsSound env ctx c s k (rw e (pushed-few f.unreachable l)), k.same_frames)
      where
        pushed-few :
            (u : Bool)
            → suc (length ctx.valtypes) ≤ 2 ^ 28
            → length (pushed f t ctx).valtypes ≤ 2 ^ 28
        pushed-few u h = ground (arith, h)

    -- Pushing a type that may stand in the innermost frame.
    pub push_valtype-back :
        (t : Valtype) (ctx : Context)
        → Stands ctx.cframes t
        → IsSound env ctx
        → Safe (λ _ c. Stays env ctx c) (push_valtype env t ctx)
    push_valtype-back t ctx o s =
        let (f, fs, e) = frame_of env ctx s in
        Safe-mono _ _ (λ _ c (v, ec, r). pushed-Stays f t ctx c s ec v r) (push_valtype env t ctx)
          (push_valtype-has_room env t f fs ctx e (rw e at o) (cells_fit env ctx t s) s.valid)

    pub push_valtype-Stays :
        (t : Valtype) (ctx : Context)
        → Operands false (t ∷ [])
        → IsSound env ctx
        → Safe (λ _ c. Stays env ctx c) (push_valtype env t ctx)
    push_valtype-Stays t ctx (o, _) s = push_valtype-back t ctx (Stands-value ctx.cframes t o) s

    pub push_valtypes-Stays :
        (ts : List Valtype) (ctx : Context)
        → Operands false ts
        → IsSound env ctx
        → Safe (λ _ c. Stays env ctx c) (push_valtypes env ts ctx)
    unfolding push_valtypes
    push_valtypes-Stays [] ctx os s = (s, refl)
    push_valtypes-Stays (t ∷ ts) ctx (o, os) s =
        Safe->>= (λ _ c. Stays env ctx c) (λ _ c. Stays env ctx c) (push_valtype env t)
          (λ _. push_valtypes env ts) ctx (push_valtype-Stays t ctx (o, tt) s)
          λ _ c (s', e).
            Safe-mono (λ _ d. Stays env c d) (λ _ d. Stays env ctx d)
              (λ _ d (s'', e'). (s'', e' ∙ e)) (push_valtypes env ts c)
              (push_valtypes-Stays ts c os s')

    pub push_valtypes-Sound :
        (ts : List Valtype) (ctx : Context)
        → Operands false ts
        → IsSound env ctx
        → Sound env (push_valtypes env ts ctx)
    push_valtypes-Sound ts ctx os s =
        Safe-mono (λ _ c. Stays env ctx c) _ (λ _ c h. h.0) (push_valtypes env ts ctx)
          (push_valtypes-Stays ts ctx os s)

  label_types-Operands :
      (f : Ctrlframe)
      → Operands false f.start_types
      → Operands false f.end_types
      → Operands false (label_types f)
  unfolding label_types
  label_types-Operands f a b = elim (Bool-cases (is_op f.op loop)) [
    | inl l ↦ rw l a
    | inr l ↦ rw l b
  ]

  Typed-get :
      (fs : List Ctrlframe) (i : ℕ) (f : Ctrlframe)
      → Typed fs
      → get_elem? fs i ≡ some f
      → Operands false (label_types f)
  Typed-get [] i f t e = cc
  Typed-get (g ∷ fs) zero f (a, b, t) e =
      let q : g ≡ f = cc in rw (sym q) (label_types-Operands g a b)
  Typed-get (g ∷ fs) (suc i) f (a, b, t) e = Typed-get fs i f t e

  -- A label of the enclosing frames.
  pub target_label_types-Sound :
      (labelidx : ℕ) (ctx : Context)
      → IsSound env ctx
      → Safe (λ types c. IsSound env c × Operands false types) (target_label_types labelidx ctx)
  unfolding target_label_types
  target_label_types-Sound labelidx ctx s =
      elim (get_elem? ctx.cframes labelidx)
          as (λ r.
            ((f : Ctrlframe) → r ≡ some f → Operands false (label_types f))
            → Safe (λ types c. IsSound env c × Operands false types)
                (elim r [ none ↦ err einval | some f ↦ ok (label_types f, ctx) ])) [
                  | none ↦ λ _. tt
                  | some f ↦ λ k. (s, k f refl)
                ]
        (λ f e. Typed-get ctx.cframes labelidx f s.typed e)

  -- The results of the function.
  pub returntype-Operands :
      (fs : List Ctrlframe)
      → Typed fs
      → fs ≢ []
      → (ts : List Valtype) × (returntype fs ≡ some ts) × Operands false ts
  unfolding returntype
  returntype-Operands [] t h = absurd (h refl)
  returntype-Operands (f ∷ []) (a, b, t) h = (f.end_types, refl, b)
  returntype-Operands (f ∷ g ∷ fs) (a, b, t) h = returntype-Operands (g ∷ fs) t (λ e. cc)
