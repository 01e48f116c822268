-- ===== src/Validation/Operands.antt =====
-- Pushing and popping operands: the invariant and the assertions.
use mathlib.Core.List.{reverse}
use wasm_doctor.Prelude.{
  xassert, ℕ, suc, ◌-◌, ◌≤◌, ◌≡◌, ◌≢◌, refl, Bool, true, false, not, ◌&&◌, ◌||◌, List, [], ◌∷◌,
  length, leb, ◌==◌, if◌then◌else◌, Result, ok, err, fault, einval, guard, arith, ==_eq, Bool-cases,
  inl, inr, le→leb,
}
use wasm_doctor.Types.{exnref, counted, Valtype, anyref, unknown, is, is_valtype, cellsize}
use wasm_doctor.Validation.{
  Ctrlframe, Context, Jump, Annotations, last_cframe, pop_valtype, pop_pushed, mismatch, lift, pure,
  ◌>>◌, lift, pure, ◌>>◌, pop_each, pop_valtypes,
}
use wasm_doctor.Validation.Safe.{Safe, Safe->>=, Safe-mono, Keeps-refl, Pops, Pops-trans}
use wasm_doctor.Validation.Invariant.{Frames, IsValid, Frames-tail}

-- A type that may be pushed: a value type, or the unknown type under an unreachable frame.
abbrev pub IsPushable : Ctrlframe → Valtype → Type 0
IsPushable f t = (is_valtype t || (f.unreachable && is t unknown)) ≡ true

-- valtype_cellsize is not asked for the cells of an `exnref`.
abbrev pub countable : Ctrlframe → Valtype → Bool
countable f t = f.unreachable || not (is t exnref)

pub counted-countable :
    (u : Bool) (t : Valtype)
    → (is_valtype t || (u && is t unknown)) ≡ true
    → (if u then ok tt else counted t) ≡ guard (u || not (is t exnref)) xassert
counted-countable true t h = refl
counted-countable false Valtype.anyref h = cc
counted-countable false Valtype.unknown h = cc
counted-countable false Valtype.exnref h = refl
counted-countable false Valtype.i32 h = refl
counted-countable false Valtype.i64 h = refl
counted-countable false Valtype.f32 h = refl
counted-countable false Valtype.f64 h = refl
counted-countable false Valtype.v128 h = refl
counted-countable false Valtype.funcref h = refl
counted-countable false Valtype.externref h = refl

-- What popping an operand from a valid stack does, case by case.
abbrev pub popped : Valtype → Ctrlframe → Context → Result (Valtype × Context)
popped expected f ctx =
    if length ctx.valtypes == f.height
    then (if f.unreachable then ok (unknown, ctx) else err einval)
    else elim ctx.valtypes [
      | [] ↦ fault
      | t ∷ rest ↦
          if not (countable f t)
          then err xassert
          else if mismatch expected t
          then err einval
          else ok (
            t,
            record ctx {
              valtypes = rest;
              ncells = if f.unreachable then ctx.ncells else ctx.ncells - cellsize t;
            },
          )
    ]

-- The assertions of `pop_valtype` on an operand that was pushed.
pub IsPushable-anyref :
    (u : Bool) (t : Valtype) → (is_valtype t || (u && is t unknown)) ≡ true → is t anyref ≡ false
IsPushable-anyref u Valtype.anyref h = ground arith
IsPushable-anyref u _ h = refl

pub IsPushable-unknown :
    (u : Bool) (t : Valtype)
    → (is_valtype t || (u && is t unknown)) ≡ true
    → (not (is t unknown) || u) ≡ true
IsPushable-unknown u Valtype.unknown h = ground arith
IsPushable-unknown u _ h = refl

cells-enough : (u : Bool) (k n : ℕ) → (u ≡ false → k ≤ n) → (u || leb k n) ≡ true
cells-enough true k n h = refl
cells-enough false k n h = le→leb k n (h refl)

guard-pure :
    (m : Bool) (t : Valtype) (ctx : Context)
    → (lift (guard (not m) einval) >> pure t) ctx ≡ (if m then err einval else ok (t, ctx))
guard-pure true t ctx = refl
guard-pure false t ctx = refl

counted-pure :
    (g m : Bool) (t : Valtype) (ctx : Context)
    → (lift (guard g xassert) >> (lift (guard (not m) einval) >> pure t)) ctx
      ≡ (if not g then err xassert else if m then err einval else ok (t, ctx))
counted-pure true m t ctx = guard-pure m t ctx
counted-pure false m t ctx = refl

module _ (f : Ctrlframe) (fs : List Ctrlframe) (mc ml : ℕ) (js : List Jump) (an : Annotations)
    (rf : List ℕ) where
  -- A context with the frame `f` innermost.
  abbrev pub context : List Valtype → ℕ → Context
  context vs n = record {
    cframes = f ∷ fs;
    valtypes = vs;
    ncells = n;
    maxcells = mc;
    maxlabels = ml;
    jumps = js;
    annotations = an;
    refs = rf;
  }

  pop_pushed-popped :
      (expected t : Valtype) (vs : List Valtype) (n : ℕ)
      → IsPushable f t
      → (f.unreachable ≡ false → cellsize t ≤ n)
      → pop_pushed expected f (context (t ∷ vs) n) ≡ (
          if not (countable f t)
          then err xassert
          else if mismatch expected t
          then err einval
          else ok (t, context vs (if f.unreachable then n else n - cellsize t)))
  unfolding pop_pushed
  pop_pushed-popped expected t vs n p lt =
      rw
        (
          IsPushable-anyref f.unreachable t p,
          IsPushable-unknown f.unreachable t p,
          counted-countable f.unreachable t p,
          cells-enough f.unreachable (cellsize t) n lt,
        )
        (counted-pure (countable f t) (mismatch expected t) t _)

  pop_valtype-popped :
      (expected : Valtype) (vs : List Valtype) (n : ℕ)
      → Frames (f ∷ fs) vs n
      → pop_valtype expected (context vs n) ≡ popped expected f (context vs n)
  unfolding pop_valtype last_cframe pop_pushed
  pop_valtype-popped expected [] n fr = ground arith
  pop_valtype-popped expected (t ∷ vs) n fr = elim (Bool-cases (suc (length vs) == f.height)) [
    | inl e ↦ ground arith
    | inr e ↦
        let (tl, pt, lt) = Frames-tail f fs t vs n (ground arith) fr in
        rw (le→leb f.height (suc (length vs)) fr.0, le→leb f.height_cell n (ground arith), e)
          (pop_pushed-popped expected t vs n pt lt)
  ]

-- What may stand in the innermost frame.
abbrev pub Stands : List Ctrlframe → Valtype → Type 0
Stands [] t = Unit
Stands (f ∷ fs) t = (is_valtype t || (f.unreachable && is t unknown)) ≡ true

-- The operand is not refused, the context stays valid, and the operand may stand in the frame.
abbrev pub PopsTo : Valtype → Context → Valtype → Context → Type 0
PopsTo expected ctx t ctx' = (mismatch expected t ≡ false) × Pops ctx ctx' × Stands ctx.cframes t

top-PopsTo :
    (expected t : Valtype) (f : Ctrlframe) (fs : List Ctrlframe) (vs : List Valtype) (n mc ml : ℕ)
    (js : List Jump) (an : Annotations) (rf : List ℕ)
    → f.height ≤ length vs
    → IsValid (context f fs mc ml js an rf (t ∷ vs) n)
    → Safe (PopsTo expected (context f fs mc ml js an rf (t ∷ vs) n)) (
        if not (countable f t)
        then err xassert
        else if mismatch expected t
        then err einval
        else ok (t, context f fs mc ml js an rf vs (if f.unreachable then n else n - cellsize t)))
top-PopsTo expected t f fs vs n mc ml js an rf h v = elim (Bool-cases (countable f t)) [
  | inr c ↦ rw c tt
  | inl c ↦ rw c (elim (Bool-cases (mismatch expected t)) [
    | inl e ↦ rw e tt
    | inr e ↦ rw e (
      e,
      (
        record {
          valid = record {
            frames = (Frames-tail f fs t vs n h v.frames).0;
            cells_bound = ground (arith, v.cells_bound);
            labels_bound = v.labels_bound;
          };
          same_frames = refl;
          same_jumps = refl;
          more_cells = omega arith;
          same_labels = refl;
        },
        omega arith,
      ),
      (Frames-tail f fs t vs n h v.frames).1,
    )
  ])
]

bottom-PopsTo :
    (expected : Valtype) (u : Bool) (ctx : Context)
    → IsValid ctx
    → (u ≡ true → Stands ctx.cframes unknown)
    → Safe (PopsTo expected ctx) (if u then ok (unknown, ctx) else err einval)
bottom-PopsTo expected true ctx v k = (ground arith, (Keeps-refl ctx v, omega arith), k refl)
bottom-PopsTo expected false ctx v k = tt

popped-PopsTo :
    (expected : Valtype) (f : Ctrlframe) (fs : List Ctrlframe) (vs : List Valtype) (n mc ml : ℕ)
    (js : List Jump) (an : Annotations) (rf : List ℕ)
    → IsValid (context f fs mc ml js an rf vs n)
    → Safe
        (PopsTo expected (context f fs mc ml js an rf vs n))
        (popped expected f (context f fs mc ml js an rf vs n))
popped-PopsTo expected f fs [] n mc ml js an rf v =
    rw (==_eq 0 f.height (omega (arith, v.frames.0)))
      (bottom-PopsTo expected f.unreachable (context f fs mc ml js an rf [] n) v (λ u. rw u refl))
popped-PopsTo expected f fs (t ∷ vs) n mc ml js an rf v =
    elim (Bool-cases (suc (length vs) == f.height)) [
      | inl e ↦ rw e (
          bottom-PopsTo expected f.unreachable (context f fs mc ml js an rf (t ∷ vs) n) v
            (λ u. rw u refl))
      | inr e ↦ rw e (top-PopsTo expected t f fs vs n mc ml js an rf (ground arith) v)
    ]

pop_fields-PopsTo :
    (expected : Valtype) (cs : List Ctrlframe) (vs : List Valtype) (n mc ml : ℕ) (js : List Jump)
    (an : Annotations) (rf : List ℕ) (ctx : Context)
    → ctx ≡ record {
      cframes = cs;
      valtypes = vs;
      ncells = n;
      maxcells = mc;
      maxlabels = ml;
      jumps = js;
      annotations = an;
      refs = rf;
    }
    → IsValid ctx
    → cs ≢ []
    → Safe (PopsTo expected ctx) (pop_valtype expected ctx)
pop_fields-PopsTo expected [] vs n mc ml js an rf ctx e v ne = absurd (ne refl)
pop_fields-PopsTo expected (f ∷ fs) vs n mc ml js an rf ctx e v ne =
    let v' : IsValid (context f fs mc ml js an rf vs n) = rw e at v in
    rw e (
      rw (pop_valtype-popped f fs mc ml js an rf expected vs n v'.frames)
        (popped-PopsTo expected f fs vs n mc ml js an rf v'))

-- In a valid context with a frame, popping an operand of a type is an error, or ends in a valid
-- context with the same frames and gives an operand that the type does not refuse. No assertion
-- fails but that of `valtype_cellsize` on `exnref`.
pub pop_valtype-PopsTo :
    (expected : Valtype) (ctx : Context)
    → IsValid ctx
    → ctx.cframes ≢ []
    → Safe (PopsTo expected ctx) (pop_valtype expected ctx)
pop_valtype-PopsTo expected ctx v ne =
    pop_fields-PopsTo expected ctx.cframes ctx.valtypes ctx.ncells ctx.maxcells ctx.maxlabels
      ctx.jumps ctx.annotations ctx.refs ctx refl v ne

-- The same for the operands of a list.
pub pop_each-Pops :
    (ts : List Valtype) (ctx : Context)
    → IsValid ctx
    → ctx.cframes ≢ []
    → Safe (λ _ ctx'. Pops ctx ctx') (pop_each ts ctx)
unfolding pop_each
pop_each-Pops [] ctx v ne = (Keeps-refl ctx v, omega arith)
pop_each-Pops (t ∷ ts) ctx v ne =
    Safe->>= (PopsTo t ctx) (λ _ ctx'. Pops ctx ctx') (pop_valtype t) (λ _. pop_each ts) ctx
      (pop_valtype-PopsTo t ctx v ne)
      λ a ctx' p.
        Safe-mono (λ _ c. Pops ctx' c) (λ _ c. Pops ctx c) (λ _ c. Pops-trans ctx ctx' c p.1)
          (pop_each ts ctx') (pop_each-Pops ts ctx' p.1.0.valid (rw p.1.0.same_frames ne))

-- In a valid context with a frame, popping the operands of a list of types is an error, or ends in
-- a valid context with the same frames. No assertion fails but that of `valtype_cellsize` on
-- `exnref`.
pub pop_valtypes-Pops :
    (types : List Valtype) (ctx : Context)
    → IsValid ctx
    → ctx.cframes ≢ []
    → Safe (λ _ ctx'. Pops ctx ctx') (pop_valtypes types ctx)
unfolding pop_valtypes
pop_valtypes-Pops types = pop_each-Pops (reverse types)
