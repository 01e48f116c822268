-- ===== src/Validation/Pushes.antt =====
-- Pushing operands: the invariant and the assertions.
use wasm_doctor.Prelude.{
  xassert, ℕ, ◌+◌, ◌%◌, ◌^◌, ◌≤◌, ◌<◌, max, ◌≡◌, refl, ap, ◌∙◌, Bool, true, false, not, ◌&&◌, ◌||◌,
  List, [], ◌∷◌, length, ◌==◌, if◌then◌else◌, Result, ok, err, eoverflow, enomem, guard, arith,
}
use wasm_doctor.Types.{Valtype, unknown, is, is_valtype, cellsize, cells}
use wasm_doctor.Validation.{
  Ctrlframe, Context, Env, Jump, Annotations, last_cframe, push_valtype, push_valtypes, count_cells,
  lift, ◌>>◌,
}
use wasm_doctor.Validation.Invariant.{Operands, IsValid, Frames-cons}
use wasm_doctor.Validation.Operands.{
  countable, counted-countable, IsPushable, context, IsPushable-anyref, IsPushable-unknown,
}
use wasm_doctor.Validation.Safe.{Safe, Safe->>=, Safe-mono, Keeps, Keeps-refl, Keeps-trans}

mod_small : (n : ℕ) → n < 2 ^ 32 → n % 2 ^ 32 ≡ n
mod_small n h = omega arith

add_zero : (n : ℕ) → n + 0 ≡ n
add_zero n = omega arith

max_bound : (n m : ℕ) → n ≤ m → max m n ≡ m
max_bound n m h = omega arith

-- What a successful push leaves.
abbrev pub pushed : Ctrlframe → Valtype → Context → Context
pushed f t ctx =
    let c : Context = record ctx { valtypes = t ∷ ctx.valtypes } in
    if f.unreachable then c else count_cells t c

counted-eq :
    (u : Bool) (k : ℕ) (c : Context)
    → c.ncells ≤ c.maxcells
    → c.ncells + k < 2 ^ 32
    → (if u then c else record c {
      ncells = (c.ncells + k) % 2 ^ 32;
      maxcells = max c.maxcells ((c.ncells + k) % 2 ^ 32);
    })
      ≡ record c {
        ncells = c.ncells + (if u then 0 else k);
        maxcells = max c.maxcells (c.ncells + (if u then 0 else k));
      }
counted-eq true k c b lt = rw (add_zero c.ncells, max_bound c.ncells c.maxcells b) refl
counted-eq false k c b lt = rw (mod_small (c.ncells + k) lt) refl

abbrev pub pushes : Env → Ctrlframe → Valtype → Context → Result (Unit {0} × Context)
pushes env f t ctx =
    if (length ctx.valtypes + 1) % 2 ^ 32 == 0
    then err eoverflow
    else if env.valtypes_room ((length ctx.valtypes + (length ctx.valtypes + 1) % 2 ^ 32) % 2 ^ 32)
    then (if countable f t then ok (tt, pushed f t ctx) else err xassert)
    else err enomem

guards-eq :
    (z r g : Bool) (k : Context → Context) (ctx : Context)
    → (lift (guard (not z) eoverflow)
          >> (lift (guard r enomem) >> (lift (guard g xassert) >> λ c. ok (tt, k c))))
        ctx
      ≡ (if z
          then err eoverflow
          else if r
          then (if g then ok (tt, k ctx) else err xassert)
          else err enomem)
guards-eq true r g k ctx = refl
guards-eq false true true k ctx = refl
guards-eq false true false k ctx = refl
guards-eq false false g k ctx = refl

Safe-if :
    (P : Unit {0} → Context → Type 0) (z r g : Bool) (ctx : Context)
    → (r ≡ true → P tt ctx)
    → Safe P (
        if z
        then err eoverflow
        else if r
        then (if g then ok (tt, ctx) else err xassert)
        else err enomem)
Safe-if P true r g ctx p = tt
Safe-if P false true true ctx p = p refl
Safe-if P false true false ctx p = tt
Safe-if P false false g ctx p = tt

-- realloc has given room for one more operand than there are.
abbrev pub has_room : Env → Context → Bool
has_room env ctx =
    env.valtypes_room ((length ctx.valtypes + (length ctx.valtypes + 1) % 2 ^ 32) % 2 ^ 32)

module _ (env : Env) (f : Ctrlframe) (fs : List Ctrlframe) (mc ml : ℕ) (js : List Jump)
    (an : Annotations) (rf : List ℕ) where
  push_valtype-pushes :
      (t : Valtype) (vs : List Valtype) (n : ℕ)
      → IsPushable f t
      → push_valtype env t (context f fs mc ml js an rf vs n)
        ≡ pushes env f t (context f fs mc ml js an rf vs n)
  unfolding push_valtype last_cframe
  push_valtype-pushes t vs n p =
      rw
        (
          IsPushable-anyref f.unreachable t p,
          IsPushable-unknown f.unreachable t p,
          counted-countable f.unreachable t p,
        )
        (guards-eq ((length vs + 1) % 2 ^ 32 == 0)
          (env.valtypes_room ((length vs + (length vs + 1) % 2 ^ 32) % 2 ^ 32)) (countable f t)
          (pushed f t) (context f fs mc ml js an rf vs n))

  pushed-IsValid :
      (t : Valtype) (vs : List Valtype) (n : ℕ)
      → IsPushable f t
      → n + cellsize t < 2 ^ 32
      → IsValid (context f fs mc ml js an rf vs n)
      → IsValid (pushed f t (context f fs mc ml js an rf vs n))
  pushed-IsValid t vs n p lt v =
      rw
        (counted-eq f.unreachable (cellsize t) (context f fs mc ml js an rf (t ∷ vs) n)
          v.cells_bound lt)
        (record {
          frames = Frames-cons f fs t vs n p v.frames;
          cells_bound = omega arith;
          labels_bound = v.labels_bound;
        })

  push_valtype-Keeps :
      (t : Valtype) (vs : List Valtype) (n : ℕ)
      → IsPushable f t
      → n + cellsize t < 2 ^ 32
      → IsValid (context f fs mc ml js an rf vs n)
      → Safe
          (λ _ ctx'.
            IsValid ctx'
            × (ctx' ≡ pushed f t (context f fs mc ml js an rf vs n))
            × (has_room env (context f fs mc ml js an rf vs n) ≡ true))
          (push_valtype env t (context f fs mc ml js an rf vs n))
  push_valtype-Keeps t vs n p lt v = rw (push_valtype-pushes t vs n p) (
      Safe-if _ ((length vs + 1) % 2 ^ 32 == 0) (has_room env (context f fs mc ml js an rf vs n))
        (countable f t) _ (λ r. (pushed-IsValid t vs n p lt v, refl, r)))

abbrev with_cframes : Context → List Ctrlframe → Context
with_cframes ctx cs = record ctx { cframes = cs }

-- A push of a type that may stand there, and the room that realloc has given for it.
pub push_valtype-has_room :
    (env : Env) (t : Valtype) (f : Ctrlframe) (fs : List Ctrlframe) (ctx : Context)
    → ctx.cframes ≡ f ∷ fs
    → IsPushable f t
    → ctx.ncells + cellsize t < 2 ^ 32
    → IsValid ctx
    → Safe
        (λ _ ctx'. IsValid ctx' × (ctx' ≡ pushed f t ctx) × (has_room env ctx ≡ true))
        (push_valtype env t ctx)
push_valtype-has_room env t f fs ctx e p lt v =
    let e' : ctx
        ≡ context f fs ctx.maxcells ctx.maxlabels ctx.jumps ctx.annotations ctx.refs ctx.valtypes
            ctx.ncells =
      ap (with_cframes ctx) e in
    let v' : IsValid (
        context f fs ctx.maxcells ctx.maxlabels ctx.jumps ctx.annotations ctx.refs ctx.valtypes
          ctx.ncells) =
      rw e' at v in
    rw e' (
      push_valtype-Keeps env f fs ctx.maxcells ctx.maxlabels ctx.jumps ctx.annotations ctx.refs t
        ctx.valtypes ctx.ncells p lt v')

-- In a valid context whose innermost frame is `f` and whose cell count does not wrap, pushing a
-- type that may stand there is an error, or ends in the valid context with the type pushed. No
-- assertion fails but that of `valtype_cellsize` on `exnref`.
pub push_valtype-IsValid :
    (env : Env) (t : Valtype) (f : Ctrlframe) (fs : List Ctrlframe) (ctx : Context)
    → ctx.cframes ≡ f ∷ fs
    → IsPushable f t
    → ctx.ncells + cellsize t < 2 ^ 32
    → IsValid ctx
    → Safe (λ _ ctx'. IsValid ctx' × (ctx' ≡ pushed f t ctx)) (push_valtype env t ctx)
push_valtype-IsValid env t f fs ctx e p lt v =
    Safe-mono _ _ (λ _ c (w, ec, r). (w, ec)) (push_valtype env t ctx)
      (push_valtype-has_room env t f fs ctx e p lt v)

-- The context that a push leaves, by whether the frame is unreachable.
abbrev pushed_by : Bool → Valtype → Context → Context
pushed_by u t ctx =
    let c : Context = record ctx { valtypes = t ∷ ctx.valtypes } in if u then c else count_cells t c

pushed_by-Keeps :
    (u : Bool) (t : Valtype) (ctx : Context)
    → IsValid (pushed_by u t ctx)
    → Keeps ctx (pushed_by u t ctx)
pushed_by-Keeps true t ctx v = record {
  valid = v;
  same_frames = refl;
  same_jumps = refl;
  more_cells = omega arith;
  same_labels = refl;
}
pushed_by-Keeps false t ctx v = record {
  valid = v;
  same_frames = refl;
  same_jumps = refl;
  more_cells = omega arith;
  same_labels = refl;
}

pub pushed-Keeps :
    (f : Ctrlframe) (t : Valtype) (ctx : Context)
    → IsValid (pushed f t ctx)
    → Keeps ctx (pushed f t ctx)
pushed-Keeps f t ctx = pushed_by-Keeps f.unreachable t ctx

pub pushed-ncells :
    (f : Ctrlframe) (t : Valtype) (ctx : Context)
    → (pushed f t ctx).ncells ≤ ctx.ncells + cellsize t
pushed-ncells f t ctx =
    elim f.unreachable
      as (λ u.
        (let c : Context = record ctx { valtypes = t ∷ ctx.valtypes } in
          if u then c else count_cells t c).ncells
        ≤ ctx.ncells + cellsize t) [ true ↦ omega arith | false ↦ omega arith ]

pub value-IsPushable :
    (f : Ctrlframe) (t : Valtype)
    → (is_valtype t || (false && is t unknown)) ≡ true
    → IsPushable f t
value-IsPushable f t h = ground arith

-- In a valid context with a frame, whose cell count does not wrap, pushing value types is an
-- error, or ends in a valid context with the same frames. No assertion fails but that of
-- `valtype_cellsize` on `exnref`.
pub push_valtypes-Keeps :
    (env : Env) (ts : List Valtype) (f : Ctrlframe) (fs : List Ctrlframe) (ctx : Context)
    → ctx.cframes ≡ f ∷ fs
    → Operands false ts
    → ctx.ncells + cells ts < 2 ^ 32
    → IsValid ctx
    → Safe (λ _ ctx'. Keeps ctx ctx') (push_valtypes env ts ctx)
unfolding push_valtypes
push_valtypes-Keeps env [] f fs ctx e os lt v = Keeps-refl ctx v
push_valtypes-Keeps env (t ∷ ts) f fs ctx e (o, os) lt v =
    Safe->>= (λ _ c. IsValid c × (c ≡ pushed f t ctx)) (λ _ c. Keeps ctx c) (push_valtype env t)
      (λ _. push_valtypes env ts) ctx
      (push_valtype-IsValid env t f fs ctx e (value-IsPushable f t o) (omega arith) v)
      λ _ c p.
        let k : Keeps ctx c = rw p.1 (pushed-Keeps f t ctx (rw p.1 at p.0)) in
        let b : c.ncells ≤ ctx.ncells + cellsize t = rw p.1 (pushed-ncells f t ctx) in
        Safe-mono (λ _ d. Keeps c d) (λ _ d. Keeps ctx d) (λ _ d. Keeps-trans ctx c d k)
          (push_valtypes env ts c)
          (push_valtypes-Keeps env ts f fs c (k.same_frames ∙ e) os (omega arith) p.0)
