-- ===== src/Validation/Invariant.antt =====
-- The invariant of the validation: the frames cut the operand stack into segments, and `ncells`
-- counts the cells of the reachable ones.
use wasm_doctor.Prelude.{
  ℕ, suc, ◌+◌, ◌-◌, ◌≤◌, ◌≡◌, Bool, true, false, ◌&&◌, ◌||◌, List, [], ◌∷◌, length, drop, take,
  if◌then◌else◌, arith,
}
use wasm_doctor.Types.{Valtype, unknown, is, is_valtype, cellsize, cells}
use wasm_doctor.Validation.{Ctrlframe, Context}

-- What may stand on the stack: under an unreachable frame also the unknown type.
abbrev pub Operands : Bool → List Valtype → Type 0
Operands unreachable [] = Unit
Operands unreachable (t ∷ ts) =
    ((is_valtype t || (unreachable && is t unknown)) ≡ true) × Operands unreachable ts

-- The operands above a frame, and the cells counted for them.
abbrev pub Counted : Ctrlframe → List Valtype → ℕ → Type 0
Counted f segment n = n ≡ f.height_cell + (if f.unreachable then 0 else cells segment)

abbrev pub segment : Ctrlframe → List Valtype → List Valtype
segment f vs = take (length vs - f.height) vs

abbrev pub below : Ctrlframe → List Valtype → List Valtype
below f vs = drop (length vs - f.height) vs

abbrev pub Frames : List Ctrlframe → List Valtype → ℕ → Type 0
Frames [] vs n = (vs ≡ []) × (n ≡ 0)
Frames (f ∷ fs) vs n =
    (f.height ≤ length vs)
    × Operands f.unreachable (segment f vs)
    × Counted f (segment f vs) n
    × Frames fs (below f vs) f.height_cell

pub record IsValid (ctx : Context) : Type 0 where
  pub frames : Frames ctx.cframes ctx.valtypes ctx.ncells
  pub cells_bound : ctx.ncells ≤ ctx.maxcells
  pub labels_bound : length ctx.cframes ≤ ctx.maxlabels

-- One more operand lies in the segment of the innermost frame.
pub over_height :
    (f : Ctrlframe) (t : Valtype) (vs : List Valtype)
    → f.height ≤ length vs
    → suc (length vs) - f.height ≡ suc (length vs - f.height)
over_height f t vs h = omega arith

pub segment-cons :
    (f : Ctrlframe) (t : Valtype) (vs : List Valtype)
    → f.height ≤ length vs
    → segment f (t ∷ vs) ≡ t ∷ segment f vs
segment-cons f t vs h = rw (over_height f t vs h)

pub below-cons :
    (f : Ctrlframe) (t : Valtype) (vs : List Valtype)
    → f.height ≤ length vs
    → below f (t ∷ vs) ≡ below f vs
below-cons f t vs h = rw (over_height f t vs h)

-- Pushing an operand.
pub Frames-cons :
    (f : Ctrlframe) (fs : List Ctrlframe) (t : Valtype) (vs : List Valtype) (n : ℕ)
    → (is_valtype t || (f.unreachable && is t unknown)) ≡ true
    → Frames (f ∷ fs) vs n
    → Frames (f ∷ fs) (t ∷ vs) (n + (if f.unreachable then 0 else cellsize t))
Frames-cons f fs t vs n ht (h, os, c, rest) =
    rw (segment-cons f t vs h, below-cons f t vs h) (omega arith, (ht, os), ground arith, rest)

-- Popping one.
pub Frames-tail :
    (f : Ctrlframe) (fs : List Ctrlframe) (t : Valtype) (vs : List Valtype) (n : ℕ)
    → f.height ≤ length vs
    → Frames (f ∷ fs) (t ∷ vs) n
    → Frames (f ∷ fs) vs (if f.unreachable then n else n - cellsize t)
      × ((is_valtype t || (f.unreachable && is t unknown)) ≡ true)
      × (f.unreachable ≡ false → cellsize t ≤ n)
Frames-tail f fs t vs n h (_, os, c, rest) =
    let os' : Operands f.unreachable (t ∷ segment f vs) = rw (segment-cons f t vs h) at os in
    let c' : Counted f (t ∷ segment f vs) n = rw (segment-cons f t vs h) at c in
    let rest' : Frames fs (below f vs) f.height_cell = rw (below-cons f t vs h) at rest in
    ((h, os'.1, ground arith, rest'), os'.0, ground arith)
