-- ===== src/Validation/Sound.antt =====
-- What holds of the context all through the validation of an expression, and the steps that keep it.
-- A vector of operand types has at most 2^28 elements (1 GiB), so no 32-bit count wraps around.
pub mod Steps
pub mod Blocks
use wasm_doctor.Prelude.{
  ℕ, suc, ◌+◌, ◌-◌, ◌*◌, ◌%◌, ◌^◌, ◌≤◌, ◌<◌, min, ◌≡◌, ◌≢◌, refl, ◌∙◌, Bool, true, false, ◌||◌,
  ◌&&◌, List, [], ◌∷◌, length, take, drop, if◌then◌else◌, arith, length-take, length-drop,
}
use wasm_doctor.Types.{
  Valtype, i32, i64, f32, f64, v128, exnref, funcref, externref, anyref, unknown, cells, cellsize,
  is_valtype,
}
use wasm_doctor.Validation.{Ctrlframe, Context, Env, invoke, is_op}
use wasm_doctor.Validation.Invariant.{Operands, Counted, Frames, IsValid, segment, below}
use wasm_doctor.Validation.Slots.{JumpTable}
use wasm_doctor.Validation.Safe.{Keeps}

-- The limit on what realloc grants.
abbrev pub IsModest : Env → Type 0
IsModest env = (n : ℕ) → env.valtypes_room n ≡ true → n ≤ 2 ^ 28

-- The parameters and results of the frames are value types.
abbrev pub Typed : List Ctrlframe → Type 0
Typed [] = Unit
Typed (f ∷ fs) = Operands false f.start_types × Operands false f.end_types × Typed fs

abbrev pub is_empty : List Ctrlframe → Bool
is_empty [] = true
is_empty (f ∷ fs) = false

-- The outermost frame, and no other, is that of the function.
abbrev pub Rooted : List Ctrlframe → Type 0
Rooted [] = Unit
Rooted (f ∷ fs) = (is_op f.op invoke ≡ is_empty fs) × Rooted fs

-- The context between two instructions of an expression.
pub record IsSound (env : Env) (ctx : Context) : Type 0 where
  pub valid : IsValid ctx
  pub few : length ctx.valtypes ≤ 2 ^ 28
  pub typed : Typed ctx.cframes
  pub table : JumpTable env ctx.jumps ctx.cframes
  pub rooted : Rooted ctx.cframes
  pub open_frame : ctx.cframes ≢ []

cellsize-le : (t : Valtype) → cellsize t ≤ 4
cellsize-le t = elim t as (λ t. cellsize t ≤ 4) [
  | i32 ↦ omega arith
  | i64 ↦ omega arith
  | f32 ↦ omega arith
  | f64 ↦ omega arith
  | v128 ↦ omega arith
  | exnref ↦ omega arith
  | funcref ↦ omega arith
  | externref ↦ omega arith
  | anyref ↦ omega arith
  | unknown ↦ omega arith
]

cells-le : (ts : List Valtype) → cells ts ≤ 4 * length ts
cells-le [] = omega arith
cells-le (t ∷ ts) = omega (arith, cellsize-le t, cells-le ts)

Counted-le :
    (f : Ctrlframe) (ts : List Valtype) (n : ℕ) → Counted f ts n → n ≤ f.height_cell + 4 * length ts
Counted-le f ts n c =
    elim f.unreachable
        as (λ u.
          n ≡ f.height_cell + (if u then 0 else cells ts) → n ≤ f.height_cell + 4 * length ts) [
            | true ↦ λ h. omega arith
            | false ↦ λ h. omega (arith, cells-le ts)
          ]
      c

-- The cells that are counted are those of operands on the stack.
pub Frames-cells :
    (fs : List Ctrlframe) (vs : List Valtype) (n : ℕ) → Frames fs vs n → n ≤ 4 * length vs
Frames-cells [] vs n (e, z) = omega arith
Frames-cells (f ∷ fs) vs n (h, os, c, rest) =
    let b = Frames-cells fs (below f vs) f.height_cell rest in
    let s = Counted-le f (segment f vs) n c in
    let l = length-take (length vs - f.height) vs in
    let d = length-drop (length vs - f.height) vs in omega (arith, b, s, l, d)

-- A step that keeps the frames and the jumps.
pub Keeps-IsSound :
    (env : Env) (ctx c : Context)
    → IsSound env ctx
    → Keeps ctx c
    → length c.valtypes ≤ 2 ^ 28
    → IsSound env c
Keeps-IsSound env ctx c s k l = record {
  valid = k.valid;
  few = l;
  typed = rw k.same_frames s.typed;
  table = rw (k.same_frames, k.same_jumps) s.table;
  rooted = rw k.same_frames s.rooted;
  open_frame = rw k.same_frames s.open_frame;
}

pub cells_fit :
    (env : Env) (ctx : Context) (t : Valtype) → IsSound env ctx → ctx.ncells + cellsize t < 2 ^ 32
cells_fit env ctx t s =
    omega
      (arith, s.few, cellsize-le t, Frames-cells ctx.cframes ctx.valtypes ctx.ncells s.valid.frames)
