-- ===== src/Validation.antt =====
-- lib/validation.c: the operand stack and the control frames of the validation of one function.
-- `valtypes` and `cframes` are the vectors with their last element first, so `lsize` is the length.
-- What realloc answers is the environment's: for each vector, the sizes that it can grow to.
pub mod Invariant
pub mod Safe
pub mod Operands
pub mod Pushes
pub mod Control
pub mod Slots
pub mod Fills
pub mod Sound
pub mod Quiet
mod Tests
use wasm_doctor.Prelude.{
  Errno, xassert, ℕ, zero, suc, ◌+◌, ◌-◌, ◌*◌, ◌%◌, ◌^◌, max, Bool, true, false, not, ◌&&◌, ◌||◌,
  Option, none, some, List, [], ◌∷◌, ◌++◌, length, drop, set, get_elem?, ltb, leb, ◌==◌,
  if◌then◌else◌, Result, ok, err, fault, einval, eoverflow, enomem, guard, assert,
}
use mathlib.Core.List.{reverse}
use wasm_doctor.Types.{counted, exnref, Valtype, anyref, unknown, is, is_reftype, cellsize}

-- enum ctrlframe_op
pub data FrameOp : Type 0 where
  block loop if_ else_ end try_table empty_else invoke : FrameOp

abbrev pub op_code : FrameOp → ℕ
op_code block = 0x02
op_code loop = 0x03
op_code if_ = 0x04
op_code else_ = 0x05
op_code end = 0x0b
op_code try_table = 0x1f
op_code empty_else = 0xfe
op_code invoke = 0xff

abbrev pub is_op : FrameOp → FrameOp → Bool
is_op a b = op_code a == op_code b

-- struct ctrlframe; a NULL `start_types` is the empty list.
pub record Ctrlframe : Type 0 where
  pub start_types : List Valtype
  pub end_types : List Valtype
  pub height : ℕ
  pub height_cell : ℕ
  pub jumpslot : ℕ
  pub op : FrameOp
  pub unreachable : Bool

-- struct jump
pub record Jump : Type 0 where
  pub pc : ℕ
  pub targetpc : ℕ

-- struct type_annotation, with the program counter and the cells of a value
pub record Annotation : Type 0 where
  pub pc : ℕ
  pub size : ℕ

-- struct type_annotations, the last one of `types` first
pub record Annotations : Type 0 where
  pub default_size : ℕ
  pub types : List Annotation

-- The part of struct validation_context that changes, with `ei` in place, and the words of the bitmap
-- `refs`.
pub record Context : Type 0 where
  pub cframes : List Ctrlframe
  pub valtypes : List Valtype
  pub ncells : ℕ
  pub maxcells : ℕ
  pub maxlabels : ℕ
  pub jumps : List Jump
  pub annotations : Annotations
  pub refs : List ℕ

pub record Env : Type 0 where
  pub generate_jump_table : Bool
  pub valtypes_room : ℕ → Bool
  pub cframes_room : ℕ → Bool
  pub jumps_room : ℕ → Bool

-- A failed step leaves a context that nothing looks at but `validation_context_reuse`.
abbrev pub Validator : Type 0 → Type 0
Validator A = Context → Result (A × Context)

infixl 5 ◌>>=◌ ◌>>◌
abbrev pub ◌>>=◌ : {A B : Type 0} → Validator A → (A → Validator B) → Validator B
◌>>=◌ m f ctx = elim (m ctx) [ ok (a, ctx') ↦ f a ctx' | err e ↦ err e | fault ↦ fault ]

abbrev pub ◌>>◌ : {B : Type 0} → Validator (Unit {0}) → Validator B → Validator B
m >> k = m >>= λ _. k

abbrev pub pure : {A : Type 0} → A → Validator A
pure a ctx = ok (a, ctx)

abbrev pub lift : Result (Unit {0}) → Validator (Unit {0})
lift (ok a) ctx = ok (a, ctx)
lift (err e) ctx = err e
lift fault ctx = fault

abbrev pub gets : {A : Type 0} → (Context → A) → Validator A
gets f ctx = ok (f ctx, ctx)

-- VEC_LASTELEM(ctx->cframes), with `assert(ctx->cframes.lsize > 0)`.
unfoldable pub last_cframe : Validator Ctrlframe
last_cframe ctx = elim ctx.cframes [ [] ↦ fault | f ∷ fs ↦ ok (f, ctx) ]

-- `if (ret != 0) return EINVAL;`, after which the program's end stays what it is.
abbrev pub refusal : Errno → Errno
refusal Errno.xassert = Errno.xassert
refusal _ = einval

-- The cells of a value that is pushed onto a reachable part of the stack.
abbrev pub count_cells : Valtype → Context → Context
count_cells type ctx =
    let n = (ctx.ncells + cellsize type) % 2 ^ 32 in
    record ctx { ncells = n; maxcells = max ctx.maxcells n }

-- The type of a popped operand is refused.
abbrev pub mismatch : Valtype → Valtype → Bool
mismatch expected t =
    not (is expected unknown)
    && not (is t unknown)
    && not (is t expected)
    && not (is expected anyref && is_reftype t)

-- The branch of `pop_valtype` that pops an operand of the innermost frame.
pub pop_pushed : Valtype → Ctrlframe → Validator Valtype
pop_pushed expected cframe ctx = elim ctx.valtypes [
  | [] ↦ fault
  | t ∷ rest ↦
      (do
        lift (assert (not (is t anyref)))
        lift (assert (not (is t unknown) || cframe.unreachable))
        lift (if cframe.unreachable then ok tt else counted t)
        lift (assert (cframe.unreachable || leb (cellsize t) ctx.ncells))
        lift (guard (not (mismatch expected t)) einval)
        pure t)
        (record ctx {
          valtypes = rest;
          ncells = if cframe.unreachable then ctx.ncells else ctx.ncells - cellsize t;
        })
]

pub pop_valtype : Valtype → Validator Valtype
unfolding last_cframe pop_pushed
pop_valtype expected = do
  cframe ← last_cframe
  lsize ← gets (λ ctx. length ctx.valtypes)
  ncells ← gets (λ ctx. ctx.ncells)
  lift (assert (leb cframe.height lsize))
  lift (assert (leb cframe.height_cell ncells))
  if lsize == cframe.height
      then (do
        lift (assert (ncells == cframe.height_cell))
        lift (guard cframe.unreachable einval)
        pure unknown)
      else pop_pushed expected cframe

-- The operands of a list, the first one of it popped first.
pub pop_each : List Valtype → Validator (Unit {0})
unfolding pop_valtype
pop_each [] = pure tt
pop_each (t ∷ ts) = do _ ← pop_valtype t; pop_each ts

-- pop_valtypes goes through the types from the last one down.
pub pop_valtypes : List Valtype → Validator (Unit {0})
unfolding pop_each
pop_valtypes types = pop_each (reverse types)

-- peek_valtypes restores the two counters. The operands between them are still in the vector.
pub peek_valtypes : List Valtype → Validator (Unit {0})
unfolding pop_valtypes
peek_valtypes types ctx = elim (pop_valtypes types ctx) [
  | ok (_, ctx') ↦ ok (tt, record ctx' { valtypes = ctx.valtypes; ncells = ctx.ncells })
  | err e ↦ err e
  | fault ↦ fault
]

pub mark_unreachable : Validator (Unit {0})
mark_unreachable ctx = elim ctx.cframes [
  | [] ↦ fault
  | f ∷ fs ↦ ok (
    tt,
    record ctx {
      valtypes = drop (length ctx.valtypes - f.height) ctx.valtypes;
      ncells = f.height_cell;
      cframes = record f { unreachable = true } ∷ fs;
    },
  )
]

pub label_types : Ctrlframe → List Valtype
label_types f = if is_op f.op loop then f.start_types else f.end_types

-- returntype: the first element of the vector, which is the outermost frame.
pub returntype : List Ctrlframe → Option (List Valtype)
returntype [] = none
returntype (f ∷ []) = some f.end_types
returntype (f ∷ g ∷ fs) = returntype (g ∷ fs)

pub target_label_types : ℕ → Validator (List Valtype)
unfolding label_types
target_label_types labelidx ctx = elim (get_elem? ctx.cframes labelidx) [
  | none ↦ err einval
  | some f ↦ ok (label_types f, ctx)
]

-- How many slots of the jump table a frame takes.
pub slots : Env → FrameOp → ℕ
slots env op =
    if not env.generate_jump_table
      || is_op op invoke
      || is_op op else_
      || is_op op empty_else
      || is_op op loop
    then 0
    else if is_op op if_
    then 2
    else 1

-- The slots themselves; the second one of an `if` is for the jump to its `else`.
pub new_slots : ℕ → ℕ → List Jump
new_slots zero pc = []
new_slots (suc zero) pc = record { pc = pc; targetpc = 0 } ∷ []
new_slots (suc (suc n)) pc =
    record { pc = pc; targetpc = 0 } ∷ record { pc = (pc + 1) % 2 ^ 32; targetpc = 0 } ∷ []

-- The slot that `pop_ctrlframe` fills: `jumps[jumpslot + is_else].targetpc = pc`.
pub fill_slot : ℕ → ℕ → Validator (Unit {0})
fill_slot slot pc ctx = elim (get_elem? ctx.jumps slot) [
  | none ↦ fault
  | some j ↦
      (lift (assert (not (j.pc == 0))) >> lift (assert (j.targetpc == 0)))
        (record ctx { jumps = set ctx.jumps slot (record j { targetpc = pc }) })
]

pub has_slot : FrameOp → List Jump → Bool
has_slot op [] = false
has_slot op (j ∷ js) = not (is_op op invoke) && not (is_op op empty_else) && not (is_op op loop)

pub pop_ctrlframe : ℕ → Bool → Validator Ctrlframe
unfolding pop_valtypes fill_slot has_slot
pop_ctrlframe pc is_else ctx = elim ctx.cframes [
  | [] ↦ err einval
  | cframe ∷ outer ↦
      (do
        lift (guard (not (is_else && not (is_op cframe.op if_))) einval)
        if has_slot cframe.op ctx.jumps
            then fill_slot (cframe.jumpslot + (if is_else then 1 else 0)) pc
            else pure tt
        λ c. elim (pop_valtypes cframe.end_types c) [
          | ok r ↦ ok r
          | err e ↦ err (refusal e)
          | fault ↦ fault
        ]
        lsize ← gets (λ c. length c.valtypes)
        ncells ← gets (λ c. c.ncells)
        lift (guard (lsize == cframe.height) einval)
        lift (assert (ncells == cframe.height_cell))
        λ c. ok (cframe, record c { cframes = outer }))
        ctx
]

module _ (env : Env) where
  pub push_valtype : Valtype → Validator (Unit {0})
  unfolding last_cframe
  push_valtype type = do
    lift (assert (not (is type anyref)))
    cframe ← last_cframe
    lift (assert (not (is type unknown) || cframe.unreachable))
    lsize ← gets (λ ctx. length ctx.valtypes)
    let nsize = (lsize + 1) % 2 ^ 32
    lift (guard (not (nsize == 0)) eoverflow)
    lift (guard (env.valtypes_room ((lsize + nsize) % 2 ^ 32)) enomem)
    lift (if cframe.unreachable then ok tt else counted type)
    λ ctx.
        let pushed : Context = record ctx { valtypes = type ∷ ctx.valtypes } in
        ok (tt, if cframe.unreachable then pushed else count_cells type pushed)

  pub push_valtypes : List Valtype → Validator (Unit {0})
  unfolding push_valtype
  push_valtypes [] = pure tt
  push_valtypes (t ∷ ts) = do push_valtype t; push_valtypes ts

  pub push_ctrlframe : ℕ → FrameOp → ℕ → List Valtype → List Valtype → Validator (Unit {0})
  unfolding push_valtypes slots new_slots
  push_ctrlframe pc op jumpslot start_types end_types = do
    lift (assert (is_op op else_ || jumpslot == 0))
    let nslots = slots env op
    njumps ← gets (λ ctx. length ctx.jumps)
    lift (guard (nslots == 0 || env.jumps_room ((njumps + nslots) % 2 ^ 32)) enomem)
    lsize ← gets (λ ctx. length ctx.cframes)
    let nsize = (lsize + 1) % 2 ^ 32
    lift (guard (not (nsize == 0)) eoverflow)
    lift (guard (env.cframes_room ((lsize + nsize) % 2 ^ 32)) enomem)
    (λ ctx.
        let cframe : Ctrlframe = record {
          start_types = start_types;
          end_types = end_types;
          height = length ctx.valtypes;
          height_cell = ctx.ncells;
          jumpslot = if ltb 0 nslots then njumps else jumpslot;
          op = op;
          unreachable = false;
        } in
        ok (
          tt,
          record ctx {
            cframes = cframe ∷ ctx.cframes;
            jumps = ctx.jumps ++ new_slots nslots pc;
            maxlabels = max ctx.maxlabels (length ctx.cframes + 1);
          },
        ))
    push_valtypes start_types
