-- ===== src/Validation/Sound/Blocks.antt =====
-- Opening and closing control frames keeps what holds during the validation of an expression, the
-- jump table included.
use mathlib.Core.Path.{subst}
use wasm_doctor.Prelude.{
  ℕ, ◌+◌, ◌^◌, ◌≤◌, ◌<◌, ◌≡◌, refl, sym, ap, Bool, true, false, ◌||◌, ◌&&◌, not, List, [], ◌∷◌,
  ◌++◌, length, arith, inl, inr, Bool-cases, ◌==◌,
}
use wasm_doctor.Types.{Valtype}
use wasm_doctor.Validation.{
  FrameOp, if_, else_, invoke, Ctrlframe, Context, Env, Jump, push_ctrlframe, pop_ctrlframe, is_op,
  slots, new_slots, has_slot, pop_valtypes,
}
use wasm_doctor.Validation.Invariant.{Operands, IsValid}
use wasm_doctor.Validation.Safe.{Safe, Safe->>=, Safe-mono}
use wasm_doctor.Validation.Control.{
  opened, opened_context, opened_context-IsValid, push_ctrlframe-Safe, Closes, leave, leave-Closes,
}
use wasm_doctor.Validation.Slots.{JumpTable, opened-JumpTable}
use wasm_doctor.Validation.Fills.{Filled, fill, fill-Filled}
use wasm_doctor.Validation.Sound.{IsModest, Typed, is_empty, Rooted, IsSound}
use wasm_doctor.Validation.Sound.Steps.{push_valtypes-Stays}

-- The frame with its `if` turned to an `else`, for which the first slot of the `if` is left.
abbrev pub as_else : Ctrlframe → Ctrlframe
as_else f = record f { op = else_ }

-- What the closing of the frame leaves of the table.
abbrev Table : Env → Bool → Ctrlframe → List Ctrlframe → List Jump → Type 0
Table env is_else f fs js =
    JumpTable env js fs × (is_else ≡ true → JumpTable env js (as_else f ∷ fs))

abbrev Filling : Env → Bool → Ctrlframe → List Ctrlframe → Context → Context → Type 0
Filling env is_else f fs ctx c =
    (js : List Jump) × (c ≡ record ctx { jumps = js }) × Table env is_else f fs js

no_slot : (op : FrameOp) (js : List Jump) → js ≡ [] → has_slot op js ≡ false
unfolding has_slot
no_slot op js e = rw e refl

fill-Filling :
    (env : Env) (pc : ℕ) (is_else : Bool) (f : Ctrlframe) (fs : List Ctrlframe) (ctx : Context)
    → (is_else && not (is_op f.op if_)) ≡ false
    → JumpTable env ctx.jumps (f ∷ fs)
    → Safe (λ _ c. Filling env is_else f fs ctx c) (fill f.op f.jumpslot is_else pc ctx)
fill-Filling env pc is_else f fs ctx g (inl (off, e)) =
    rw (no_slot f.op ctx.jumps e) (ctx.jumps, refl, (inl (off, e), λ _. inl (off, e)))
fill-Filling env pc is_else f fs ctx g (inr (on, (hs, sl))) =
    Safe-mono (λ _ c. Filled is_else f.jumpslot fs ctx c) (λ _ c. Filling env is_else f fs ctx c)
      (λ _ c (js, e, sl', k). (js, e, (inr (on, sl'), λ h. inr (on, k h))))
      (fill f.op f.jumpslot is_else pc ctx) (fill-Filled is_else f.jumpslot pc fs ctx f.op g hs sl)

-- What closing a frame leaves.
pub record Closed (env : Env) (is_else : Bool) (f : Ctrlframe) (fs : List Ctrlframe) (c : Context)
    : Type 0 where
  pub valid : IsValid c
  pub same_frames : c.cframes ≡ fs
  pub few : length c.valtypes ≤ 2 ^ 28
  pub table : JumpTable env c.jumps fs
  pub else_table : is_else ≡ true → JumpTable env c.jumps (as_else f ∷ fs)
  pub else_op : (is_else && not (is_op f.op if_)) ≡ false

left-Closed :
    (env : Env) (is_else : Bool) (f : Ctrlframe) (fs : List Ctrlframe) (js : List Jump)
    (ctx c : Context)
    → (is_else && not (is_op f.op if_)) ≡ false
    → length ctx.valtypes ≤ 2 ^ 28
    → Table env is_else f fs js
    → Closes fs (record ctx { jumps = js }) c
    → Closed env is_else f fs c
left-Closed env is_else f fs js ctx c b few (t, et) (v, ec, ej, l) = record {
  valid = v;
  same_frames = ec;
  few = omega arith;
  table = subst (λ x. JumpTable env x fs) (sym ej) t;
  else_table = λ h. subst (λ x. JumpTable env x (as_else f ∷ fs)) (sym ej) (et h);
  else_op = b;
}

-- Closing the innermost frame `f` of a sound context is an error, or gives that frame and leaves
-- the enclosing ones with a jump table in which their slots are open. No assertion fails but that
-- of `valtype_cellsize` on `exnref`: the slot of the frame was open.
pub pop_ctrlframe-Closed :
    (env : Env) (pc : ℕ) (is_else : Bool) (f : Ctrlframe) (fs : List Ctrlframe) (ctx : Context)
    → ctx.cframes ≡ f ∷ fs
    → IsSound env ctx
    → Safe (λ g c. (g ≡ f) × Closed env is_else f fs c) (pop_ctrlframe pc is_else ctx)
unfolding pop_ctrlframe pop_valtypes
pop_ctrlframe-Closed env pc is_else f fs ctx e s =
    let c0 : Context = record ctx { cframes = f ∷ fs } in
    elim (Bool-cases (is_else && not (is_op f.op if_))) [
      | inl b ↦ rw (e, b) tt
      | inr b ↦
          rw (e, b)
            (Safe->>= (λ _ c. Filling env is_else f fs c0 c)
              (λ g c. (g ≡ f) × Closed env is_else f fs c) (λ c. fill f.op f.jumpslot is_else pc c0)
              (λ _. leave f fs) c0 (fill-Filling env pc is_else f fs c0 b (rw e at s.table))
              λ _ c (js, ec, t).
                let c1 : Context = record c0 { jumps = js } in
                let v : IsValid c1 = record {
                  frames = rw e at s.valid.frames;
                  cells_bound = s.valid.cells_bound;
                  labels_bound = rw e at s.valid.labels_bound;
                } in
                rw ec (
                  Safe-mono (λ g d. (g ≡ f) × Closes fs c1 d)
                    (λ g d. (g ≡ f) × Closed env is_else f fs d)
                    (λ g d (eg, k). (eg, left-Closed env is_else f fs js c0 d b s.few t k))
                    (leave f fs c1) (leave-Closes f fs c1 v refl)))
    ]

append_nil : {A : Type 0} → (xs : List A) → xs ++ [] ≡ xs
append_nil [] = refl
append_nil (x ∷ xs) = ap (λ ys. x ∷ ys) (append_nil xs)

-- What `push_ctrlframe` is called with, when the frame is to stand over the frames of the context.
pub record Ready (env : Env) (op : FrameOp) (start_types end_types : List Valtype) (ctx : Context)
    : Type 0 where
  pub valid : IsValid ctx
  pub few : length ctx.valtypes ≤ 2 ^ 28
  pub typed : Typed ctx.cframes
  pub rooted : Rooted ctx.cframes
  pub typed_start : Operands false start_types
  pub typed_end : Operands false end_types
  pub root : is_op op invoke ≡ is_empty ctx.cframes

-- What the opening of a frame leaves: a sound context with the frame on top.
abbrev pub Opens : Env → FrameOp → ℕ → List Valtype → List Valtype → Context → Context → Type 0
Opens env op jumpslot start_types end_types ctx c =
    IsSound env c × (c.cframes ≡ opened env op jumpslot start_types end_types ctx ∷ ctx.cframes)

module _ (env : Env) (modest : IsModest env) where
  pub push_ctrlframe-Opens :
      (pc jumpslot : ℕ) (op : FrameOp) (start_types end_types : List Valtype) (ctx : Context)
      → Ready env op start_types end_types ctx
      → (is_op op else_ || jumpslot == 0) ≡ true
      → JumpTable env
          (ctx.jumps ++ new_slots (slots env op) pc)
          (opened env op jumpslot start_types end_types ctx ∷ ctx.cframes)
      → Safe
          (λ _ c. Opens env op jumpslot start_types end_types ctx c)
          (push_ctrlframe env pc op jumpslot start_types end_types ctx)
  push_ctrlframe-Opens pc jumpslot op start_types end_types ctx r a t =
      let c1 = opened_context env pc jumpslot op start_types end_types ctx in
      let s1 : IsSound env c1 = record {
        valid = opened_context-IsValid env pc jumpslot op start_types end_types ctx r.valid;
        few = r.few;
        typed = (r.typed_start, r.typed_end, r.typed);
        table = t;
        rooted = (r.root, r.rooted);
        open_frame = λ h. cc;
      } in
      push_ctrlframe-Safe _ env pc jumpslot op start_types end_types ctx a
        (push_valtypes-Stays env modest start_types c1 r.typed_start s1)

  -- Where a frame other than an `else` may stand over the frames of a valid context, the jump
  -- table is in order, realloc grants no vector of more than 2^28 types, and the program counter
  -- is above 0 and below 2^32 - 1, `push_ctrlframe` is an error, or leaves a sound context with
  -- the frame on top and its slots open. No assertion fails but that of `valtype_cellsize` on
  -- `exnref`.
  pub opened-Opens :
      (pc : ℕ) (op : FrameOp) (start_types end_types : List Valtype) (ctx : Context)
      → 0 < pc
      → pc + 1 < 2 ^ 32
      → is_op op else_ ≡ false
      → Ready env op start_types end_types ctx
      → JumpTable env ctx.jumps ctx.cframes
      → Safe
          (λ _ c. Opens env op 0 start_types end_types ctx c)
          (push_ctrlframe env pc op 0 start_types end_types ctx)
  opened-Opens pc op start_types end_types ctx h lt ne r t =
      push_ctrlframe-Opens pc 0 op start_types end_types ctx r (rw ne refl) (
        opened-JumpTable env pc ctx.jumps (opened env op 0 start_types end_types ctx) ctx.cframes h
          lt ne refl t)

  else_slots : slots env else_ ≡ 0
  unfolding slots
  else_slots = elim (Bool-cases env.generate_jump_table) [ inl g ↦ rw g refl | inr g ↦ rw g refl ]

  -- The frame of an `else`, with the slot that the `if` has left.
  pub else-Opens :
      (pc : ℕ) (f : Ctrlframe) (fs : List Ctrlframe) (ctx : Context)
      → Closed env true f fs ctx
      → Ready env else_ f.start_types f.end_types ctx
      → Safe
          (λ _ c. Opens env else_ f.jumpslot f.start_types f.end_types ctx c)
          (push_ctrlframe env pc else_ f.jumpslot f.start_types f.end_types ctx)
  unfolding new_slots
  else-Opens pc f fs ctx k r =
      let e : ctx.jumps ++ new_slots (slots env else_) pc ≡ ctx.jumps =
        rw else_slots (append_nil ctx.jumps) in
      let g = opened env else_ f.jumpslot f.start_types f.end_types ctx in
      push_ctrlframe-Opens pc f.jumpslot else_ f.start_types f.end_types ctx r refl (
        subst (λ js. JumpTable env js (g ∷ ctx.cframes)) (sym e)
          (rw (else_slots, k.same_frames) (k.else_table refl)))

  -- The frame of the function.
  pub invoke-Opens :
      (end_types : List Valtype) (ctx : Context)
      → ctx.cframes ≡ []
      → ctx.jumps ≡ []
      → Ready env invoke [] end_types ctx
      → Safe
          (λ _ c. Opens env invoke 0 [] end_types ctx c)
          (push_ctrlframe env 0 invoke 0 [] end_types ctx)
  unfolding new_slots slots
  invoke-Opens end_types ctx e j r =
      push_ctrlframe-Opens 0 0 invoke [] end_types ctx r refl
        (elim (Bool-cases env.generate_jump_table) [
          | inl g ↦ rw (g, e, j) (inr (refl, (tt, tt)))
          | inr g ↦ rw (g, e, j) (inl (refl, refl))
        ])
