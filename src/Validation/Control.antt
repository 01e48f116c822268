-- ===== src/Validation/Control.antt =====
-- Opening and closing control frames: the invariant and the assertions.
use mathlib.Core.List.{reverse}
use wasm_doctor.Prelude.{
  sym, take-append-drop, ℕ, ◌+◌, ◌-◌, ◌%◌, ◌^◌, ◌≤◌, ◌<◌, max, ◌≡◌, ◌≢◌, refl, ◌∙◌, Bool, true,
  false, not, ◌&&◌, ◌||◌, List, [], ◌∷◌, ◌++◌, length, drop, take, ltb, ◌==◌, if◌then◌else◌, Result,
  ok, err, fault, einval, guard, assert, arith, Bool-cases, inl, inr, length-drop, ==_eq,
}
use wasm_doctor.Types.{Valtype, cells}
use wasm_doctor.Validation.{
  refusal, FrameOp, else_, if_, Ctrlframe, Context, Env, Validator, mark_unreachable,
  push_ctrlframe, pop_ctrlframe, pop_valtypes, pop_each, push_valtypes, lift, gets, ◌>>=◌, ◌>>◌,
  is_op, slots, new_slots, has_slot,
}
use wasm_doctor.Validation.Invariant.{Operands, Frames, Counted, segment, below, IsValid}
use wasm_doctor.Validation.Operands.{pop_each-Pops}
use wasm_doctor.Validation.Pushes.{push_valtypes-Keeps}
use wasm_doctor.Validation.Safe.{Safe, Safe->>=, Safe-mono, Keeps, Pops}

sub_self : (n : ℕ) → n - n ≡ 0
sub_self n = omega arith

height_cell_bound :
    (f : Ctrlframe) (vs : List Valtype) (n m : ℕ) → Counted f vs n → n ≤ m → f.height_cell ≤ m
height_cell_bound f vs n m c h = omega arith

-- The frames after the operands of the innermost one are dropped.
dropped-Frames :
    (f : Ctrlframe) (fs : List Ctrlframe) (vs : List Valtype) (n : ℕ)
    → Frames (f ∷ fs) vs n
    → Frames (record f { unreachable = true } ∷ fs) (below f vs) f.height_cell
dropped-Frames f fs vs n (h, os, c, rest) =
    let e : length (below f vs) ≡ f.height = length-drop (length vs - f.height) vs ∙ omega arith in
    rw (e, sub_self f.height) (omega arith, tt, omega arith, rest)

-- In a valid context with a frame, mark_unreachable ends in a valid context, in which that frame is
-- unreachable and the others are the same. No assertion fails.
pub mark_unreachable-IsValid :
    (f : Ctrlframe) (fs : List Ctrlframe) (ctx : Context)
    → ctx.cframes ≡ f ∷ fs
    → IsValid ctx
    → Safe
        (λ _ ctx'. IsValid ctx' × (ctx'.cframes ≡ record f { unreachable = true } ∷ fs))
        (mark_unreachable ctx)
unfolding mark_unreachable
mark_unreachable-IsValid f fs ctx e v =
    let fr : Frames (f ∷ fs) ctx.valtypes ctx.ncells = rw e at v.frames in
    rw e (
      record {
        frames = dropped-Frames f fs ctx.valtypes ctx.ncells fr;
        cells_bound =
            height_cell_bound f (segment f ctx.valtypes) ctx.ncells ctx.maxcells fr.2 v.cells_bound;
        labels_bound = rw e at v.labels_bound;
      },
      refl,
    )

-- In a valid context with a frame, `mark_unreachable` succeeds. It leaves a valid context, in which that
-- frame is unreachable and the others are the same, whose operands are those below the frame, in
-- number its height, and whose count of cells is that at the frame's entry.
pub mark_unreachable-unwinds :
    (f : Ctrlframe) (fs : List Ctrlframe) (ctx : Context)
    → ctx.cframes ≡ f ∷ fs
    → IsValid ctx
    → (ctx' : Context) × (mark_unreachable ctx ≡ ok (tt, ctx'))
      × IsValid ctx'
      × (ctx'.cframes ≡ record f { unreachable = true } ∷ fs)
      × (length ctx'.valtypes ≡ f.height)
      × ((popped : List Valtype) × (ctx.valtypes ≡ popped ++ ctx'.valtypes))
      × (ctx'.ncells ≡ f.height_cell)
unfolding mark_unreachable
mark_unreachable-unwinds f fs ctx e v =
    let h : Frames (f ∷ fs) ctx.valtypes ctx.ncells = rw e at v.frames in
    let (x, ef) = rw e at (mark_unreachable-IsValid f fs ctx e v) in
    rw e (
      _,
      refl,
      x,
      ef,
      length-drop (length ctx.valtypes - f.height) ctx.valtypes ∙ omega (arith, h.0),
      (
        take (length ctx.valtypes - f.height) ctx.valtypes,
        sym (take-append-drop (length ctx.valtypes - f.height) ctx.valtypes),
      ),
      refl,
    )

-- What `push_ctrlframe` leaves on the stack of frames.
abbrev pub opened : Env → FrameOp → ℕ → List Valtype → List Valtype → Context → Ctrlframe
opened env op jumpslot start_types end_types ctx = record {
  start_types = start_types;
  end_types = end_types;
  height = length ctx.valtypes;
  height_cell = ctx.ncells;
  jumpslot = if ltb 0 (slots env op) then length ctx.jumps else jumpslot;
  op = op;
  unreachable = false;
}

opened-Frames :
    (f : Ctrlframe) (fs : List Ctrlframe) (vs : List Valtype) (n : ℕ)
    → f.height ≡ length vs
    → f.height_cell ≡ n
    → f.unreachable ≡ false
    → Frames fs vs n
    → Frames (f ∷ fs) vs n
opened-Frames f fs vs n h hc u fr =
    rw (h, hc, u, sub_self (length vs)) (omega arith, tt, omega arith, fr)

-- The context in which `push_ctrlframe` pushes the parameters of the frame.
abbrev pub opened_context : Env → ℕ → ℕ → FrameOp → List Valtype → List Valtype → Context → Context
opened_context env pc jumpslot op start_types end_types ctx = record ctx {
  cframes = opened env op jumpslot start_types end_types ctx ∷ ctx.cframes;
  jumps = ctx.jumps ++ new_slots (slots env op) pc;
  maxlabels = max ctx.maxlabels (length ctx.cframes + 1);
}

pub opened_context-IsValid :
    (env : Env) (pc jumpslot : ℕ) (op : FrameOp) (start_types end_types : List Valtype)
    (ctx : Context)
    → IsValid ctx
    → IsValid (opened_context env pc jumpslot op start_types end_types ctx)
opened_context-IsValid env pc jumpslot op start_types end_types ctx v = record {
  frames =
      opened-Frames (opened env op jumpslot start_types end_types ctx) ctx.cframes ctx.valtypes
        ctx.ncells refl refl refl v.frames;
  cells_bound = v.cells_bound;
  labels_bound = omega arith;
}

-- What holds after the parameters are pushed in that context holds after `push_ctrlframe`.
pub push_ctrlframe-Safe :
    (P : Unit {0} → Context → Type 0) (env : Env) (pc jumpslot : ℕ) (op : FrameOp)
    (start_types end_types : List Valtype) (ctx : Context)
    → (is_op op else_ || jumpslot == 0) ≡ true
    → Safe P (
        push_valtypes env start_types (opened_context env pc jumpslot op start_types end_types ctx))
    → Safe P (push_ctrlframe env pc op jumpslot start_types end_types ctx)
unfolding push_ctrlframe
push_ctrlframe-Safe P env pc jumpslot op start_types end_types ctx a h =
    elim (Bool-cases
      (slots env op == 0 || env.jumps_room ((length ctx.jumps + slots env op) % 2 ^ 32))) [
        | inr b ↦ rw (a, b) tt
        | inl b ↦ elim (Bool-cases ((length ctx.cframes + 1) % 2 ^ 32 == 0)) [
          | inl c ↦ rw (a, b, c) tt
          | inr c ↦
              elim (Bool-cases (
                env.cframes_room
                  ((length ctx.cframes + (length ctx.cframes + 1) % 2 ^ 32) % 2 ^ 32))) [
                    | inr d ↦ rw (a, b, c, d) tt
                    | inl d ↦ rw (a, b, c, d) h
                  ]
        ]
      ]

-- In a valid context, where only an `else` frame brings a jump slot, and the cell count does not
-- wrap with the parameters, which are value types, opening a frame is an error, or ends in a valid
-- context with that frame over the former ones. No assertion fails but that of `valtype_cellsize`
-- on `exnref`.
pub push_ctrlframe-IsValid :
    (env : Env) (pc jumpslot : ℕ) (op : FrameOp) (start_types end_types : List Valtype)
    (ctx : Context)
    → (is_op op else_ || jumpslot == 0) ≡ true
    → Operands false start_types
    → ctx.ncells + cells start_types < 2 ^ 32
    → IsValid ctx
    → Safe
        (λ _ ctx'.
          IsValid ctx'
          × (ctx'.cframes ≡ opened env op jumpslot start_types end_types ctx ∷ ctx.cframes))
        (push_ctrlframe env pc op jumpslot start_types end_types ctx)
push_ctrlframe-IsValid env pc jumpslot op start_types end_types ctx a os lt v =
    let c1 = opened_context env pc jumpslot op start_types end_types ctx in
    push_ctrlframe-Safe _ env pc jumpslot op start_types end_types ctx a (
      Safe-mono (λ _ c. Keeps c1 c) _ (λ _ c k. (k.valid, k.same_frames))
        (push_valtypes env start_types c1)
        (push_valtypes-Keeps env start_types _ _ c1 refl os lt
          (opened_context-IsValid env pc jumpslot op start_types end_types ctx v)))

-- Closing the innermost frame when its operands are the expected ones and no more.
closed-IsValid :
    (f : Ctrlframe) (fs : List Ctrlframe) (ctx : Context)
    → ctx.cframes ≡ f ∷ fs
    → length ctx.valtypes ≡ f.height
    → IsValid ctx
    → (ctx.ncells ≡ f.height_cell) × IsValid (record ctx { cframes = fs })
closed-IsValid f fs ctx e l v =
    let (h, os, c, rest) : Frames (f ∷ fs) ctx.valtypes ctx.ncells = rw e at v.frames in
    let z : length ctx.valtypes - f.height ≡ 0 = omega arith in
    let c' : Counted f (take 0 ctx.valtypes) ctx.ncells = rw z at c in
    let rest' : Frames fs (drop 0 ctx.valtypes) f.height_cell = rw z at rest in
    let n : ctx.ncells ≡ f.height_cell = ground arith in
    let b : length (f ∷ fs) ≤ ctx.maxlabels = rw e at v.labels_bound in
    (n, record { frames = rw n rest'; cells_bound = v.cells_bound; labels_bound = omega arith })

Safe-refused :
    (P : Unit {0} → Context → Type 0) (r : Result (Unit {0} × Context))
    → Safe P r
    → Safe P (elim r [ ok r ↦ ok r | err e ↦ err (refusal e) | fault ↦ fault ])
Safe-refused P (ok (a, c)) h = h
Safe-refused P (err e) h = tt
Safe-refused P fault h = h

-- The last steps of `pop_ctrlframe`, after the results of the frame are popped.
abbrev close : Ctrlframe → List Ctrlframe → Validator Ctrlframe
close f fs = do
  lsize ← gets (λ c. length c.valtypes)
  ncells ← gets (λ c. c.ncells)
  lift (guard (lsize == f.height) einval)
  lift (assert (ncells == f.height_cell))
  λ c. ok (f, record c { cframes = fs })

-- The frame is closed, and no more operands and no other jumps are there.
abbrev pub Closes : List Ctrlframe → Context → Context → Type 0
Closes fs ctx ctx' =
    IsValid ctx'
    × (ctx'.cframes ≡ fs)
    × (ctx'.jumps ≡ ctx.jumps)
    × (length ctx'.valtypes ≤ length ctx.valtypes)

close-Closes :
    (f : Ctrlframe) (fs : List Ctrlframe) (ctx : Context)
    → IsValid ctx
    → ctx.cframes ≡ f ∷ fs
    → Safe (λ g ctx'. (g ≡ f) × Closes fs ctx ctx') (close f fs ctx)
close-Closes f fs ctx v e = elim (Bool-cases (length ctx.valtypes == f.height)) [
  | inr b ↦ rw b tt
  | inl b ↦
      let (n, w) = closed-IsValid f fs ctx e (ground arith) v in
      rw (b, ==_eq ctx.ncells f.height_cell n) (refl, (w, refl, refl, omega arith))
]

pub cons-ne-nil : {A : Type 0} {a : A} {xs : List A} → (a ∷ xs) ≢ []
cons-ne-nil h = cc

-- The steps of `pop_ctrlframe` after the jump slot is filled.
abbrev pub leave : Ctrlframe → List Ctrlframe → Validator Ctrlframe
leave f fs = do
  λ c. elim (pop_each (reverse f.end_types) c) [
    | ok r ↦ ok r
    | err e ↦ err (refusal e)
    | fault ↦ fault
  ]
  close f fs

pub leave-Closes :
    (f : Ctrlframe) (fs : List Ctrlframe) (ctx : Context)
    → IsValid ctx
    → ctx.cframes ≡ f ∷ fs
    → Safe (λ g ctx'. (g ≡ f) × Closes fs ctx ctx') (leave f fs ctx)
leave-Closes f fs ctx v e =
    Safe->>= (λ _ c. Pops ctx c) (λ g ctx'. (g ≡ f) × Closes fs ctx ctx')
      (λ c. elim (pop_each (reverse f.end_types) c) [
        | ok r ↦ ok r
        | err e ↦ err (refusal e)
        | fault ↦ fault
      ])
      (λ _. close f fs) ctx
      (Safe-refused (λ _ c. Pops ctx c) (pop_each (reverse f.end_types) ctx)
        (pop_each-Pops (reverse f.end_types) ctx v (rw e cons-ne-nil)))
      λ _ c (k, l).
        Safe-mono (λ g ctx'. (g ≡ f) × Closes fs c ctx') (λ g ctx'. (g ≡ f) × Closes fs ctx ctx')
          (λ g ctx' (eg, (w, ef, ej, el)). (eg, (w, ef, ej ∙ k.same_jumps, omega arith)))
          (close f fs c) (close-Closes f fs c k.valid (k.same_frames ∙ e))

-- In a valid context with a frame and no jump table, closing the frame is an error, or gives the
-- frame and ends in a valid context with the enclosing frames. No assertion fails but that of
-- `valtype_cellsize` on `exnref`.
pub pop_ctrlframe-IsValid :
    (pc : ℕ) (is_else : Bool) (f : Ctrlframe) (fs : List Ctrlframe) (ctx : Context)
    → ctx.cframes ≡ f ∷ fs
    → ctx.jumps ≡ []
    → IsValid ctx
    → Safe (λ g ctx'. IsValid ctx' × (g ≡ f) × (ctx'.cframes ≡ fs)) (pop_ctrlframe pc is_else ctx)
unfolding pop_ctrlframe pop_valtypes has_slot
pop_ctrlframe-IsValid pc is_else f fs ctx e j v =
    let c0 : Context = record ctx { cframes = f ∷ fs; jumps = [] } in
    let v0 : IsValid c0 = record {
      frames = rw e at v.frames;
      cells_bound = v.cells_bound;
      labels_bound = rw e at v.labels_bound;
    } in
    elim (Bool-cases (is_else && not (is_op f.op if_))) [
      | inl b ↦ rw (e, b) tt
      | inr b ↦
          rw (e, b, j)
            (Safe-mono (λ g c. (g ≡ f) × Closes fs c0 c) _ (λ g c (eg, (w, ef, _, _)). (w, eg, ef))
              (leave f fs c0) (leave-Closes f fs c0 v0 refl))
    ]
