-- ===== src/Validation/Fills.antt =====
-- Closing a frame fills its slot of the jump table, and leaves the slots of the enclosing frames open.
use wasm_doctor.Prelude.{
  ℕ, zero, suc, ◌+◌, ◌≤◌, ◌<◌, ◌≡◌, refl, sym, ◌∙◌, Bool, true, false, not, ◌&&◌, none, some, List,
  [], ◌∷◌, length, set, get_elem?, ◌==◌, if◌then◌else◌, Result, ok, fault, arith, assert,
  length-set,
}
use wasm_doctor.Validation.{
  FrameOp, block, loop, if_, else_, end, try_table, empty_else, invoke, is_op, Ctrlframe, Context,
  Jump, fill_slot, has_slot, lift, ◌>>◌, pure,
}
use mathlib.Core.Path.{subst}
use wasm_doctor.Validation.Safe.{Safe, Safe-mono}
use wasm_doctor.Validation.Slots.{
  is_open, width, HasSlots, lower, SlotsIn, is_open-set, SlotsIn-set, SlotsIn-mono,
}

is_open-get :
    (js : List Jump) (i : ℕ)
    → is_open js i ≡ true
    → (j : Jump) × (get_elem? js i ≡ some j) × ((j.pc == 0) ≡ false) × ((j.targetpc == 0) ≡ true)
unfolding is_open
is_open-get [] i h = cc
is_open-get (j ∷ js) zero h = (j, refl, ground arith, ground arith)
is_open-get (j ∷ js) (suc i) h = is_open-get js i h

-- One slot is filled, and those before it are as they were.
abbrev Fills : List Ctrlframe → ℕ → ℕ → Context → Context → Type 0
Fills fs s i ctx c =
    (js : List Jump) × (c ≡ record ctx { jumps = js })
    × (length js ≡ length ctx.jumps)
    × SlotsIn js fs s
    × ((k : ℕ) → k < i → is_open js k ≡ is_open ctx.jumps k)

fill_slot-found :
    (i pc : ℕ) (ctx : Context) (j : Jump)
    → get_elem? ctx.jumps i ≡ some j
    → ((j.pc == 0) ≡ false)
    → ((j.targetpc == 0) ≡ true)
    → fill_slot i pc ctx
      ≡ ok (tt, record ctx { jumps = set ctx.jumps i (record j { targetpc = pc }) })
unfolding fill_slot
fill_slot-found i pc ctx j e p t =
    subst
      (λ r.
        (elim r [
          | none ↦ fault
          | some j ↦
              (lift (assert (not (j.pc == 0))) >> lift (assert (j.targetpc == 0)))
                (record ctx { jumps = set ctx.jumps i (record j { targetpc = pc }) })
        ])
        ≡ ok (tt, record ctx { jumps = set ctx.jumps i (record j { targetpc = pc }) }))
      (sym e) (rw (p, t) refl)

fill_slot-Fills :
    (fs : List Ctrlframe) (pc s i : ℕ) (ctx : Context)
    → is_open ctx.jumps i ≡ true
    → s ≤ i
    → SlotsIn ctx.jumps fs s
    → Safe (λ _ c. Fills fs s i ctx c) (fill_slot i pc ctx)
fill_slot-Fills fs pc s i ctx o le sl =
    let (j, e, p, t) = is_open-get ctx.jumps i o in
    let v : Jump = record j { targetpc = pc } in
    rw (fill_slot-found i pc ctx j e p t) (
      set ctx.jumps i v,
      refl,
      length-set ctx.jumps i v,
      SlotsIn-set ctx.jumps fs s i v le sl,
      λ k lt. is_open-set ctx.jumps i k v lt,
    )

-- What the closing of a frame leaves of the table; after the first part of an `if`, one slot is left
-- for the `else`.
abbrev pub Filled : Bool → ℕ → List Ctrlframe → Context → Context → Type 0
Filled is_else s fs ctx c =
    (js : List Jump) × (c ≡ record ctx { jumps = js })
    × SlotsIn js fs (length js)
    × (is_else ≡ true → HasSlots 1 js s (length js) × SlotsIn js fs s)

abbrev pub fill : FrameOp → ℕ → Bool → ℕ → Context → Result (Unit {0} × Context)
fill op s is_else pc ctx =
    (if has_slot op ctx.jumps then fill_slot (s + (if is_else then 1 else 0)) pc else pure tt) ctx

-- A frame with one slot.
one-Filled :
    (fs : List Ctrlframe) (pc s : ℕ) (ctx : Context)
    → HasSlots 1 ctx.jumps s (length ctx.jumps)
    → SlotsIn ctx.jumps fs s
    → Safe (λ _ c. Filled false s fs ctx c) (fill_slot (s + 0) pc ctx)
one-Filled fs pc s ctx (lt, o) sl =
    let e : s + 0 ≡ s = omega arith in
    rw e (
      Safe-mono (λ _ c. Fills fs s s ctx c) (λ _ c. Filled false s fs ctx c)
        (λ _ c (js, ec, l, sl', same).
          (js, ec, SlotsIn-mono js fs s (length js) (omega arith) sl', λ h. cc))
        (fill_slot s pc ctx) (fill_slot-Fills fs pc s s ctx o (omega arith) sl))

-- An `if`: the first slot at its `end`, the second one at its `else`.
if-Filled :
    (is_else : Bool) (fs : List Ctrlframe) (pc s : ℕ) (ctx : Context)
    → HasSlots 2 ctx.jumps s (length ctx.jumps)
    → SlotsIn ctx.jumps fs s
    → Safe (λ _ c. Filled is_else s fs ctx c) (fill_slot (s + (if is_else then 1 else 0)) pc ctx)
if-Filled false fs pc s ctx (lt, o, _) sl = one-Filled fs pc s ctx (omega arith, o) sl
if-Filled true fs pc s ctx (lt, o, o') sl =
    Safe-mono (λ _ c. Fills fs s (s + 1) ctx c) (λ _ c. Filled true s fs ctx c)
      (λ _ c (js, ec, l, sl', same). (
        js,
        ec,
        SlotsIn-mono js fs s (length js) (omega arith) sl',
        λ _. ((omega arith, same s (omega arith) ∙ o), sl'),
      ))
      (fill_slot (s + 1) pc ctx) (fill_slot-Fills fs pc s (s + 1) ctx o' (omega arith) sl)

none-Filled :
    (s : ℕ) (fs : List Ctrlframe) (ctx : Context)
    → SlotsIn ctx.jumps fs (length ctx.jumps)
    → Filled false s fs ctx ctx
none-Filled s fs ctx sl = (ctx.jumps, refl, sl, λ h. cc)

slotted : (js : List Jump) (s : ℕ) → s < length js → has_slot block js ≡ true
unfolding has_slot
slotted [] s h = absurd (omega arith)
slotted (j ∷ js) s h = refl

else-if : (is_else : Bool) → (is_else && not false) ≡ false → is_else ≡ false
else-if true h = cc
else-if false h = refl

unslotted : (op : FrameOp) (js : List Jump) → width op ≡ 0 → has_slot op js ≡ false
unfolding has_slot
unslotted op [] h = refl
unslotted op (j ∷ js) h =
    elim op as (λ o. width o ≡ 0 → has_slot o (j ∷ js) ≡ false) [
      | block ↦ λ x. cc
      | loop ↦ λ _. refl
      | if_ ↦ λ x. cc
      | else_ ↦ λ x. cc
      | end ↦ λ x. cc
      | try_table ↦ λ x. cc
      | empty_else ↦ λ _. refl
      | invoke ↦ λ _. refl
    ]
      h

has_slot-width :
    (op : FrameOp) (js : List Jump) (s : ℕ)
    → s < length js
    → (width op ≡ 0 → ⊥)
    → has_slot op js ≡ true
unfolding has_slot
has_slot-width op [] s h ne = absurd (omega arith)
has_slot-width op (j ∷ js) s h ne =
    elim op as (λ o. (width o ≡ 0 → ⊥) → has_slot o (j ∷ js) ≡ true) [
      | block ↦ λ _. refl
      | loop ↦ λ x. absurd (x refl)
      | if_ ↦ λ _. refl
      | else_ ↦ λ _. refl
      | end ↦ λ _. refl
      | try_table ↦ λ _. refl
      | empty_else ↦ λ x. absurd (x refl)
      | invoke ↦ λ x. absurd (x refl)
    ]
      ne

module _ (is_else : Bool) (s pc : ℕ) (fs : List Ctrlframe) (ctx : Context) where
  -- What closing a frame of the kind does, from what the table holds for it.
  abbrev Filling : FrameOp → Type 0
  Filling op =
      (is_else && not (is_op op if_)) ≡ false
      → HasSlots (width op) ctx.jumps s (length ctx.jumps)
      → SlotsIn ctx.jumps fs (lower (width op) s (length ctx.jumps))
      → Safe (λ _ c. Filled is_else s fs ctx c) (fill op s is_else pc ctx)

  slotted-Filling : (op : FrameOp) → width op ≡ 1 → is_op op if_ ≡ false → Filling op
  slotted-Filling op w n g hs sl =
      let z : is_else ≡ false = else-if is_else (rw n at g) in
      let hs' : HasSlots 1 ctx.jumps s (length ctx.jumps) = rw w at hs in
      let sl' : SlotsIn ctx.jumps fs s = rw w at sl in
      rw (has_slot-width op ctx.jumps s hs'.0 (λ e. absurd (omega arith)), z)
        (one-Filled fs pc s ctx hs' sl')

  unslotted-Filling : (op : FrameOp) → width op ≡ 0 → is_op op if_ ≡ false → Filling op
  unslotted-Filling op w n g hs sl =
      let z : is_else ≡ false = else-if is_else (rw n at g) in
      let sl' : SlotsIn ctx.jumps fs (length ctx.jumps) = rw w at sl in
      rw (unslotted op ctx.jumps w, z) (none-Filled s fs ctx sl')

  if-Filling : Filling if_
  if-Filling g hs sl =
      rw (has_slot-width if_ ctx.jumps s (omega arith) (λ e. cc))
        (if-Filled is_else fs pc s ctx hs sl)

  pub fill-Filled : (op : FrameOp) → Filling op
  fill-Filled op = elim op as Filling [
    | block ↦ slotted-Filling block refl refl
    | loop ↦ unslotted-Filling loop refl refl
    | if_ ↦ if-Filling
    | else_ ↦ slotted-Filling else_ refl refl
    | end ↦ slotted-Filling end refl refl
    | try_table ↦ slotted-Filling try_table refl refl
    | empty_else ↦ unslotted-Filling empty_else refl refl
    | invoke ↦ unslotted-Filling invoke refl refl
  ]
