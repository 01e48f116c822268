-- ===== src/Validation/Slots.antt =====
-- The slots of the jump table: every frame that jumps out of it has a slot of its own, which is not
-- filled yet, and those of an inner frame lie behind those of an outer one.
use wasm_doctor.Prelude.{
  ℕ, zero, suc, ◌+◌, ◌%◌, ◌^◌, ◌≤◌, ◌<◌, ◌≡◌, refl, ap, sym, ◌∙◌, Bool, true, false, not, ◌&&◌, ◌⊎◌,
  inl, inr, List, [], ◌∷◌, ◌++◌, length, set, ltb, ◌==◌, if◌then◌else◌, lt→ltb, arith,
  length-append,
}
use wasm_doctor.Validation.{
  FrameOp, block, loop, if_, else_, end, try_table, empty_else, invoke, is_op, Ctrlframe, Env, Jump,
  slots, new_slots,
}

-- The slot is there, for a jump from a known place to one that is not known yet.
unfoldable pub is_open : List Jump → ℕ → Bool
is_open [] i = false
is_open (j ∷ js) zero = not (j.pc == 0) && j.targetpc == 0
is_open (j ∷ js) (suc i) = is_open js i

-- How many slots the validation of a frame fills.
abbrev pub width : FrameOp → ℕ
width block = 1
width loop = 0
width if_ = 2
width else_ = 1
width end = 1
width try_table = 1
width empty_else = 0
width invoke = 0

abbrev pub HasSlots : ℕ → List Jump → ℕ → ℕ → Type 0
HasSlots zero js s b = Unit
HasSlots (suc zero) js s b = (s < b) × (is_open js s ≡ true)
HasSlots (suc (suc n)) js s b = (s + 1 < b) × (is_open js s ≡ true) × (is_open js (s + 1) ≡ true)

-- Where the slots of the enclosing frames end.
abbrev pub lower : ℕ → ℕ → ℕ → ℕ
lower zero s b = b
lower (suc n) s b = s

abbrev pub SlotsIn : List Jump → List Ctrlframe → ℕ → Type 0
SlotsIn js [] b = Unit
SlotsIn js (f ∷ fs) b =
    HasSlots (width f.op) js f.jumpslot b × SlotsIn js fs (lower (width f.op) f.jumpslot b)

-- With the option off, there is no table.
abbrev pub JumpTable : Env → List Jump → List Ctrlframe → Type 0
JumpTable env js fs =
    ((env.generate_jump_table ≡ false) × (js ≡ []))
    ⊎ ((env.generate_jump_table ≡ true) × SlotsIn js fs (length js))

pub is_open-set :
    (js : List Jump) (i k : ℕ) (v : Jump) → k < i → is_open (set js i v) k ≡ is_open js k
unfolding is_open
is_open-set [] i k v h = refl
is_open-set (j ∷ js) zero k v h = absurd (omega arith)
is_open-set (j ∷ js) (suc i) zero v h = refl
is_open-set (j ∷ js) (suc i) (suc k) v h = is_open-set js i k v (omega arith)

is_open-append : (js ks : List Jump) (k : ℕ) → is_open js k ≡ true → is_open (js ++ ks) k ≡ true
unfolding is_open
is_open-append [] ks k h = cc
is_open-append (j ∷ js) ks zero h = h
is_open-append (j ∷ js) ks (suc k) h = is_open-append js ks k h

-- The first open slot behind a list.
is_open-end : (js ks : List Jump) (i : ℕ) → is_open (js ++ ks) (length js + i) ≡ is_open ks i
unfolding is_open
is_open-end [] ks i = let e : 0 + i ≡ i = omega arith in ap (is_open ks) e
is_open-end (x ∷ js) ks i =
    let e : suc (length js) + i ≡ suc (length js + i) = omega arith in
    ap (is_open (x ∷ (js ++ ks))) e ∙ is_open-end js ks i

HasSlots-set :
    (n : ℕ) (js : List Jump) (s b i : ℕ) (v : Jump)
    → b ≤ i
    → HasSlots n js s b
    → HasSlots n (set js i v) s b
HasSlots-set zero js s b i v h o = tt
HasSlots-set (suc zero) js s b i v h (lt, o) = (lt, is_open-set js i s v (omega arith) ∙ o)
HasSlots-set (suc (suc n)) js s b i v h (lt, o, o') =
    (lt, is_open-set js i s v (omega arith) ∙ o, is_open-set js i (s + 1) v (omega arith) ∙ o')

lower-le : (n : ℕ) (js : List Jump) (s b : ℕ) → HasSlots n js s b → lower n s b ≤ b
lower-le zero js s b o = omega arith
lower-le (suc zero) js s b o = omega arith
lower-le (suc (suc n)) js s b o = omega arith

pub SlotsIn-set :
    (js : List Jump) (fs : List Ctrlframe) (b i : ℕ) (v : Jump)
    → b ≤ i
    → SlotsIn js fs b
    → SlotsIn (set js i v) fs b
SlotsIn-set js [] b i v h s = tt
SlotsIn-set js (f ∷ fs) b i v h (o, s) = (
  HasSlots-set (width f.op) js f.jumpslot b i v h o,
  SlotsIn-set js fs (lower (width f.op) f.jumpslot b) i v
      (omega (arith, lower-le (width f.op) js f.jumpslot b o)) s,
)

HasSlots-append :
    (n : ℕ) (js ks : List Jump) (s b c : ℕ) → b ≤ c → HasSlots n js s b → HasSlots n (js ++ ks) s c
HasSlots-append zero js ks s b c h o = tt
HasSlots-append (suc zero) js ks s b c h (lt, o) = (omega arith, is_open-append js ks s o)
HasSlots-append (suc (suc n)) js ks s b c h (lt, o, o') =
    (omega arith, is_open-append js ks s o, is_open-append js ks (s + 1) o')

lower_mono : (n s b c : ℕ) → b ≤ c → lower n s b ≤ lower n s c
lower_mono zero s b c h = h
lower_mono (suc n) s b c h = omega arith

HasSlots-mono : (n : ℕ) (js : List Jump) (s b c : ℕ) → b ≤ c → HasSlots n js s b → HasSlots n js s c
HasSlots-mono zero js s b c h o = tt
HasSlots-mono (suc zero) js s b c h (lt, o) = (omega arith, o)
HasSlots-mono (suc (suc n)) js s b c h (lt, o, o') = (omega arith, o, o')

pub SlotsIn-mono :
    (js : List Jump) (fs : List Ctrlframe) (b c : ℕ) → b ≤ c → SlotsIn js fs b → SlotsIn js fs c
SlotsIn-mono js [] b c h s = tt
SlotsIn-mono js (f ∷ fs) b c h (o, s) = (
  HasSlots-mono (width f.op) js f.jumpslot b c h o,
  SlotsIn-mono js fs (lower (width f.op) f.jumpslot b) (lower (width f.op) f.jumpslot c)
      (lower_mono (width f.op) f.jumpslot b c h) s,
)

pub SlotsIn-append :
    (js ks : List Jump) (fs : List Ctrlframe) (b c : ℕ)
    → b ≤ c
    → SlotsIn js fs b
    → SlotsIn (js ++ ks) fs c
SlotsIn-append js ks [] b c h s = tt
SlotsIn-append js ks (f ∷ fs) b c h (o, s) = (
  HasSlots-append (width f.op) js ks f.jumpslot b c h o,
  SlotsIn-append js ks fs (lower (width f.op) f.jumpslot b) (lower (width f.op) f.jumpslot c)
      (lower_mono (width f.op) f.jumpslot b c h) s,
)

slots-width :
    (env : Env) (op : FrameOp)
    → env.generate_jump_table ≡ true
    → is_op op else_ ≡ false
    → slots env op ≡ width op
unfolding slots
slots-width env op g h =
    elim op as (λ o. is_op o else_ ≡ false → slots env o ≡ width o) [
      | block ↦ λ _. rw g refl
      | loop ↦ λ _. rw g refl
      | if_ ↦ λ _. rw g refl
      | else_ ↦ λ x. cc
      | end ↦ λ _. rw g refl
      | try_table ↦ λ _. rw g refl
      | empty_else ↦ λ _. rw g refl
      | invoke ↦ λ _. rw g refl
    ]
      h

slots-zero : (env : Env) (op : FrameOp) → env.generate_jump_table ≡ false → slots env op ≡ 0
unfolding slots
slots-zero env op g = rw g refl

add_zero : (n : ℕ) → n + 0 ≡ n
add_zero n = omega arith

-- The slots that a new frame gets.
is_open-first : (js ks : List Jump) → is_open ks 0 ≡ true → is_open (js ++ ks) (length js) ≡ true
is_open-first js ks h =
    let e : is_open (js ++ ks) (length js) ≡ is_open (js ++ ks) (length js + 0) =
      ap (is_open (js ++ ks)) (sym (add_zero (length js))) in
    e ∙ is_open-end js ks 0 ∙ h

is_open-second :
    (js ks : List Jump) → is_open ks 1 ≡ true → is_open (js ++ ks) (length js + 1) ≡ true
is_open-second js ks h = is_open-end js ks 1 ∙ h

new_slot-is_open :
    (pc : ℕ) (js : List Jump) → 0 < pc → is_open (record { pc = pc; targetpc = 0 } ∷ js) 0 ≡ true
unfolding is_open
new_slot-is_open pc js h = ground arith

new_slot-second :
    (pc : ℕ) (j : Jump)
    → pc + 1 < 2 ^ 32
    → is_open (j ∷ record { pc = (pc + 1) % 2 ^ 32; targetpc = 0 } ∷ []) 1 ≡ true
unfolding is_open
new_slot-second pc j h = ground arith

new_slots-HasSlots :
    (n pc : ℕ) (js : List Jump)
    → 0 < pc
    → pc + 1 < 2 ^ 32
    → HasSlots n (js ++ new_slots n pc) (length js) (length (js ++ new_slots n pc))
unfolding new_slots
new_slots-HasSlots zero pc js h lt = tt
new_slots-HasSlots (suc zero) pc js h lt =
    rw (length-append js (new_slots 1 pc))
      (omega arith, is_open-first js (new_slots 1 pc) (new_slot-is_open pc [] h))
new_slots-HasSlots (suc (suc n)) pc js h lt = rw (length-append js (new_slots (suc (suc n)) pc)) (
  omega arith,
  is_open-first js (new_slots 2 pc) (new_slot-is_open pc _ h),
  is_open-second js (new_slots 2 pc) (new_slot-second pc _ lt),
)

lower-first_slot :
    (n : ℕ) (js ks : List Jump)
    → length js ≤ lower n (if ltb 0 n then length js else 0) (length (js ++ ks))
lower-first_slot zero js ks = rw (length-append js ks) (omega arith)
lower-first_slot (suc n) js ks = rw (lt→ltb 0 (suc n) (omega arith)) (omega arith)

HasSlots-first_slot :
    (n pc : ℕ) (js : List Jump)
    → 0 < pc
    → pc + 1 < 2 ^ 32
    → HasSlots n
        (js ++ new_slots n pc)
        (if ltb 0 n then length js else 0)
        (length (js ++ new_slots n pc))
HasSlots-first_slot zero pc js h lt = tt
HasSlots-first_slot (suc n) pc js h lt =
    rw (lt→ltb 0 (suc n) (omega arith)) (new_slots-HasSlots (suc n) pc js h lt)

-- Opening a frame that is not an `else`.
opened-SlotsIn :
    (n pc : ℕ) (js : List Jump) (f : Ctrlframe) (fs : List Ctrlframe)
    → 0 < pc
    → pc + 1 < 2 ^ 32
    → n ≡ width f.op
    → f.jumpslot ≡ (if ltb 0 n then length js else 0)
    → SlotsIn js fs (length js)
    → SlotsIn (js ++ new_slots n pc) (f ∷ fs) (length (js ++ new_slots n pc))
opened-SlotsIn n pc js f fs h lt w e sl =
    rw (sym w, e)
      (
        HasSlots-first_slot n pc js h lt,
        SlotsIn-append js (new_slots n pc) fs (length js) _ (lower-first_slot n js (new_slots n pc))
            sl,
      )

append_nil : {A : Type 0} (xs : List A) → xs ++ [] ≡ xs
append_nil [] = refl
append_nil (x ∷ xs) = ap (λ ys. x ∷ ys) (append_nil xs)

pub opened-JumpTable :
    (env : Env) (pc : ℕ) (js : List Jump) (f : Ctrlframe) (fs : List Ctrlframe)
    → 0 < pc
    → pc + 1 < 2 ^ 32
    → is_op f.op else_ ≡ false
    → f.jumpslot ≡ (if ltb 0 (slots env f.op) then length js else 0)
    → JumpTable env js fs
    → JumpTable env (js ++ new_slots (slots env f.op) pc) (f ∷ fs)
unfolding new_slots
opened-JumpTable env pc js f fs h lt ne e (inl (g, z)) =
    rw (slots-zero env f.op g, z) (inl (g, refl))
opened-JumpTable env pc js f fs h lt ne e (inr (g, s)) =
    inr (g, opened-SlotsIn (slots env f.op) pc js f fs h lt (slots-width env f.op g ne) e s)
