-- ===== src/Insn/Ends.antt =====
-- The instruction `end` keeps what holds during the validation, or ends it.
use wasm_doctor.Prelude.{
  ℕ, suc, ◌+◌, ◌-◌, ◌^◌, ◌≤◌, ◌<◌, ◌≡◌, ◌≢◌, refl, sym, ◌∙◌, false, not, ◌&&◌, ◌||◌, List, [], ◌∷◌,
  length, ◌==◌, assert, arith, inl, inr, Bool-cases, if◌then◌else◌,
}
use wasm_doctor.Validation.{
  if_, empty_else, invoke, is_op, Ctrlframe, Context, Env, Validator, ◌>>=◌, ◌>>◌, pure, lift, gets,
  push_valtypes, push_ctrlframe, pop_ctrlframe,
}
use wasm_doctor.Validation.Safe.{Safe, Safe->>=, Safe-mono}
use wasm_doctor.Validation.Invariant.{Operands, IsValid}
use wasm_doctor.Validation.Control.{opened}
use wasm_doctor.Validation.Slots.{JumpTable}
use wasm_doctor.Validation.Sound.{IsSound, Typed, Rooted, is_empty}
use wasm_doctor.Validation.Sound.Steps.{Sound->>=, frame_of, push_valtypes-Sound}
use wasm_doctor.Validation.Sound.Blocks.{Closed, Opens, opened-Opens, pop_ctrlframe-Closed}
use wasm_doctor.Insn.{Code, process_end, empty_else_of, is_empty_stack}
use wasm_doctor.Insn.Reads.{IsReady, IsCode, Ends, ptr2pc-then}
use wasm_doctor.Insn.Blocks.{if-not-invoke, Closed-Ready}

-- What is left of the frame `f` when the frame `g` has been closed for it: that frame itself, or the
-- empty `else` behind it.
record Left (env : Env) (f : Ctrlframe) (fs : List Ctrlframe) (g : Ctrlframe) (c : Context)
    : Type 0 where
  same_end : g.end_types ≡ f.end_types
  root : is_op g.op invoke ≡ is_empty fs
  valid : IsValid c
  few : length c.valtypes ≤ 2 ^ 28
  same_frames : c.cframes ≡ fs
  table : JumpTable env c.jumps fs

Closed-Left :
    (env : Env) (f : Ctrlframe) (fs : List Ctrlframe) (g : Ctrlframe) (c : Context)
    → g.end_types ≡ f.end_types
    → is_op g.op invoke ≡ is_empty fs
    → Closed env false g fs c
    → Left env f fs g c
Closed-Left env f fs g c e r k = record {
  same_end = e;
  root = r;
  valid = k.valid;
  few = k.few;
  same_frames = k.same_frames;
  table = k.table;
}

Left-IsSound :
    (env : Env) (f : Ctrlframe) (fs : List Ctrlframe) (g : Ctrlframe) (c : Context)
    → Typed fs
    → Rooted fs
    → fs ≢ []
    → Left env f fs g c
    → IsSound env c
Left-IsSound env f fs g c t r ne k = record {
  valid = k.valid;
  few = k.few;
  typed = rw k.same_frames t;
  table = rw k.same_frames k.table;
  rooted = rw k.same_frames r;
  open_frame = rw k.same_frames ne;
}

positive-ne : (n : ℕ) → (suc n == 0) ≡ false
positive-ne n = ground arith

module _ (code : Code) (ready : IsReady code) where
  empty_else_of-Left :
      (pc : ℕ) (f : Ctrlframe) (fs : List Ctrlframe) (ctx c : Context)
      → 0 < pc
      → pc + 1 < 2 ^ 32
      → ctx.cframes ≡ f ∷ fs
      → IsSound code.env ctx
      → Closed code.env false f fs c
      → Safe (Left code.env f fs) (empty_else_of code pc f c)
  unfolding empty_else_of
  empty_else_of-Left pc f fs ctx c h lt e s k =
      let r : Rooted (f ∷ fs) = rw e at s.rooted in
      elim (Bool-cases (is_op f.op if_)) [
        | inr i ↦ rw i (Closed-Left code.env f fs f c refl r.0 k)
        | inl i ↦ rw i (
            Safe->>= (λ _ d. Opens code.env empty_else 0 f.start_types f.end_types c d)
              (Left code.env f fs)
              (push_ctrlframe code.env pc empty_else 0 f.start_types f.end_types)
              (λ _. pop_ctrlframe pc false) c
              (opened-Opens code.env ready.modest pc empty_else f.start_types f.end_types c h lt
                refl (Closed-Ready code.env empty_else false f fs ctx c e s i refl k)
                (rw k.same_frames k.table))
              λ _ d (s', e').
                let g = opened code.env empty_else 0 f.start_types f.end_types c in
                Safe-mono (λ g' c'. (g' ≡ g) × Closed code.env false g c.cframes c')
                  (Left code.env f fs)
                  (λ g' c' (eg, k'). rw eg (
                    Closed-Left code.env f fs g c' refl (sym (if-not-invoke f.op i) ∙ r.0)
                      (rw k.same_frames at k')))
                  (pop_ctrlframe pc false d)
                  (pop_ctrlframe-Closed code.env pc false g c.cframes d e' s'))
      ]

  -- The rest of the instruction, after the frames are closed.
  abbrev finish : Ctrlframe → List ℕ → Validator (List ℕ)
  finish cframe src = do
    done ← gets is_empty_stack
    let root = is_op cframe.op invoke
    lift (assert (root && done || not root && not done))
    if root then pure tt else push_valtypes code.env cframe.end_types
    pure src

  finish-Ends :
      (f : Ctrlframe) (fs : List Ctrlframe) (g : Ctrlframe) (src : List ℕ) (c : Context)
      → Typed fs
      → Rooted fs
      → Operands false f.end_types
      → IsCode code src
      → Left code.env f fs g c
      → Safe (Ends code src) (finish g src c)
  unfolding is_empty_stack
  finish-Ends f [] g src c t r os (b, l) k =
      let v : IsValid (record c { cframes = [] }) = record {
        frames = rw k.same_frames at k.valid.frames;
        cells_bound = k.valid.cells_bound;
        labels_bound = omega arith;
      } in
      rw (k.root, k.same_frames) (inr (v, refl), (b, omega arith))
  finish-Ends f (h ∷ fs) g src c t r os (b, l) k =
      let z : (length c.cframes == 0) ≡ false = rw k.same_frames (positive-ne (length fs)) in
      rw (k.root, z)
        (Sound->>= code.env (Ends code src) (push_valtypes code.env g.end_types) (λ _. pure src) c
          (push_valtypes-Sound code.env ready.modest g.end_types c (rw k.same_end os)
            (Left-IsSound code.env f (h ∷ fs) g c t r (λ x. cc) k))
          λ _ d s'. (inl s', (b, omega arith)))

  -- In a sound context of code that is ready, the instruction `end` is an error, or leaves a sound
  -- context, or is the last one and leaves a valid context without frames. No assertion fails but
  -- that of `valtype_cellsize` on `exnref`: the frame of the function is the only one whose end
  -- leaves no frame. It is assumed that realloc grants no vector of more than 2^28 value types.
  pub process_end-Ends :
      (src : List ℕ) (ctx : Context)
      → IsCode code src
      → IsSound code.env ctx
      → Safe (Ends code src) (process_end code src ctx)
  unfolding process_end
  process_end-Ends src ctx (b, l) s =
      let (f, fs, e) = frame_of code.env ctx s in
      let pc = code.end_offset - length src - 0 in
      let t : Typed (f ∷ fs) = rw e at s.typed in
      let r : Rooted (f ∷ fs) = rw e at s.rooted in
      rw
        (ptr2pc-then code src 0
          (λ pc. pop_ctrlframe pc false >>= λ closed.
            empty_else_of code pc closed >>= λ cframe. finish cframe src)
          ctx ready (omega arith))
        (Safe->>= (λ g c. (g ≡ f) × Closed code.env false f fs c) (Ends code src)
          (pop_ctrlframe pc false) _ ctx (pop_ctrlframe-Closed code.env pc false f fs ctx e s)
          λ g c (eg, k). rw eg (
            Safe->>= (Left code.env f fs) (Ends code src) (empty_else_of code pc f) _ c
              (empty_else_of-Left pc f fs ctx c (omega arith) (omega (arith, ready.short)) e s k)
              λ g' d k'. finish-Ends f fs g' src d t.2 r.1 t.1 (b, l) k'))
