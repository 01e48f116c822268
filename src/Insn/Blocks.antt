-- ===== src/Insn/Blocks.antt =====
-- The instructions that open and close blocks keep what holds during the validation.
use wasm_doctor.Validation.Control.{opened}
use wasm_doctor.Prelude.{
  Result, ok, err, fault, ap, ℕ, ◌-◌, ◌≡◌, ◌≢◌, refl, sym, ◌∙◌, Bool, true, false, not, ◌&&◌, List,
  [], ◌∷◌, length, arith,
}
use wasm_doctor.Prelude.Int.{ℤ}
use wasm_doctor.Types.{i32, Resulttype}
use wasm_doctor.Types.Lookup.{get_functype_for_blocktype}
use wasm_doctor.Types.Lookup.Typed.{Yields, IsValuedPair, get_functype_for_blocktype-Valued}
use wasm_doctor.Leb128.{read_leb_s}
use wasm_doctor.Leb128.Forward.{Gives, Behind, IsBlocktype, read_leb_s33-Gives}
use wasm_doctor.Validation.{
  FrameOp, block, loop, if_, else_, end, try_table, empty_else, invoke, is_op, Ctrlframe, Context,
  Env, ◌>>=◌, ◌>>◌, pure, pop_valtype, pop_valtypes, push_ctrlframe, pop_ctrlframe,
}
use wasm_doctor.Validation.Safe.{Safe, Safe->>=, Safe-mono}
use wasm_doctor.Validation.Sound.{IsSound, Typed, Rooted, is_empty}
use wasm_doctor.Validation.Sound.Steps.{
  Stays, pop_valtype-Stays, pop_valtypes-Stays, Sound, Sound->>=, frame_of,
}
use wasm_doctor.Validation.Sound.Blocks.{
  Ready, Closed, Opens, opened-Opens, else-Opens, pop_ctrlframe-Closed,
}
use wasm_doctor.Insn.{Code, enter, process_block, process_loop, process_if, process_else}
use wasm_doctor.Insn.Reads.{IsReady, IsCode, Continues, Gives-then, Yields-then, ptr2pc-then}

is_empty-open : (fs : List Ctrlframe) → fs ≢ [] → is_empty fs ≡ false
is_empty-open [] h = absurd (h refl)
is_empty-open (f ∷ fs) h = refl

sound-Ready :
    (env : Env) (op : FrameOp) (start_types end_types : Resulttype) (ctx : Context)
    → IsSound env ctx
    → is_op op invoke ≡ false
    → IsValuedPair (start_types, end_types)
    → Ready env op start_types end_types ctx
sound-Ready env op start_types end_types ctx s ne (a, b) = record {
  valid = s.valid;
  few = s.few;
  typed = s.typed;
  rooted = s.rooted;
  typed_start = a;
  typed_end = b;
  root = ne ∙ sym (is_empty-open ctx.cframes s.open_frame);
}

-- The innermost frame is a new one, with the types of the block type.
abbrev pub Entered : Code → FrameOp → ℤ → Context → Context → Type 0
Entered code op blocktype ctx c =
    (types : Resulttype × Resulttype) × (get_functype_for_blocktype code.realloc code.m blocktype
      ≡ ok types)
    × (f : Ctrlframe) × (c.cframes ≡ f ∷ ctx.cframes)
    × (f.op ≡ op)
    × (f.start_types ≡ types.0)
    × (f.end_types ≡ types.1)
    × (f.unreachable ≡ false)

Yields-eq :
    {A : Type 0} (P : A → Type 0) (r : Result A) → Yields P r → Yields (λ a. (r ≡ ok a) × P a) r
Yields-eq P (ok a) h = (refl, h)
Yields-eq P (err e) h = tt
Yields-eq P fault h = h

Gives-eq :
    {A : Type 0} (P : A → List ℕ → Type 0) (r : Result (A × List ℕ))
    → Gives P r
    → Gives (λ a rest. (r ≡ ok (a, rest)) × P a rest) r
Gives-eq P (ok (a, rest)) h = (refl, h)
Gives-eq P (err e) h = tt
Gives-eq P fault h = h

module _ (code : Code) (ready : IsReady code) where
  -- A frame of a block, a loop or an `if`.
  enter-Entered :
      (op : FrameOp) (blocktype : ℤ) (src : List ℕ) (ctx : Context)
      → is_op op else_ ≡ false
      → is_op op invoke ≡ false
      → IsBlocktype blocktype
      → IsCode code src
      → IsSound code.env ctx
      → Safe
          (λ _ c. IsSound code.env c × Entered code op blocktype ctx c)
          (enter code op blocktype src ctx)
  unfolding enter
  enter-Entered op blocktype src ctx ne nv bt (b, l) s =
      let types_of : Result (Resulttype × Resulttype) =
        get_functype_for_blocktype code.realloc code.m blocktype in
      Yields-then (λ t. (types_of ≡ ok t) × IsValuedPair t)
        (λ _ c. IsSound code.env c × Entered code op blocktype ctx c) types_of _ ctx
        (Yields-eq IsValuedPair types_of
          (get_functype_for_blocktype-Valued code.realloc code.m blocktype ready.loaded bt))
        λ types (et, v).
          Safe->>= (λ _ c. Stays code.env ctx c)
            (λ _ c. IsSound code.env c × Entered code op blocktype ctx c) (pop_valtypes types.0) _
            ctx (pop_valtypes-Stays code.env types.0 ctx s)
            λ _ c (s', ef).
              rw
                (ptr2pc-then code src 1 (λ pc. push_ctrlframe code.env pc op 0 types.0 types.1) c
                  ready (omega arith))
                (Safe-mono (λ _ d. Opens code.env op 0 types.0 types.1 c d) _
                  (λ _ d h.
                    let g : Ctrlframe = opened code.env op 0 types.0 types.1 c in
                    (h.0, (types, et, g, h.1 ∙ ap (λ fs. g ∷ fs) ef, refl, refl, refl, refl)))
                  (push_ctrlframe code.env (code.end_offset - length src - 1) op 0 types.0 types.1
                    c)
                  (opened-Opens code.env ready.modest (code.end_offset - length src - 1) op types.0
                    types.1 c (omega arith) (omega (arith, ready.short)) ne
                    (sound-Ready code.env op types.0 types.1 c s' nv v) s'.table))

  enter-Sound :
      (op : FrameOp) (blocktype : ℤ) (src : List ℕ) (ctx : Context)
      → is_op op else_ ≡ false
      → is_op op invoke ≡ false
      → IsBlocktype blocktype
      → IsCode code src
      → IsSound code.env ctx
      → Sound code.env (enter code op blocktype src ctx)
  enter-Sound op blocktype src ctx ne nv bt b s =
      Safe-mono (λ _ c. IsSound code.env c × Entered code op blocktype ctx c) _ (λ _ c h. h.0)
        (enter code op blocktype src ctx) (enter-Entered op blocktype src ctx ne nv bt b s)

  -- In a sound context, the instruction `block` is an error, or leaves a sound context and goes
  -- forward. No assertion fails but that of `valtype_cellsize` on `exnref`.
  pub process_block-Continues :
      (src : List ℕ) (ctx : Context)
      → IsCode code src
      → IsSound code.env ctx
      → Safe (Continues code src) (process_block code src ctx)
  unfolding process_block
  process_block-Continues src ctx b s =
      Gives-then (λ v p. IsBlocktype v × Behind src p) (Continues code src) (read_leb_s 33 src) _
        ctx (read_leb_s33-Gives src b.0)
        λ blocktype p (bt, (b', l)).
          Sound->>= code.env (Continues code src) (enter code block blocktype src) _ ctx
            (enter-Sound block blocktype src ctx refl refl bt b s) λ _ c s'. (s', (b', omega arith))

  -- The same for the instruction `loop`.
  pub process_loop-Continues :
      (src : List ℕ) (ctx : Context)
      → IsCode code src
      → IsSound code.env ctx
      → Safe (Continues code src) (process_loop code src ctx)
  unfolding process_loop
  process_loop-Continues src ctx b s =
      Gives-then (λ v p. IsBlocktype v × Behind src p) (Continues code src) (read_leb_s 33 src) _
        ctx (read_leb_s33-Gives src b.0)
        λ blocktype p (bt, (b', l)).
          Sound->>= code.env (Continues code src) (enter code loop blocktype src) _ ctx
            (enter-Sound loop blocktype src ctx refl refl bt b s) λ _ c s'. (s', (b', omega arith))

  pub process_if-Entered :
      (src : List ℕ) (ctx : Context)
      → IsCode code src
      → IsSound code.env ctx
      → Safe
          (λ p c.
            Continues code src p c
            × (blocktype : ℤ) × (read_leb_s 33 src ≡ ok (blocktype, p))
            × Entered code if_ blocktype ctx c)
          (process_if code src ctx)
  unfolding process_if
  process_if-Entered src ctx b s =
      Gives-then (λ v p. (read_leb_s 33 src ≡ ok (v, p)) × (IsBlocktype v × Behind src p)) _
        (read_leb_s 33 src) _ ctx
        (Gives-eq (λ v p. IsBlocktype v × Behind src p) (read_leb_s 33 src)
          (read_leb_s33-Gives src b.0))
        λ blocktype p (er, (bt, (b', l))).
          Safe->>= (λ _ c. Stays code.env ctx c) _ (pop_valtype i32) _ ctx
            (pop_valtype-Stays code.env i32 ctx s)
            λ _ c (s', ef).
              Safe->>= (λ _ d. IsSound code.env d × Entered code if_ blocktype c d) _
                (enter code if_ blocktype src) _ c
                (enter-Entered if_ blocktype src c refl refl bt b s')
                λ _ d (s'', en). ((s'', (b', omega arith)), blocktype, er, rw ef at en)

  pub process_if-Continues :
      (src : List ℕ) (ctx : Context)
      → IsCode code src
      → IsSound code.env ctx
      → Safe (Continues code src) (process_if code src ctx)
  process_if-Continues src ctx b s =
      Safe-mono _ (Continues code src) (λ p c h. h.0) (process_if code src ctx)
        (process_if-Entered src ctx b s)

-- A frame that is an `if` is not that of the function, so there are frames around it.
pub if-not-invoke : (op : FrameOp) → is_op op if_ ≡ true → is_op op invoke ≡ false
if-not-invoke op h =
    elim op as (λ o. is_op o if_ ≡ true → is_op o invoke ≡ false) [
      | block ↦ λ _. refl
      | loop ↦ λ _. refl
      | if_ ↦ λ _. refl
      | else_ ↦ λ _. refl
      | end ↦ λ _. refl
      | try_table ↦ λ _. refl
      | empty_else ↦ λ _. refl
      | invoke ↦ λ x. cc
    ]
      h

-- A frame that was closed gives way to one in its place.
pub Closed-Ready :
    (env : Env) (op : FrameOp) (is_else : Bool) (f : Ctrlframe) (fs : List Ctrlframe)
    (ctx c : Context)
    → ctx.cframes ≡ f ∷ fs
    → IsSound env ctx
    → is_op f.op if_ ≡ true
    → is_op op invoke ≡ false
    → Closed env is_else f fs c
    → Ready env op f.start_types f.end_types c
Closed-Ready env op is_else f fs ctx c e s i nv k =
    let t : Typed (f ∷ fs) = rw e at s.typed in
    let r : Rooted (f ∷ fs) = rw e at s.rooted in
    record {
      valid = k.valid;
      few = k.few;
      typed = rw k.same_frames t.2;
      rooted = rw k.same_frames r.1;
      typed_start = t.0;
      typed_end = t.1;
      root = nv ∙ sym (rw k.same_frames (sym r.0 ∙ if-not-invoke f.op i));
    }

else-if : (b : Bool) → (true && not b) ≡ false → b ≡ true
else-if true h = refl
else-if false h = cc

module _ (code : Code) (ready : IsReady code) where
  -- In a sound context of code that is ready, the instruction `else` is an error, or leaves a
  -- sound context. No assertion fails but that of `valtype_cellsize` on `exnref`.
  pub process_else-Continues :
      (src : List ℕ) (ctx : Context)
      → IsCode code src
      → IsSound code.env ctx
      → Safe (Continues code src) (process_else code src ctx)
  unfolding process_else
  process_else-Continues src ctx (b, l) s =
      let (f, fs, e) = frame_of code.env ctx s in
      let pc = code.end_offset - length src - 0 in
      rw
        (ptr2pc-then code src 0
          (λ pc. pop_ctrlframe pc true >>= λ cframe.
            push_ctrlframe code.env (pc - 1) else_ cframe.jumpslot cframe.start_types
              cframe.end_types
            >> pure src)
          ctx ready (omega arith))
        (Safe->>= (λ g c. (g ≡ f) × Closed code.env true f fs c) (Continues code src)
          (pop_ctrlframe pc true) _ ctx (pop_ctrlframe-Closed code.env pc true f fs ctx e s)
          λ g c (eg, k). rw eg (
            Safe->>= (λ _ d. Opens code.env else_ f.jumpslot f.start_types f.end_types c d)
              (Continues code src)
              (push_ctrlframe code.env (pc - 1) else_ f.jumpslot f.start_types f.end_types) _ c
              (else-Opens code.env ready.modest (pc - 1) f fs c k (
                Closed-Ready code.env else_ true f fs ctx c e s (else-if (is_op f.op if_) k.else_op)
                  refl k))
              λ _ d h. (h.0, (b, omega arith))))
