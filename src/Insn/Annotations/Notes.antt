-- ===== src/Insn/Annotations/Notes.antt =====
-- record_type_annotation and the order of the notes.
use mathlib.Core.Path.{subst}
use wasm_doctor.Prelude.{
  Errno, not, ℕ, ◌+◌, ◌-◌, ◌%◌, ◌^◌, ◌≤◌, ◌≡◌, refl, ◌||◌, ◌&&◌, Bool, true, false, List, [], ◌∷◌,
  length, ◌==◌, if◌then◌else◌, Result, ok, err, fault, arith, Bool-cases, inl, inr, lt→ltb, ltb,
  assert, ◌≢◌,
}
use wasm_doctor.Types.{
  Valtype, i32, i64, f32, f64, v128, exnref, funcref, externref, anyref, unknown, is, tag,
  is_valtype, cellsize,
}
use wasm_doctor.Memory.{resize_array}
use wasm_doctor.Memory.Arrays.{resize_array-ne-fault}
use wasm_doctor.Validation.{Annotation, Annotations, Context, last_cframe, lift, pure, ◌>>◌}
use wasm_doctor.Validation.Safe.{Safe-guard, Safe, Safe->>=}
use wasm_doctor.Validation.Operands.{counted-countable, Stands}
use wasm_doctor.Validation.Sound.{IsSound}
use wasm_doctor.Validation.Sound.Steps.{frame_of, last_cframe-gives}
use wasm_doctor.Insn.{Code}
use wasm_doctor.Insn.Reads.{IsReady, ptr2pc-then}
use wasm_doctor.Insn.Annotations.{put_annotations, add_note, note_size, record_type_annotation}
use wasm_doctor.Insn.Annotations.Found.{AllNoted, AllNoted-mono}

-- Only the annotations change.
pub record Notes (code : Code) (n : ℕ) (ctx c : Context) : Type 0 where
  pub sound : IsSound code.env c
  pub same_frames : c.cframes ≡ ctx.cframes
  pub same_refs : c.refs ≡ ctx.refs
  pub noted : AllNoted n c.annotations.types

put_annotations-Notes :
    (code : Code) (n : ℕ) (an : Annotations) (ctx : Context)
    → IsSound code.env ctx
    → AllNoted n an.types
    → Notes code n ctx (record ctx { annotations = an })
put_annotations-Notes code n an ctx s h = record {
  sound = record {
    valid = record {
      frames = s.valid.frames;
      cells_bound = s.valid.cells_bound;
      labels_bound = s.valid.labels_bound;
    };
    few = s.few;
    typed = s.typed;
    table = s.table;
    rooted = s.rooted;
    open_frame = s.open_frame;
  };
  same_frames = refl;
  same_refs = refl;
  noted = h;
}

unchanged-Notes :
    (code : Code) (n : ℕ) (ctx : Context)
    → IsSound code.env ctx
    → AllNoted n ctx.annotations.types
    → Notes code n ctx ctx
unchanged-Notes code n ctx s h = record {
  sound = s;
  same_frames = refl;
  same_refs = refl;
  noted = h;
}

cellsize-small : (t : Valtype) → cellsize t ≤ 4
cellsize-small t = elim t as (λ t. cellsize t ≤ 4) [
  | i32 ↦ omega arith
  | i64 ↦ omega arith
  | f32 ↦ omega arith
  | f64 ↦ omega arith
  | v128 ↦ omega arith
  | exnref ↦ omega arith
  | funcref ↦ omega arith
  | externref ↦ omega arith
  | anyref ↦ omega arith
  | unknown ↦ omega arith
]

pub last_in_front :
    (ns : List Annotation) (pc : ℕ) (ctx : Context)
    → AllNoted pc ns
    → Safe (λ _ c. c ≡ ctx) (lift (elim ns [ [] ↦ ok tt | a ∷ ns ↦ assert (ltb a.pc pc) ]) ctx)
last_in_front [] pc ctx h = refl
last_in_front (a ∷ ns) pc ctx h = rw (lt→ltb a.pc pc h.0) refl

module _ (code : Code) (pc : ℕ) (t : Valtype) (an : Annotations) (ctx : Context) where
  appended-Notes :
      (b : Bool)
      → IsSound code.env ctx
      → AllNoted pc an.types
      → AllNoted (pc + 1) ctx.annotations.types
      → Safe
          (λ _ c. Notes code (pc + 1) ctx c)
          ((if b then pure tt else (do
            lift (resize_array code.realloc 8 ((length an.types + 1) % 2 ^ 32))
            put_annotations
                (record an { types = record { pc = pc; size = cellsize t } ∷ an.types })))
            ctx)
  unfolding put_annotations
  appended-Notes true s h k = unchanged-Notes code (pc + 1) ctx s k
  appended-Notes false s h k =
      grown (resize_array code.realloc 8 ((length an.types + 1) % 2 ^ 32))
        (resize_array-ne-fault code.realloc 8 ((length an.types + 1) % 2 ^ 32) (omega arith))
    where
      grown :
          (r : Result (Unit {0}))
          → r ≢ fault
          → Safe
              (λ _ c. Notes code (pc + 1) ctx c)
              ((lift r
                  >> put_annotations
                      (record an { types = record { pc = pc; size = cellsize t } ∷ an.types }))
                ctx)
      grown (ok a) ne =
          put_annotations-Notes code (pc + 1)
            (record an { types = record { pc = pc; size = cellsize t } ∷ an.types }) ctx s
            (omega arith, cellsize-small t, AllNoted-mono pc (pc + 1) an.types (omega arith) h)
      grown (err e) ne = tt
      grown fault ne = ne refl

  add_note-Notes :
      IsSound code.env ctx
      → AllNoted pc an.types
      → AllNoted (pc + 1) ctx.annotations.types
      → Safe (λ _ c. Notes code (pc + 1) ctx c) (add_note code pc t an ctx)
  unfolding add_note
  add_note-Notes s h k =
      Safe->>= (λ _ c. c ≡ ctx) (λ _ c. Notes code (pc + 1) ctx c)
        (lift (elim an.types [ [] ↦ ok tt | a ∷ ns ↦ assert (ltb a.pc pc) ])) _ ctx
        (last_in_front an.types pc ctx h)
        λ _ c e. rw e (
          appended-Notes
            (elim an.types [ [] ↦ an.default_size == cellsize t | a ∷ ns ↦ a.size == tag t ]) s h k)

note_size-Notes :
    (code : Code) (p : List ℕ) (t : Valtype) (ctx : Context)
    → IsReady code
    → length p ≤ code.end_offset
    → is_valtype t ≡ true
    → IsSound code.env ctx
    → AllNoted (code.end_offset - length p) ctx.annotations.types
    → Safe (λ _ c. Notes code (code.end_offset - length p + 1) ctx c) (note_size code p t ctx)
unfolding note_size put_annotations
note_size-Notes code p t ctx r l v s h =
    let n = code.end_offset - length p in
    let k = AllNoted-mono n (n + 1) ctx.annotations.types (omega arith) h in
    let z : n ≡ n - 0 = omega arith in
    rw (v, counted-countable false t (rw v refl))
      (Safe-guard (λ _ c. Notes code (n + 1) ctx c) (not (is t exnref)) Errno.xassert _ ctx
        (elim (Bool-cases (ctx.annotations.default_size == 0)) [
          | inl e ↦ rw e (put_annotations-Notes code (n + 1) _ ctx s k)
          | inr e ↦ rw e (
              rw
                (ptr2pc-then code p 0 (λ pc. add_note code pc t ctx.annotations) ctx r
                  (omega arith))
                (subst
                  (λ q.
                    Safe (λ _ c. Notes code (n + 1) ctx c) (add_note code q t ctx.annotations ctx))
                  z (add_note-Notes code n t ctx.annotations ctx s h k)))
        ]))

-- In a sound context where the notes lie in front of the pointer, and for a type that may stand in
-- the innermost frame, `record_type_annotation` is an error, or leaves a sound context with the
-- same frames, whose notes are in front of the next byte. No assertion fails but that of
-- `valtype_cellsize` on `exnref`.
pub record_type_annotation-Notes :
    (code : Code) (p : List ℕ) (t : Valtype) (ctx : Context)
    → IsReady code
    → length p ≤ code.end_offset
    → Stands ctx.cframes t
    → IsSound code.env ctx
    → AllNoted (code.end_offset - length p) ctx.annotations.types
    → Safe
        (λ _ c. Notes code (code.end_offset - length p + 1) ctx c)
        (record_type_annotation code p t ctx)
unfolding record_type_annotation
record_type_annotation-Notes code p t ctx r l o s h =
    let (f, fs, e) = frame_of code.env ctx s in
    let n = code.end_offset - length p in
    let k = AllNoted-mono n (n + 1) ctx.annotations.types (omega arith) h in
    Safe->>= (λ g c. (g ≡ f) × (c ≡ ctx)) _ last_cframe _ ctx (last_cframe-gives f fs ctx e)
      λ g c (eg, ec). rw (eg, ec) (by_reach f.unreachable (rw e at o))
  where
    by_reach :
        (u : Bool)
        → (is_valtype t || (u && is t unknown)) ≡ true
        → Safe
            (λ _ c. Notes code (code.end_offset - length p + 1) ctx c)
            ((if u then lift (assert (is_valtype t || is t unknown)) else note_size code p t) ctx)
    by_reach true o = rw o (
        unchanged-Notes code (code.end_offset - length p + 1) ctx s (
          AllNoted-mono (code.end_offset - length p) (code.end_offset - length p + 1)
            ctx.annotations.types (omega arith) h))
    by_reach false o = note_size-Notes code p t ctx r l (ground arith) s h
