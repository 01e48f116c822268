-- ===== src/Insn/Annotations/Recorded.antt =====
-- record_type_annotation and find_type_annotation together.
use wasm_doctor.Validation.Operands.{counted-countable}
use mathlib.Core.Path.{subst}
use mathlib.Core.List.{reverse, reverse-cons}
use wasm_doctor.Prelude.{
  Errno, not, ℕ, ◌+◌, ◌-◌, ◌%◌, ◌^◌, ◌≤◌, ◌<◌, ◌≡◌, ◌≢◌, refl, Bool, true, false, List, [], ◌∷◌,
  length, ◌==◌, if◌then◌else◌, Result, ok, err, fault, arith, lt→ltb, ltb, assert,
}
use wasm_doctor.Types.{
  is, Valtype, i32, i64, f32, f64, v128, exnref, funcref, externref, anyref, unknown, tag,
  is_valtype, cellsize,
}
use wasm_doctor.Memory.{resize_array}
use wasm_doctor.Memory.Arrays.{resize_array-ne-fault}
use wasm_doctor.Validation.{
  Annotation, Annotations, Ctrlframe, Context, last_cframe, lift, pure, ◌>>◌,
}
use wasm_doctor.Validation.Safe.{Safe-guard, Safe, Safe->>=}
use wasm_doctor.Validation.Sound.Steps.{last_cframe-gives}
use wasm_doctor.Insn.{Code}
use wasm_doctor.Insn.Reads.{IsReady, ptr2pc-then}
use wasm_doctor.Insn.Annotations.{
  put_annotations, add_note, note_size, record_type_annotation, find_type_annotation,
}
use wasm_doctor.Insn.Annotations.Found.{
  AllNoted, AllNoted-mono, AllNoted-append, last_before-behind, last_before-front,
}
use wasm_doctor.Insn.Annotations.Notes.{last_in_front}

-- A size is never the byte of a type.
tag-large : (t : Valtype) → 4 < tag t
tag-large i32 = omega arith
tag-large i64 = omega arith
tag-large f32 = omega arith
tag-large f64 = omega arith
tag-large v128 = omega arith
tag-large funcref = omega arith
tag-large externref = omega arith
tag-large exnref = omega arith
tag-large anyref = omega arith
tag-large unknown = omega arith

AllNoted-reverse : (n : ℕ) (ns : List Annotation) → AllNoted n ns → AllNoted n (reverse ns)
AllNoted-reverse n [] h = tt
AllNoted-reverse n (a ∷ ns) (p, s, h) =
    rw (reverse-cons a ns)
      (AllNoted-append n (reverse ns) (a ∷ []) (AllNoted-reverse n ns h) (p, s, tt))

-- At `n` a size is found, and at `pc` what was found before.
abbrev pub Finds : ℕ → ℕ → ℕ → Annotations → Annotations → Type 0
Finds n csz pc before after =
    (find_type_annotation after n ≡ ok csz)
    × (find_type_annotation after pc ≡ find_type_annotation before pc)

module _ (n pc csz : ℕ) (positive : 0 < csz) (early : pc < n) where
  -- The default size, with no notes.
  default-Finds : (an : Annotations) → an.types ≡ [] → an.default_size ≡ csz → Finds n csz pc an an
  unfolding find_type_annotation
  default-Finds an e d = (rw (e, d, lt→ltb 0 csz positive) refl, refl)

  noted-Finds :
      (an : Annotations)
      → 0 < an.default_size
      → AllNoted n an.types
      → Finds n csz pc an (record an { types = record { pc = n; size = csz } ∷ an.types })
  unfolding find_type_annotation
  noted-Finds an d h =
      let a : Annotation = record { pc = n; size = csz } in
      let k =
        AllNoted-reverse (n + 1) an.types (AllNoted-mono n (n + 1) an.types (omega arith) h) in
      (
        rw
            (
              reverse-cons a an.types,
              last_before-behind an.default_size n (reverse an.types) a k (omega arith),
              lt→ltb 0 an.default_size d,
              lt→ltb 0 csz positive,
            )
            refl,
        rw
            (
              reverse-cons a an.types,
              last_before-front an.default_size pc (reverse an.types) a early,
            )
            refl,
      )

module _ (code : Code) (n pc : ℕ) (t : Valtype) (ctx : Context) (early : pc < n) where
  -- The notes after a step, where the frame is reachable.
  abbrev pub Recorded : Unit {0} → Context → Type 0
  Recorded _ c = Finds n (cellsize t) pc ctx.annotations c.annotations

  appended-Recorded :
      0 < cellsize t
      → 0 < ctx.annotations.default_size
      → AllNoted n ctx.annotations.types
      → (r : Result (Unit {0})) → r ≢ fault
      → Safe Recorded (
          (lift r
              >> put_annotations (record ctx.annotations {
                types = record { pc = n; size = cellsize t } ∷ ctx.annotations.types;
              }))
            ctx)
  unfolding put_annotations
  appended-Recorded z d h (ok a) ne = noted-Finds n pc (cellsize t) z early ctx.annotations d h
  appended-Recorded z d h (err e) ne = tt
  appended-Recorded z d h fault ne = ne refl

  chosen-Recorded :
      0 < cellsize t
      → 0 < ctx.annotations.default_size
      → AllNoted n ctx.annotations.types
      → (ns : List Annotation) → ctx.annotations.types ≡ ns
      → (b : Bool)
      → elim ns [ [] ↦ ctx.annotations.default_size == cellsize t | a ∷ ns ↦ a.size == tag t ] ≡ b
      → Safe Recorded (
          (if b then pure tt else (do
            lift (resize_array code.realloc 8 ((length ctx.annotations.types + 1) % 2 ^ 32))
            put_annotations (record ctx.annotations {
              types = record { pc = n; size = cellsize t } ∷ ctx.annotations.types;
            })))
            ctx)
  chosen-Recorded z d h ns e false k =
      appended-Recorded z d h
        (resize_array code.realloc 8 ((length ctx.annotations.types + 1) % 2 ^ 32))
        (resize_array-ne-fault code.realloc 8 ((length ctx.annotations.types + 1) % 2 ^ 32)
          (omega arith))
  chosen-Recorded z d h [] e true k =
      default-Finds n pc (cellsize t) z early ctx.annotations e (ground (arith, k))
  chosen-Recorded z d h (a ∷ ns) e true k =
      let l : AllNoted n (a ∷ ns) = rw e at h in
      let g : 4 < tag t = tag-large t in absurd (ground (arith, k, l.1, g))

  add_note-Recorded :
      0 < cellsize t
      → 0 < ctx.annotations.default_size
      → AllNoted n ctx.annotations.types
      → Safe Recorded (add_note code n t ctx.annotations ctx)
  unfolding add_note
  add_note-Recorded z d h =
      Safe->>= (λ _ c. c ≡ ctx) Recorded
        (lift (elim ctx.annotations.types [ [] ↦ ok tt | a ∷ ns ↦ assert (ltb a.pc n) ])) _ ctx
        (last_in_front ctx.annotations.types n ctx h)
        λ _ c e. rw e (chosen-Recorded z d h ctx.annotations.types refl _ refl)

-- In code that is reachable, where there is a default size and the notes lie in front of the pointer,
-- `record_type_annotation` of a value type that has cells is an error, or afterwards
-- `find_type_annotation` gives the type's size at the pointer, and in front of it what it gave before.
pub record_type_annotation-Finds :
    (code : Code) (p : List ℕ) (t : Valtype) (f : Ctrlframe) (fs : List Ctrlframe) (ctx : Context)
    (pc : ℕ)
    → IsReady code
    → length p ≤ code.end_offset
    → ctx.cframes ≡ f ∷ fs
    → f.unreachable ≡ false
    → is_valtype t ≡ true
    → 0 < cellsize t
    → 0 < ctx.annotations.default_size
    → AllNoted (code.end_offset - length p) ctx.annotations.types
    → pc < code.end_offset - length p
    → Safe
        (λ _ c. Finds (code.end_offset - length p) (cellsize t) pc ctx.annotations c.annotations)
        (record_type_annotation code p t ctx)
unfolding record_type_annotation note_size
record_type_annotation-Finds code p t f fs ctx pc r l e u v z d h early =
    let n = code.end_offset - length p in
    let m : n ≡ n - 0 = omega arith in
    let nz : (ctx.annotations.default_size == 0) ≡ false = ground arith in
    Safe->>= (λ g c. (g ≡ f) × (c ≡ ctx)) _ last_cframe _ ctx (last_cframe-gives f fs ctx e)
      λ g c (eg, ec).
        rw (eg, ec, u, v, counted-countable false t (rw v refl))
          (Safe-guard _ (not (is t exnref)) Errno.xassert _ ctx (
            rw nz (
              rw
                (ptr2pc-then code p 0 (λ pc. add_note code pc t ctx.annotations) ctx r
                  (omega arith))
                (subst
                  (λ q.
                    Safe (λ _ c. Finds n (cellsize t) pc ctx.annotations c.annotations)
                      (add_note code q t ctx.annotations ctx))
                  m (add_note-Recorded code n pc t ctx early z d h)))))
