-- ===== src/Insn/Annotations.antt =====
-- The sizes of the operands whose type an instruction does not name: record_type_annotation of
-- lib/validation.c notes them, and find_type_annotation of lib/exec.c finds them when the code runs.
pub mod Found
pub mod Recorded
pub mod Notes
use wasm_doctor.Prelude.{
  ℕ, ◌+◌, ◌%◌, ◌^◌, Bool, true, false, ◌||◌, List, [], ◌∷◌, length, ltb, ◌==◌, if◌then◌else◌,
  Result, ok, assert,
}
use wasm_doctor.Prelude.{fault, err}
use mathlib.Core.List.{reverse}
use wasm_doctor.Types.{counted, Valtype, unknown, is, tag, is_valtype, cellsize}
use wasm_doctor.Memory.{resize_array}
use wasm_doctor.Validation.{
  Annotation, Annotations, Context, Validator, ◌>>=◌, ◌>>◌, pure, lift, gets, last_cframe,
}
use wasm_doctor.Insn.{Code, ptr2pc}

pub put_annotations : Annotations → Validator (Unit {0})
put_annotations an ctx = ok (tt, record ctx { annotations = an })

-- A note behind the former ones, unless the size is that of the one before. The size of that one is
-- compared with the type's byte.
pub add_note : Code → ℕ → Valtype → Annotations → Validator (Unit {0})
unfolding put_annotations
add_note code pc t an = do
  let csz = cellsize t
  lift (elim an.types [ [] ↦ ok tt | a ∷ ns ↦ assert (ltb a.pc pc) ])
  if elim an.types [ [] ↦ an.default_size == csz | a ∷ ns ↦ a.size == tag t ] then pure tt else (do
    lift (resize_array code.realloc 8 ((length an.types + 1) % 2 ^ 32))
    put_annotations (record an { types = record { pc = pc; size = csz } ∷ an.types }))

-- What is noted in reachable code: the first size is the default.
pub note_size : Code → List ℕ → Valtype → Validator (Unit {0})
unfolding add_note ptr2pc
note_size code p t = do
  lift (assert (is_valtype t))
  lift (counted t)
  an ← gets (λ c. c.annotations)
  if an.default_size == 0
      then put_annotations (record an { default_size = cellsize t })
      else (do pc ← ptr2pc code p 0; add_note code pc t an)

pub record_type_annotation : Code → List ℕ → Valtype → Validator (Unit {0})
unfolding note_size last_cframe
record_type_annotation code p t = do
  cframe ← last_cframe
  if cframe.unreachable then lift (assert (is_valtype t || is t unknown)) else note_size code p t

-- The loop over the notes, in the order of their program counters, up to the first one behind `pc`.
pub last_before : ℕ → List Annotation → ℕ → ℕ
last_before size [] pc = size
last_before size (a ∷ ns) pc = if ltb pc a.pc then size else last_before a.size ns pc

pub find_type_annotation : Annotations → ℕ → Result ℕ
unfolding last_before
find_type_annotation an pc =
    let size = last_before an.default_size (reverse an.types) pc in
    if ltb 0 an.default_size then (if ltb 0 size then ok size else fault) else fault
