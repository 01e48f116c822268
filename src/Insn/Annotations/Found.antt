-- ===== src/Insn/Annotations/Found.antt =====
-- The order of the notes, and the search among them.
use wasm_doctor.Prelude.{ℕ, ◌+◌, ◌≤◌, ◌<◌, ◌≡◌, List, [], ◌∷◌, ◌++◌, arith}
use wasm_doctor.Validation.{Annotation}
use wasm_doctor.Insn.Annotations.{last_before}

-- The notes lie in front of `n`, and are sizes of values.
abbrev pub AllNoted : ℕ → List Annotation → Type 0
AllNoted n [] = Unit
AllNoted n (a ∷ ns) = (a.pc < n) × (a.size ≤ 4) × AllNoted n ns

pub AllNoted-mono : (m n : ℕ) (ns : List Annotation) → m ≤ n → AllNoted m ns → AllNoted n ns
AllNoted-mono m n [] l h = tt
AllNoted-mono m n (a ∷ ns) l (p, s, h) = (omega arith, s, AllNoted-mono m n ns l h)

-- Behind all of the notes the last one counts; in front of it, it does not.
pub last_before-behind :
    (size pc : ℕ) (ns : List Annotation) (a : Annotation)
    → AllNoted (pc + 1) ns
    → a.pc ≤ pc
    → last_before size (ns ++ a ∷ []) pc ≡ a.size
unfolding last_before
last_before-behind size pc [] a h l = ground arith
last_before-behind size pc (b ∷ ns) a (p, s, h) l =
    ground (arith, last_before-behind b.size pc ns a h l)

pub last_before-front :
    (size pc : ℕ) (ns : List Annotation) (a : Annotation)
    → pc < a.pc
    → last_before size (ns ++ a ∷ []) pc ≡ last_before size ns pc
unfolding last_before
last_before-front size pc [] a l = ground arith
last_before-front size pc (b ∷ ns) a l = ground (arith, last_before-front b.size pc ns a l)

pub AllNoted-append :
    (n : ℕ) (ns bs : List Annotation) → AllNoted n ns → AllNoted n bs → AllNoted n (ns ++ bs)
AllNoted-append n [] bs h k = k
AllNoted-append n (a ∷ ns) bs (p, s, h) k = (p, s, AllNoted-append n ns bs h k)
