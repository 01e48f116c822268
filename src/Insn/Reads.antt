-- ===== src/Insn/Reads.antt =====
-- How an instruction goes on after it has read something.
use wasm_doctor.Prelude.{
  false, ℕ, ◌+◌, ◌-◌, ◌^◌, ◌≤◌, ◌<◌, ◌≡◌, refl, List, [], length, Result, ok, err, fault, arith,
  le→leb, ◌⊎◌,
}
use wasm_doctor.Leb128.{IsBytes}
use wasm_doctor.Leb128.Forward.{Gives}
use wasm_doctor.Types.Lookup.Typed.{IsLoaded, Yields}
use wasm_doctor.Validation.{Context, Validator, ◌>>=◌}
use wasm_doctor.Validation.Safe.{Safe}
use wasm_doctor.Validation.Invariant.{Operands, IsValid}
use wasm_doctor.Validation.Sound.{IsModest, IsSound}
use wasm_doctor.Insn.{Code, lift_result, ptr2pc}

-- What holds of a module whose code is validated: realloc grants no vector of more than 2^28 types,
-- the types are loaded, the code ends below 2^32 - 1, and the locals are of value types.
pub record IsReady (code : Code) : Type 0 where
  pub modest : IsModest code.env
  pub loaded : IsLoaded code.m
  pub short : code.end_offset + 1 < 2 ^ 32
  pub typed_locals : Operands false code.locals

-- The bytes behind the opcode of an instruction: in front of them are that and the module's header.
abbrev pub IsCode : Code → List ℕ → Type 0
IsCode code src = IsBytes src × (length src + 1 < code.end_offset)

-- The bytes behind an instruction's immediates.
abbrev pub Rest : List ℕ → List ℕ → Type 0
Rest src p = IsBytes p × (length p ≤ length src)

-- Where an instruction ends.
abbrev pub Continues : Code → List ℕ → List ℕ → Context → Type 0
Continues code src p ctx = IsSound code.env ctx × Rest src p

pub Gives-then :
    {A B : Type 0} (P : A → List ℕ → Type 0) (Q : B → Context → Type 0) (r : Result (A × List ℕ))
    (k : A × List ℕ → Validator B) (ctx : Context)
    → Gives P r
    → ((a : A) (p : List ℕ) → P a p → Safe Q (k (a, p) ctx))
    → Safe Q ((lift_result r >>= k) ctx)
Gives-then P Q (ok (a, p)) k ctx h f = f a p h
Gives-then P Q (err e) k ctx h f = tt
Gives-then P Q fault k ctx h f = h

pub Yields-then :
    {A B : Type 0} (P : A → Type 0) (Q : B → Context → Type 0) (r : Result A) (k : A → Validator B)
    (ctx : Context)
    → Yields P r
    → ((a : A) → P a → Safe Q (k a ctx))
    → Safe Q ((lift_result r >>= k) ctx)
Yields-then P Q (ok a) k ctx h f = f a h
Yields-then P Q (err e) k ctx h f = tt
Yields-then P Q fault k ctx h f = h

-- The offset of a pointer that lies in the module.
pub ptr2pc-then :
    {B : Type 0} (code : Code) (p : List ℕ) (back : ℕ) (k : ℕ → Validator B) (ctx : Context)
    → IsReady code
    → length p + back ≤ code.end_offset
    → (ptr2pc code p back >>= k) ctx ≡ k (code.end_offset - length p - back) ctx
unfolding ptr2pc
ptr2pc-then code p back k ctx r h =
    rw
      (
        le→leb (length p + back) code.end_offset h,
        le→leb (code.end_offset - length p - back) 0xffff_ffff (omega (arith, r.short)),
      )
      refl

-- Where an expression ends: no frame is left, and so no operand.
abbrev pub IsFinished : Context → Type 0
IsFinished ctx = IsValid ctx × (ctx.cframes ≡ [])

-- Where an instruction ends that may be the last one.
abbrev pub Ends : Code → List ℕ → List ℕ → Context → Type 0
Ends code src p ctx = (IsSound code.env ctx ⊎ IsFinished ctx) × Rest src p
