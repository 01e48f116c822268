-- ===== src/Prelude/Results.antt =====
-- What a C function returns: an errno value, or 0 with what it stored through its pointers.
use mathlib.Core.Path.{◌≡◌, refl}
use mathlib.Core.Bool.{Bool, true, false}
use mathlib.Core.Option.{Option, none, some}

-- The errno values and the ETOYWASM codes that the modelled functions return. `xassert` is none of them:
-- it is the end of the program at an assertion that a module can make fail, in
-- valtype_cellsize (lib/cell.c) on `exnref` without exception handling. Every other assertion is a `fault`.
pub data Errno : Type 0 where
  einval e2big eoverflow enomem erange enoent ebadf etimedout : Errno
  etoywasmtrap etoywasmrestart : Errno
  xassert : Errno

-- `fault` is no return value: an assertion failed, or an access left the memory that the caller gave.
pub data Result {ℓ} (Out : Type ℓ) : Type ℓ where
  fault : Result Out
  ok : Out → Result Out
  err : Errno → Result Out

-- `assert(cond);`
abbrev pub assert : Bool → Result (Unit {0})
assert false = fault
assert true = ok tt

abbrev pub ok? {ℓ} : {Out : Type ℓ} → Result Out → Option Out
ok? fault = none
ok? (ok out) = some out
ok? (err code) = none

-- `if (cond) return e;`
abbrev pub guard : (condition : Bool) (code : Errno) → Result (Unit {0})
guard false code = err code
guard true code = ok tt

infixl 5 ◌>>=◌ ◌>>◌
abbrev pub ◌>>=◌ {i j} : {In : Type i} {Out : Type j} → Result In → (In → Result Out) → Result Out
fault >>= next = fault
ok out >>= next = next out
err code >>= next = err code

abbrev pub ◌>>◌ {j} : {Out : Type j} (first : Result (Unit {0})) (next : Result Out) → Result Out
first >> next = first >>= λ done. next

-- A successful bind comes from a success.
pub >>=-eq-ok {i j} :
    {In : Type i} {Out : Type j} (first : Result In) (next : In → Result Out) {out : Out}
    → (first >>= next) ≡ ok out
    → (x : In) × (first ≡ ok x) × (next x ≡ ok out)
>>=-eq-ok fault next h = cc
>>=-eq-ok (ok x) next h = (x, refl, h)
>>=-eq-ok (err code) next h = cc
