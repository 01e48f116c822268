-- ===== src/Leb128.antt =====
-- lib/leb128.c: variable-length integers, as the binary format of WebAssembly writes them.
-- A pointer `p` with its end `ep` is the list of the bytes from `p` up to `ep`. Where `ep` is NULL
-- (the `_nocheck` readers) the list is what is readable from `p` on, and running off it is a fault.
pub mod Grammar
pub mod Bytes
pub mod Unsigned
pub mod Signed
pub mod Total
pub mod Readers
pub mod Forward
pub mod Nocheck
pub mod Write
mod Tests
use wasm_doctor.Prelude.{
  ℕ, ◌+◌, ◌-◌, ◌*◌, ◌/◌, ◌%◌, ◌^◌, ◌<◌, bit_and, bit_or, Bool, true, false, not, ◌&&◌, ◌||◌, List,
  [], ◌∷◌, length, ltb, leb, ◌==◌, if◌then◌else◌, Result, ok, err, fault, einval, e2big, ◌>>=◌,
  ◌>>◌, assert,
}
use wasm_doctor.Prelude.Int.{ℤ, pos, negsuc}

abbrev pub IsBytes : List ℕ → Type 0
IsBytes [] = Unit
IsBytes (b ∷ rest) = (b < 256) × IsBytes rest

-- What is fixed during one call of `read_leb`: `ep != NULL`, and its arguments.
pub record Mode : Type 0 where
  pub error_check : Bool
  pub bits : ℕ
  pub is_signed : Bool

-- `(uint8_t)(((unsigned int)-1) << k)`
abbrev pub high_mask : ℕ → ℕ
high_mask k = 0xffff_ffff * 2 ^ k % 2 ^ 32 % 256

-- The range checks on one group of seven bits; the value is the new `is_minus`.
unfoldable pub check_group : Mode → ℕ → ℕ → Bool → Result Bool
check_group m v shift is_minus =
    if not m.error_check
    then ok is_minus
    else if leb m.bits shift
    then (if v == (if is_minus then 0x7f else 0) then ok is_minus else err e2big)
    else let minus = if m.is_signed then not (bit_and v 0x40 == 0) else is_minus in
      let bits_left = m.bits - shift in
      if ltb bits_left 7
      then (if m.is_signed
          then (let mask = high_mask (bits_left - 1) in
              if minus
              then (if bit_and (bit_and (255 - v) 0x7f) mask == 0 then ok minus else err e2big)
              else if bit_and v mask == 0
              then ok minus
              else err e2big)
          else if bit_and v (high_mask bits_left) == 0
          then ok minus
          else err e2big)
      else ok minus

-- `result |= ((uint64_t)v) << shift`; a shift of 64 or more is undefined.
unfoldable pub add_group : ℕ → ℕ → ℕ → Result ℕ
add_group result v shift =
    if leb 64 shift then fault else ok (bit_or result (v * 2 ^ shift % 2 ^ 64))

-- One round of the loop, up to the test of the continuation bit.
unfoldable pub round : Mode → ℕ → ℕ → ℕ → Bool → Result (ℕ × Bool)
round m u8 shift result is_minus = do
  minus ← check_group m (bit_and u8 0x7f) shift is_minus
  sum ← add_group result (bit_and u8 0x7f) shift
  ok (sum, minus)

-- What follows the loop: the sign of an unchecked value, and the sign extension.
unfoldable pub finish : Mode → ℕ → ℕ → ℕ → Bool → ℕ
finish m u8 shift result is_minus =
    let minus = if not m.error_check && m.is_signed then not (bit_and u8 0x40 == 0) else is_minus in
    if minus && ltb shift 64 then bit_or result ((2 ^ 64 - 1) * 2 ^ shift % 2 ^ 64) else result

-- The `while (true)` loop, with the byte last read, the bytes behind it, and how many of them lie
-- before the (shortened) `ep`.
unfoldable pub read_leb_loop : Mode → ℕ → List ℕ → ℕ → ℕ → ℕ → Bool → Result (ℕ × List ℕ)
read_leb_loop m u8 [] room shift result is_minus = do
  (sum, minus) ← round m u8 shift result is_minus
  if bit_and u8 0x80 == 0
      then ok (finish m u8 (shift + 7) sum minus, [])
      else if m.error_check && ltb room 1
      then err einval
      else fault
read_leb_loop m u8 (b ∷ rest) room shift result is_minus = do
  (sum, minus) ← round m u8 shift result is_minus
  if bit_and u8 0x80 == 0
      then ok (finish m u8 (shift + 7) sum minus, b ∷ rest)
      else if m.error_check && ltb room 1
      then err einval
      else read_leb_loop m b rest (room - 1) (shift + 7) sum minus

-- `(uint64_t)(int64_t)(int8_t)0xc0`
abbrev sign_of_byte : ℕ
sign_of_byte = 2 ^ 64 - 64

-- read_leb, with its fast path for one byte; the value goes with the bytes behind it.
unfoldable pub read_leb : Mode → List ℕ → Result (ℕ × List ℕ)
read_leb m [] = if m.error_check then err einval else fault
read_leb m (u8 ∷ rest) =
    let limit = (m.bits + 7 - 1) / 7 - 1 in
    let room = if ltb limit (length rest) then limit else length rest in
    if bit_and u8 0x80 == 0
    then ok (if m.is_signed && not (bit_and u8 0x40 == 0) then bit_or u8 sign_of_byte else u8, rest)
    else read_leb_loop m u8 rest room 0 0 false

abbrev pub unsigned : ℕ → Mode
unsigned n = record { error_check = true; bits = n; is_signed = false }

abbrev pub signed : ℕ → Mode
signed n = record { error_check = true; bits = n; is_signed = true }

-- `(int64_t)r`
abbrev pub int64 : ℕ → ℤ
int64 r = if ltb r (2 ^ 63) then pos r else negsuc (2 ^ 64 - r - 1)

-- The readers with a check, each as it narrows the 64-bit result.
pub read_leb_i32 : List ℕ → Result (ℕ × List ℕ)
read_leb_i32 src = do (r, rest) ← read_leb (signed 32) src; ok (r % 2 ^ 32, rest)

pub read_leb_u32 : List ℕ → Result (ℕ × List ℕ)
read_leb_u32 src = do
  (r, rest) ← read_leb (unsigned 32) src
  assert (leb r 0xffff_ffff)
  ok (r % 2 ^ 32, rest)

pub read_leb_s32 : List ℕ → Result (ℤ × List ℕ)
read_leb_s32 src = do
  (r, rest) ← read_leb (signed 32) src
  assert (ltb r (2 ^ 31) || leb (2 ^ 64 - 2 ^ 31) r)
  ok (int64 r, rest)

pub read_leb_i64 : List ℕ → Result (ℕ × List ℕ)
read_leb_i64 src = read_leb (signed 64) src

pub read_leb_u64 : List ℕ → Result (ℕ × List ℕ)
read_leb_u64 src = read_leb (unsigned 64) src

pub read_leb_s64 : List ℕ → Result (ℤ × List ℕ)
read_leb_s64 src = do (r, rest) ← read_leb (signed 64) src; ok (int64 r, rest)

pub read_leb_u : ℕ → List ℕ → Result (ℕ × List ℕ)
read_leb_u bits src = read_leb (unsigned bits) src

pub read_leb_s : ℕ → List ℕ → Result (ℤ × List ℕ)
read_leb_s bits src = do (r, rest) ← read_leb (signed bits) src; ok (int64 r, rest)

abbrev pub nocheck : ℕ → Bool → Mode
nocheck n is_signed = record { error_check = false; bits = n; is_signed = is_signed }

-- The readers of a module that is already checked: `assert(ret == 0)`.
abbrev pub asserted {ℓ} : {A : Type ℓ} → Result A → Result A
asserted (ok a) = ok a
asserted (err e) = fault
asserted fault = fault

pub read_leb_u32_nocheck : List ℕ → Result (ℕ × List ℕ)
read_leb_u32_nocheck src = do
  (r, rest) ← asserted (read_leb (nocheck 32 false) src)
  assert (leb r 0xffff_ffff)
  ok (r % 2 ^ 32, rest)

pub read_leb_i32_nocheck : List ℕ → Result (ℕ × List ℕ)
read_leb_i32_nocheck src = do
  (r, rest) ← asserted (read_leb (nocheck 32 true) src)
  ok (r % 2 ^ 32, rest)

pub read_leb_i64_nocheck : List ℕ → Result (ℕ × List ℕ)
read_leb_i64_nocheck src = asserted (read_leb (nocheck 64 true) src)

pub read_leb_s33_nocheck : List ℕ → Result (ℤ × List ℕ)
read_leb_s33_nocheck src = do
  (r, rest) ← asserted (read_leb (nocheck 33 true) src)
  ok (int64 r, rest)
