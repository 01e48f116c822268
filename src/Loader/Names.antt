-- ===== src/Loader/Names.antt =====
-- check_utf8 and read_name of lib/module.c.
pub mod Utf8
pub mod Encoded
use wasm_doctor.Prelude.{
  ℕ, zero, suc, ◌+◌, ◌-◌, ◌*◌, ◌%◌, ◌^◌, Bool, true, false, ◌&&◌, ◌||◌, List, [], ◌∷◌, length, take,
  drop, ltb, leb, ◌==◌, if◌then◌else◌, not, Result, ok, err, fault, einval, e2big, guard, ◌>>=◌,
  ◌>>◌,
}
use wasm_doctor.Decode.{Reader, read_u8, read_vec_count}

-- What the first byte of a character says: its further bytes, its bounds, and its first bits.
pub record Lead : Type 0 where
  pub more : ℕ
  pub lowest : ℕ
  pub highest : ℕ
  pub bits : ℕ

unfoldable pub lead : ℕ → Result Lead
lead b =
    if ltb b 0x80
    then ok (record { more = 0; lowest = 0; highest = 0x7f; bits = b })
    else if ltb b 0xc0
    then err einval
    else if ltb b 0xe0
    then ok (record { more = 1; lowest = 0x80; highest = 0x7ff; bits = b - 0xc0 })
    else if ltb b 0xf0
    then ok (record { more = 2; lowest = 0x800; highest = 0xffff; bits = b - 0xe0 })
    else if ltb b 0xf8
    then ok (record { more = 3; lowest = 0x10000; highest = 0x10ffff; bits = b - 0xf0 })
    else err einval

-- The loop over the further bytes; `c` has 32 bits.
unfoldable pub read_more : ℕ → ℕ → List ℕ → Result (ℕ × List ℕ)
read_more zero c src = ok (c, src)
read_more (suc n) c [] = err einval
read_more (suc n) c (b ∷ rest) =
    if ltb b 0x80 || leb 0xc0 b
    then err einval
    else read_more n ((c * 64 % 2 ^ 32 + (b - 0x80)) % 2 ^ 32) rest

-- One character: what is left behind it.
unfoldable pub check_char : ℕ → List ℕ → Result (List ℕ)
check_char b src = do
  l ← lead b
  (c, rest) ← read_more l.more l.bits src
  guard (leb l.lowest c && leb c l.highest) einval
  guard (not (leb 0xd800 c && ltb c 0xe000)) einval
  ok rest

-- The loop over the characters, each of a byte at least; without fuel it is a fault.
unfoldable pub check_chars : ℕ → List ℕ → Result (Unit {0})
check_chars fuel [] = ok tt
check_chars zero (b ∷ src) = fault
check_chars (suc fuel) (b ∷ src) = do rest ← check_char b src; check_chars fuel rest

unfoldable pub check_utf8 : List ℕ → Result (Unit {0})
check_utf8 src = check_chars (length src) src

-- read_name: the bytes of the name.
pub read_name : Reader (List ℕ)
read_name src = do
  (vec_count, p) ← read_vec_count src
  guard (leb vec_count (length p)) e2big
  check_utf8 (take vec_count p)
  ok (take vec_count p, drop vec_count p)
