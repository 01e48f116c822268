-- ===== src/Leb128/Nocheck.antt =====
-- The readers without a check, on input that a reader with one has accepted.
use wasm_doctor.Prelude.{
  ℕ, ◌+◌, ◌-◌, ◌%◌, ◌<◌, bit_and, ◌≡◌, refl, Bool, true, false, not, ◌&&◌, List, [], ◌∷◌, arith,
  ◌==◌, ok, >>=-eq-ok, Bool-cases, inl, inr,
}
use wasm_doctor.Prelude.Int.{ℤ}
use wasm_doctor.Leb128.{
  Mode, nocheck, check_group, add_group, round, finish, read_leb_loop, read_leb, IsBytes,
  read_leb_u32, read_leb_u32_nocheck, read_leb_i32, read_leb_i32_nocheck, read_leb_i64,
  read_leb_i64_nocheck, read_leb_s, read_leb_s33_nocheck,
}
use wasm_doctor.Leb128.Bytes.{low_bits, sign_bit}

abbrev checked : ℕ → Bool → Mode
checked n s = record { error_check = true; bits = n; is_signed = s }

module _ (bits : ℕ) (s : Bool) where
  -- An accepted group is added in the same way.
  round-nocheck :
      (u8 shift result : ℕ) (minus minus' : Bool) (n : ℕ) (next : Bool)
      → round (checked bits s) u8 shift result minus ≡ ok (n, next)
      → round (nocheck bits s) u8 shift result minus' ≡ ok (n, minus')
  unfolding round check_group add_group
  round-nocheck u8 shift result minus minus' n next e = ground arith

  -- Behind an accepted group `is_minus` is its sign bit, for signed values only.
  round_sign :
      (u8 shift result : ℕ) (minus : Bool) (n : ℕ) (next : Bool)
      → u8 < 256
      → (s ≡ false → minus ≡ false)
      → round (checked bits s) u8 shift result minus ≡ ok (n, next)
      → next ≡ (s && not (bit_and u8 0x40 == 0))
  unfolding round check_group add_group
  round_sign u8 shift result minus n next hu hm e =
      ground (arith, low_bits u8 hu, sign_bit u8 hu, sign_bit (u8 % 128), hm)

  finish-nocheck :
      (u8 shift n : ℕ)
      → finish (nocheck bits s) u8 shift n false
        ≡ finish (checked bits s) u8 shift n (s && not (bit_and u8 0x40 == 0))
  unfolding finish
  finish-nocheck u8 shift n = ground arith

  loop_nocheck :
      (u8 : ℕ) (src : List ℕ) (room room' shift result : ℕ) (minus : Bool) (p : ℕ × List ℕ)
      → u8 < 256
      → IsBytes src
      → (s ≡ false → minus ≡ false)
      → read_leb_loop (checked bits s) u8 src room shift result minus ≡ ok p
      → read_leb_loop (nocheck bits s) u8 src room' shift result false ≡ ok p
  unfolding read_leb_loop
  loop_nocheck u8 [] room room' shift result minus p hu hbs hm e =
      let ((n, next), r, t) = >>=-eq-ok (round (checked bits s) u8 shift result minus) _ e in
      rw (round-nocheck u8 shift result minus false n next r) (
        ground (
          arith,
          t,
          finish-nocheck u8 (shift + 7) n,
          round_sign u8 shift result minus n next hu hm r,
        ))
  loop_nocheck u8 (b ∷ rest) room room' shift result minus p hu hbs hm e =
      let ((n, next), r, t) = >>=-eq-ok (round (checked bits s) u8 shift result minus) _ e in
      rw (round-nocheck u8 shift result minus false n next r) (
        ground (
          arith,
          t,
          finish-nocheck u8 (shift + 7) n,
          round_sign u8 shift result minus n next hu hm r,
          loop_nocheck b rest (room - 1) (room' - 1) (shift + 7) n next p,
        ))

  -- What the reader with a check has accepted, the one without it reads alike.
  pub read_leb-nocheck :
      (src : List ℕ) (p : ℕ × List ℕ)
      → IsBytes src
      → read_leb (checked bits s) src ≡ ok p
      → read_leb (nocheck bits s) src ≡ ok p
  unfolding read_leb
  read_leb-nocheck [] p hbs e = cc
  read_leb-nocheck (u8 ∷ rest) p hbs e = elim (Bool-cases (bit_and u8 0x80 == 0)) [
    | inl short ↦ rw short (rw short at e)
    | inr long ↦
        rw long (loop_nocheck u8 rest _ _ 0 0 false p hbs.0 hbs.1 (λ _. refl) (rw long at e))
  ]

-- Where `read_leb_u32` accepts a list of bytes, `read_leb_u32_nocheck` returns the same value and rest.
pub read_leb_u32_nocheck-read_leb_u32 :
    (src : List ℕ) (p : ℕ × List ℕ)
    → IsBytes src
    → read_leb_u32 src ≡ ok p
    → read_leb_u32_nocheck src ≡ ok p
unfolding read_leb_u32 read_leb_u32_nocheck
read_leb_u32_nocheck-read_leb_u32 src p hbs e =
    let (q, r, t) = >>=-eq-ok (read_leb (checked 32 false) src) _ e in
    rw (read_leb-nocheck 32 false src q hbs r) t

-- Where `read_leb_i32` accepts a list of bytes, `read_leb_i32_nocheck` returns the same value and rest.
pub read_leb_i32_nocheck-read_leb_i32 :
    (src : List ℕ) (p : ℕ × List ℕ)
    → IsBytes src
    → read_leb_i32 src ≡ ok p
    → read_leb_i32_nocheck src ≡ ok p
unfolding read_leb_i32 read_leb_i32_nocheck
read_leb_i32_nocheck-read_leb_i32 src p hbs e =
    let (q, r, t) = >>=-eq-ok (read_leb (checked 32 true) src) _ e in
    rw (read_leb-nocheck 32 true src q hbs r) t

-- Where `read_leb_i64` accepts a list of bytes, `read_leb_i64_nocheck` returns the same value and rest.
pub read_leb_i64_nocheck-read_leb_i64 :
    (src : List ℕ) (p : ℕ × List ℕ)
    → IsBytes src
    → read_leb_i64 src ≡ ok p
    → read_leb_i64_nocheck src ≡ ok p
unfolding read_leb_i64 read_leb_i64_nocheck
read_leb_i64_nocheck-read_leb_i64 src p hbs e = rw (read_leb-nocheck 64 true src p hbs e) refl

-- Where `read_leb_s` with 33 bits accepts a list of bytes, `read_leb_s33_nocheck` returns the same value
-- and rest.
pub read_leb_s33_nocheck-read_leb_s :
    (src : List ℕ) (p : ℤ × List ℕ)
    → IsBytes src
    → read_leb_s 33 src ≡ ok p
    → read_leb_s33_nocheck src ≡ ok p
unfolding read_leb_s read_leb_s33_nocheck
read_leb_s33_nocheck-read_leb_s src p hbs e =
    let (q, r, t) = >>=-eq-ok (read_leb (checked 33 true) src) _ e in
    rw (read_leb-nocheck 33 true src q hbs r) t
