-- ===== src/Loader/Names/Utf8.antt =====
-- The check of a name ends on every input, and names are read forward.
use wasm_doctor.Prelude.{
  ℕ, zero, suc, ◌+◌, ◌-◌, ◌*◌, ◌%◌, ◌^◌, ◌≤◌, ◌<◌, ◌≢◌, refl, Bool, true, false, ◌&&◌, ◌||◌, List,
  [], ◌∷◌, length, take, drop, ltb, leb, not, Result, ok, err, fault, einval, e2big, guard, ◌>>=◌,
  ◌>>◌, arith, length-drop, Bool-cases, inl, inr,
}
use wasm_doctor.Leb128.{IsBytes}
use wasm_doctor.Leb128.Forward.{Behind, Gives, Gives->>=}
use wasm_doctor.Types.Lookup.Typed.{Yields}
use wasm_doctor.Decode.{read_vec_count}
use wasm_doctor.Decode.Progress.{Forward, read_vec_count-Gives}
use wasm_doctor.Loader.Names.{Lead, lead, read_more, check_char, check_chars, check_utf8, read_name}

read_more-Gives :
    (n c : ℕ) (src : List ℕ) → Gives (λ _ rest. length rest ≤ length src) (read_more n c src)
unfolding read_more
read_more-Gives zero c src = omega arith
read_more-Gives (suc n) c [] = tt
read_more-Gives (suc n) c (b ∷ src) = elim (Bool-cases (ltb b 0x80 || leb 0xc0 b)) [
  | inl e ↦ rw e tt
  | inr e ↦
      let c' = (c * 64 % 2 ^ 32 + (b - 0x80)) % 2 ^ 32 in
      rw e (longer (read_more n c' src) (read_more-Gives n c' src))
]
  where
    longer :
        (r : Result (ℕ × List ℕ))
        → Gives (λ _ rest. length rest ≤ length src) r
        → Gives (λ _ rest. length rest ≤ suc (length src)) r
    longer (ok (a, rest)) h = omega arith
    longer (err e) h = tt
    longer fault h = h

-- The check of the character, after its first byte.
tail_of : Lead → List ℕ → Result (List ℕ)
tail_of l src = read_more l.more l.bits src >>= λ x.
    guard (leb l.lowest x.0 && leb x.0 l.highest) einval
    >> (guard (not (leb 0xd800 x.0 && ltb x.0 0xe000)) einval >> ok x.1)

tail_of-Yields :
    (l : Lead) (src : List ℕ) → Yields (λ rest. length rest ≤ length src) (tail_of l src)
unfolding tail_of
tail_of-Yields l src = checked (read_more l.more l.bits src) (read_more-Gives l.more l.bits src)
  where
    by_tests :
        (a b : Bool) (rest : List ℕ)
        → length rest ≤ length src
        → Yields (λ rest. length rest ≤ length src) (guard a einval >> (guard b einval >> ok rest))
    by_tests true true rest h = h
    by_tests true false rest h = tt
    by_tests false b rest h = tt

    checked :
        (r : Result (ℕ × List ℕ))
        → Gives (λ _ rest. length rest ≤ length src) r
        → Yields
            (λ rest. length rest ≤ length src)
            (r >>= λ x.
              guard (leb l.lowest x.0 && leb x.0 l.highest) einval
              >> (guard (not (leb 0xd800 x.0 && ltb x.0 0xe000)) einval >> ok x.1))
    checked (ok (c, rest)) h =
        by_tests (leb l.lowest c && leb c l.highest) (not (leb 0xd800 c && ltb c 0xe000)) rest h
    checked (err e) h = tt
    checked fault h = h

lead-ne-fault : (b : ℕ) → lead b ≢ fault
unfolding lead
lead-ne-fault b = ground arith

check_char-Yields :
    (b : ℕ) (src : List ℕ) → Yields (λ rest. length rest ≤ length src) (check_char b src)
unfolding check_char tail_of
check_char-Yields b src = with_lead (lead b) (lead-ne-fault b)
  where
    with_lead :
        (r : Result Lead)
        → r ≢ fault
        → Yields (λ rest. length rest ≤ length src) (r >>= λ l. tail_of l src)
    with_lead (ok l) h = tail_of-Yields l src
    with_lead (err e) h = tt
    with_lead fault h = absurd (h refl)

check_chars-ne-fault : (fuel : ℕ) (src : List ℕ) → length src ≤ fuel → check_chars fuel src ≢ fault
unfolding check_chars
check_chars-ne-fault fuel [] h = λ e. cc
check_chars-ne-fault zero (b ∷ src) h = absurd (omega arith)
check_chars-ne-fault (suc fuel) (b ∷ src) h =
    onward (check_char b src) (check_char-Yields b src)
      (λ rest l. check_chars-ne-fault fuel rest (omega arith))
  where
    onward :
        (r : Result (List ℕ))
        → Yields (λ rest. length rest ≤ length src) r
        → ((rest : List ℕ) → length rest ≤ length src → check_chars fuel rest ≢ fault)
        → (r >>= check_chars fuel) ≢ fault
    onward (ok rest) l k = k rest l
    onward (err e) l k = λ h. cc
    onward fault l k = λ h. l

-- The check of a name's bytes ends on every input, and reads nothing behind them.
pub check_utf8-ne-fault : (src : List ℕ) → check_utf8 src ≢ fault
unfolding check_utf8
check_utf8-ne-fault src = check_chars-ne-fault (length src) src (omega arith)

drop-IsBytes : (n : ℕ) (src : List ℕ) → IsBytes src → IsBytes (drop n src)
drop-IsBytes zero src b = b
drop-IsBytes (suc n) [] b = b
drop-IsBytes (suc n) (x ∷ src) (_, b) = drop-IsBytes n src b

-- Reading a name goes forward.
pub read_name-Forward : Forward read_name
unfolding read_name
read_name-Forward src b =
    Gives->>= (λ n p. (n < 2 ^ 32) × Behind src p) (λ _ p. Behind src p) (read_vec_count src)
      (λ n p. guard (leb n (length p)) e2big >> (check_utf8 (take n p) >> ok (take n p, drop n p)))
      (read_vec_count-Gives src b)
      λ n p (_, (b', l)).
        accepted (leb n (length p)) (check_utf8 (take n p)) n p (check_utf8-ne-fault (take n p)) b'
          l
  where
    accepted :
        (t : Bool) (r : Result (Unit {0})) (n : ℕ) (p : List ℕ)
        → r ≢ fault
        → IsBytes p
        → length p < length src
        → Gives {A = List ℕ} (λ _ p. Behind src p) (guard t e2big >> (r >> ok (take n p, drop n p)))
    accepted false r n p ne b l = tt
    accepted true (ok a) n p ne b l = (drop-IsBytes n p b, omega (arith, length-drop n p))
    accepted true (err e) n p ne b l = tt
    accepted true fault n p ne b l = absurd (ne refl)
