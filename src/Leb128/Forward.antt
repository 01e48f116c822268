-- ===== src/Leb128/Forward.antt =====
-- The readers go forward: a success leaves fewer bytes, and no assertion fails.
use wasm_doctor.Prelude.{
  ℕ, ◌≤◌, ◌+◌, ◌-◌, ◌*◌, ◌%◌, ◌^◌, ◌<◌, ◌≡◌, ◌≢◌, refl, sym, Option, none, some, List, [], ◌∷◌,
  length, ltb, leb, Result, ok, err, fault, ◌>>=◌, ◌>>◌, assert, ok?, arith, Bool-cases, inl, inr,
  le→leb, lt→ltb,
}
use wasm_doctor.Prelude.Int.{ℤ, pos, negsuc, ◌*ℤ◌, ◌+ℤ◌}
use mathlib.Core.Option.{map as option_map}
use wasm_doctor.Leb128.{
  read_leb_i32, read_leb_i64, IsBytes, read_leb, read_leb_u32, read_leb_s, unsigned, signed, int64,
}
use wasm_doctor.Leb128.Bytes.{top_bit}
use wasm_doctor.Leb128.Grammar.{u_grammar, s_grammar}
use wasm_doctor.Leb128.Total.{read_leb-ne-fault}
use wasm_doctor.Leb128.Signed.{twos_complement, read_leb-s_grammar}
use wasm_doctor.Leb128.Unsigned.{read_leb-u_grammar}
use wasm_doctor.Leb128.Readers.{u_grammar-lt, s_grammar-Fits, AllFit, read_leb_s-s_grammar}

-- Bytes that lie behind at least one byte of others.
abbrev pub Behind : List ℕ → List ℕ → Type 0
Behind src rest = IsBytes rest × (length rest < length src)

pub Behind-trans : (a b c : List ℕ) → Behind a b → Behind b c → Behind a c
Behind-trans a b c (_, h) (k, h') = (k, omega arith)

-- An error is allowed; a fault is not.
abbrev pub Gives : {A : Type 0} → (A → List ℕ → Type 0) → Result (A × List ℕ) → Type 0
Gives P (ok (a, rest)) = P a rest
Gives P (err e) = Unit
Gives P fault = ⊥

pub Gives->>= :
    {A B : Type 0} (P : A → List ℕ → Type 0) (Q : B → List ℕ → Type 0) (r : Result (A × List ℕ))
    (k : A → List ℕ → Result (B × List ℕ))
    → Gives P r
    → ((a : A) (rest : List ℕ) → P a rest → Gives Q (k a rest))
    → Gives Q (r >>= λ x. k x.0 x.1)
Gives->>= P Q (ok (a, rest)) k h f = f a rest h
Gives->>= P Q (err e) k h f = tt
Gives->>= P Q fault k h f = h

pub Gives-mono :
    {A : Type 0} (P Q : A → List ℕ → Type 0) (r : Result (A × List ℕ))
    → Gives P r
    → ((a : A) (rest : List ℕ) → P a rest → Q a rest)
    → Gives Q r
Gives-mono P Q (ok (a, rest)) h f = f a rest h
Gives-mono P Q (err e) h f = tt
Gives-mono P Q fault h f = h

AllBehind : {A : Type 0} → List ℕ → Option (A × List ℕ) → Type 0
AllBehind src none = Unit
AllBehind src (some (a, rest)) = Behind src rest

AllBehind-map :
    {A B : Type 0} (f : A → B) (b : ℕ) (src : List ℕ) (o : Option (A × List ℕ))
    → AllBehind src o
    → AllBehind (b ∷ src) (option_map (λ p. (f p.0, p.1)) o)
unfolding AllBehind
AllBehind-map f b src none h = tt
AllBehind-map f b src (some (a, rest)) (h, l) = (h, omega arith)

u_grammar-AllBehind : (width : ℕ) (src : List ℕ) → IsBytes src → AllBehind src (u_grammar width src)
unfolding u_grammar AllBehind
u_grammar-AllBehind width [] h = tt
u_grammar-AllBehind width (n ∷ src) (b, h) = elim (Bool-cases (ltb n 128)) [
  | inl e ↦ rw e (elim (Bool-cases (ltb n (2 ^ width))) [
    | inl e' ↦ rw e' (h, omega arith)
    | inr e' ↦ rw e' tt
  ])
  | inr e ↦ rw e (elim (Bool-cases (ltb 7 width)) [
    | inl e' ↦ rw e' (
        AllBehind-map (λ v. 128 * v + (n - 128)) n src (u_grammar (width - 7) src)
          (u_grammar-AllBehind (width - 7) src h))
    | inr e' ↦ rw e' tt
  ])
]

s_grammar-AllBehind : (width : ℕ) (src : List ℕ) → IsBytes src → AllBehind src (s_grammar width src)
unfolding s_grammar AllBehind
s_grammar-AllBehind width [] h = tt
s_grammar-AllBehind width (n ∷ src) (b, h) = elim (Bool-cases (ltb n 128)) [
  | inl e ↦ rw e (elim (Bool-cases (ltb n 64)) [
    | inl e' ↦ rw e' (elim (Bool-cases (ltb n (2 ^ (width - 1)))) [
      | inl e'' ↦ rw e'' (h, omega arith)
      | inr e'' ↦ rw e'' tt
    ])
    | inr e' ↦ rw e' (elim (Bool-cases (leb 128 (n + 2 ^ (width - 1)))) [
      | inl e'' ↦ rw e'' (h, omega arith)
      | inr e'' ↦ rw e'' tt
    ])
  ])
  | inr e ↦ rw e (elim (Bool-cases (ltb 7 width)) [
    | inl e' ↦ rw e' (
        AllBehind-map (λ v. pos 128 *ℤ v +ℤ pos (n - 128)) n src (s_grammar (width - 7) src)
          (s_grammar-AllBehind (width - 7) src h))
    | inr e' ↦ rw e' tt
  ])
]

AllBehind-some :
    {A : Type 0} (src : List ℕ) (o : Option (A × List ℕ)) (a : A) (rest : List ℕ)
    → AllBehind src o
    → o ≡ some (a, rest)
    → Behind src rest
unfolding AllBehind
AllBehind-some src o a rest h e = rw e at h

-- On a list of bytes, `read_leb_u32` goes forward, and its value has 32 bits.
pub read_leb_u32-Gives :
    (src : List ℕ)
    → IsBytes src
    → Gives (λ v rest. (v < 2 ^ 32) × Behind src rest) (read_leb_u32 src)
unfolding read_leb_u32
read_leb_u32-Gives src h =
    narrowed (read_leb (unsigned 32) src) (read_leb-ne-fault (unsigned 32) src refl (omega arith))
      (read_leb-u_grammar 32 src (omega arith) (omega arith) h)
  where
    narrowed :
        (r : Result (ℕ × List ℕ))
        → r ≢ fault
        → ok? r ≡ u_grammar 32 src
        → Gives
            (λ v rest. (v < 2 ^ 32) × Behind src rest)
            (r >>= λ x. assert (leb x.0 0xffff_ffff) >> ok (x.0 % 2 ^ 32, x.1))
    narrowed fault ne e = absurd (ne refl)
    narrowed (err c) ne e = tt
    narrowed (ok (v, rest)) ne e =
        let b : v < 2 ^ 32 = u_grammar-lt 32 src v rest h (sym e) in
        rw (le→leb v 0xffff_ffff (omega arith)) (
          omega arith,
          AllBehind-some src (u_grammar 32 src) v rest (u_grammar-AllBehind 32 src h) (sym e),
        )

-- A block type that is not negative has 32 bits.
abbrev pub IsBlocktype : ℤ → Type 0
IsBlocktype (pos n) = n < 2 ^ 32
IsBlocktype (negsuc n) = Unit

abbrev cast_int64 : ℕ × List ℕ → Result (ℤ × List ℕ)
cast_int64 x = ok (int64 x.0, x.1)

read_leb_s-ne-fault : (src : List ℕ) → read_leb_s 33 src ≢ fault
unfolding read_leb_s
read_leb_s-ne-fault src =
    elim (read_leb (signed 33) src) as (λ r. r ≢ fault → (r >>= cast_int64) ≢ fault) [
      | ok x ↦ λ _ e. cc
      | err c ↦ λ _ e. cc
      | fault ↦ λ ne e. ne refl
    ]
      (read_leb-ne-fault (signed 33) src refl (omega arith))

-- On a list of bytes, `read_leb_s` with 33 bits goes forward.
pub read_leb_s33-Gives :
    (src : List ℕ)
    → IsBytes src
    → Gives (λ v rest. IsBlocktype v × Behind src rest) (read_leb_s 33 src)
read_leb_s33-Gives src h =
    given (read_leb_s 33 src) (read_leb_s-ne-fault src)
      (read_leb_s-s_grammar 33 src (omega arith) (omega arith) h)
  where
    fits_blocktype : (v : ℤ) (rest : List ℕ) → AllFit 33 (some (v, rest)) → IsBlocktype v
    fits_blocktype (pos n) rest f = omega arith
    fits_blocktype (negsuc n) rest f = tt

    given :
        (r : Result (ℤ × List ℕ))
        → r ≢ fault
        → ok? r ≡ s_grammar 33 src
        → Gives (λ v rest. IsBlocktype v × Behind src rest) r
    given fault ne e = absurd (ne refl)
    given (err c) ne e = tt
    given (ok (v, rest)) ne e = (
      fits_blocktype v rest (rw (sym e) at (s_grammar-Fits 33 src h)),
      AllBehind-some src (s_grammar 33 src) v rest (s_grammar-AllBehind 33 src h) (sym e),
    )

-- A number below 128 is one byte.
pub read_leb_u32-byte : (b : ℕ) (rest : List ℕ) → b < 128 → read_leb_u32 (b ∷ rest) ≡ ok (b, rest)
unfolding read_leb_u32 read_leb
read_leb_u32-byte b rest h =
    let m : b % 2 ^ 32 ≡ b = omega arith in
    rw (top_bit b (omega arith), lt→ltb b 128 h, le→leb b 0xffff_ffff (omega arith), m) refl

map_some :
    {A B : Type 0} (f : A → B) (rest : List ℕ) (b : B) (o : Option (A × List ℕ))
    → ◌≡◌ {A = Option (B × List ℕ)} (some (b, rest)) (option_map (λ p. (f p.0, p.1)) o)
    → (a : A) × (o ≡ some (a, rest))
map_some f rest b none e = cc
map_some f rest b (some (a, r)) e = (a, ground (arith, e))

-- On a list of bytes, the signed `read_leb` goes forward.
pub read_leb-signed-Gives :
    (bits : ℕ) (src : List ℕ)
    → 7 ≤ bits
    → bits ≤ 64
    → IsBytes src
    → Gives (λ _ rest. Behind src rest) (read_leb (signed bits) src)
read_leb-signed-Gives bits src lo hi h =
    given (read_leb (signed bits) src) (read_leb-ne-fault (signed bits) src refl (omega arith))
      (read_leb-s_grammar bits src lo hi h)
  where
    given :
        (r : Result (ℕ × List ℕ))
        → r ≢ fault
        → ok? r ≡ option_map (λ p. (twos_complement p.0, p.1)) (s_grammar bits src)
        → Gives (λ _ rest. Behind src rest) r
    given fault ne e = absurd (ne refl)
    given (err c) ne e = tt
    given (ok (v, rest)) ne e =
        let (a, e') = map_some twos_complement rest v (s_grammar bits src) e in
        AllBehind-some src (s_grammar bits src) a rest (s_grammar-AllBehind bits src h) e'

-- The same for the readers of the constants.
pub read_leb_i32-Gives :
    (src : List ℕ) → IsBytes src → Gives (λ _ rest. Behind src rest) (read_leb_i32 src)
unfolding read_leb_i32
read_leb_i32-Gives src h =
    Gives->>= (λ _ rest. Behind src rest) (λ _ rest. Behind src rest) (read_leb (signed 32) src)
      (λ r rest. ok (r % 2 ^ 32, rest)) (read_leb-signed-Gives 32 src (omega arith) (omega arith) h)
      λ r rest b. b

pub read_leb_i64-Gives :
    (src : List ℕ) → IsBytes src → Gives (λ _ rest. Behind src rest) (read_leb_i64 src)
unfolding read_leb_i64
read_leb_i64-Gives src h = read_leb-signed-Gives 64 src (omega arith) (omega arith) h
