-- ===== src/Loader/Names/Encoded.antt =====
-- The check of a name against the encoding of UTF-8, as RFC 3629 states it.
pub mod Inverse
use wasm_doctor.Prelude.{
  ℕ, zero, suc, ◌+◌, ◌-◌, ◌*◌, ◌/◌, ◌%◌, ◌^◌, ◌≤◌, ◌<◌, ◌≡◌, refl, ◌∙◌, ap, ◌&&◌, ◌⊎◌, inl, inr,
  List, [], ◌∷◌, ◌++◌, length, ltb, leb, if◌then◌else◌, not, Result, ok, einval, guard, ◌>>◌, arith,
  dec_lt, lt→ltb, le→ltb, le→leb, lt→leb, Bool-cases,
}
use wasm_doctor.Loader.Names.{Lead, lead, read_more, check_char, check_chars, check_utf8}

-- A Unicode scalar value: a code point that is no surrogate.
abbrev pub IsScalar : ℕ → Type 0
IsScalar c = (c < 0xd800) ⊎ ((0xe000 ≤ c) × (c < 0x110000))

-- The bytes behind the first one.
abbrev pub further : ℕ → ℕ
further c = 0x80 + c % 64

-- The encoding of a scalar value: one to four bytes.
unfoldable pub encode : ℕ → List ℕ
encode c =
    if ltb c 0x80
    then c ∷ []
    else if ltb c 0x800
    then (0xc0 + c / 64) ∷ further c ∷ []
    else if ltb c 0x10000
    then (0xe0 + c / 4096) ∷ further (c / 64) ∷ further c ∷ []
    else (0xf0 + c / 262144) ∷ further (c / 4096) ∷ further (c / 64) ∷ further c ∷ []

-- One further byte adds its six bits.
read_more-further :
    (n h c : ℕ) (src : List ℕ)
    → h * 64 + c % 64 < 2 ^ 32
    → read_more (suc n) h (further c ∷ src) ≡ read_more n (h * 64 + c % 64) src
unfolding read_more
read_more-further n h c src lt =
    let e : (h * 64 % 2 ^ 32 + (0x80 + c % 64 - 0x80)) % 2 ^ 32 ≡ h * 64 + c % 64 = omega arith in
    rw (le→ltb (0x80 + c % 64) 0x80 (omega arith), lt→leb 0xc0 (0x80 + c % 64) (omega arith), e)
      refl

-- What is left to check when the bits are together.
pub accepted : Lead → ℕ → List ℕ → Result (List ℕ)
accepted l c rest =
    guard (leb l.lowest c && leb c l.highest) einval
    >> (guard (not (leb 0xd800 c && ltb c 0xe000)) einval >> ok rest)

accepted-ok :
    (l : Lead) (c : ℕ) (rest : List ℕ)
    → IsScalar c
    → l.lowest ≤ c
    → c ≤ l.highest
    → accepted l c rest ≡ ok rest
unfolding accepted
accepted-ok l c rest (inl lt) lo hi =
    rw (le→leb l.lowest c lo, le→leb c l.highest hi, lt→leb 0xd800 c lt) refl
accepted-ok l c rest (inr (ge, lt)) lo hi =
    rw
      (
        le→leb l.lowest c lo,
        le→leb c l.highest hi,
        le→leb 0xd800 c (omega arith),
        le→ltb c 0xe000 ge,
      )
      refl

-- The character whose bits are read.
char-ok :
    (b c : ℕ) (l : Lead) (src rest : List ℕ)
    → lead b ≡ ok l
    → read_more l.more l.bits src ≡ ok (c, rest)
    → IsScalar c
    → l.lowest ≤ c
    → c ≤ l.highest
    → check_char b src ≡ ok rest
unfolding check_char accepted
char-ok b c l src rest e m s lo hi = rw (e, m) (accepted-ok l c rest s lo hi)

-- The bits so far, with one, two or three further bytes.
read_one :
    (h c : ℕ) (src : List ℕ)
    → h ≡ c / 64
    → c < 2 ^ 32
    → read_more 1 h (further c ∷ src) ≡ ok (c, src)
unfolding read_more
read_one h c src e lt =
    let q : h * 64 + c % 64 ≡ c = omega arith in
    read_more-further 0 h c src (omega arith) ∙ ap (λ n. ok (n, src)) q

read_two :
    (h c : ℕ) (src : List ℕ)
    → h ≡ c / 64 / 64
    → c < 2 ^ 32
    → read_more 2 h (further (c / 64) ∷ further c ∷ src) ≡ ok (c, src)
read_two h c src e lt =
    let q : h * 64 + c / 64 % 64 ≡ c / 64 = omega arith in
    read_more-further 1 h (c / 64) (further c ∷ src) (omega arith) ∙ read_one _ c src q lt

read_three :
    (h c : ℕ) (src : List ℕ)
    → h ≡ c / 64 / 64 / 64
    → c < 2 ^ 32
    → read_more 3 h (further (c / 64 / 64) ∷ further (c / 64) ∷ further c ∷ src) ≡ ok (c, src)
read_three h c src e lt =
    let q : h * 64 + c / 64 / 64 % 64 ≡ c / 64 / 64 = omega arith in
    read_more-further 2 h (c / 64 / 64) (further (c / 64) ∷ further c ∷ src) (omega arith)
    ∙ read_two _ c src q lt

pub lead_one :
    (c : ℕ) → c < 0x80 → lead c ≡ ok (record { more = 0; lowest = 0; highest = 0x7f; bits = c })
unfolding lead
lead_one c h = rw (lt→ltb c 0x80 h) refl

cancel : (k x : ℕ) → k + x - k ≡ x
cancel k x = omega arith

pub lead_two :
    (x : ℕ)
    → x < 0x20
    → lead (0xc0 + x) ≡ ok (record { more = 1; lowest = 0x80; highest = 0x7ff; bits = x })
unfolding lead
lead_two x h =
    let b = 0xc0 + x in
    rw
      (
        le→ltb b 0x80 (omega arith),
        le→ltb b 0xc0 (omega arith),
        lt→ltb b 0xe0 (omega arith),
        cancel 0xc0 x,
      )
      refl

pub lead_three :
    (x : ℕ)
    → x < 0x10
    → lead (0xe0 + x) ≡ ok (record { more = 2; lowest = 0x800; highest = 0xffff; bits = x })
unfolding lead
lead_three x h =
    let b = 0xe0 + x in
    rw
      (
        le→ltb b 0x80 (omega arith),
        le→ltb b 0xc0 (omega arith),
        le→ltb b 0xe0 (omega arith),
        lt→ltb b 0xf0 (omega arith),
        cancel 0xe0 x,
      )
      refl

pub lead_four :
    (x : ℕ)
    → x < 0x08
    → lead (0xf0 + x) ≡ ok (record { more = 3; lowest = 0x10000; highest = 0x10ffff; bits = x })
unfolding lead
lead_four x h =
    let b = 0xf0 + x in
    rw
      (
        le→ltb b 0x80 (omega arith),
        le→ltb b 0xc0 (omega arith),
        le→ltb b 0xe0 (omega arith),
        le→ltb b 0xf0 (omega arith),
        lt→ltb b 0xf8 (omega arith),
        cancel 0xf0 x,
      )
      refl

onward :
    (fuel b : ℕ) (src rest : List ℕ)
    → check_char b src ≡ ok rest
    → check_chars (suc fuel) (b ∷ src) ≡ check_chars fuel rest
unfolding check_chars
onward fuel b src rest e = rw e refl

IsScalar-bound : (c : ℕ) → IsScalar c → c < 0x110000
IsScalar-bound c (inl h) = omega arith
IsScalar-bound c (inr h) = omega arith

-- The encoding of a scalar value is accepted as one character.
encode-accepted :
    (c : ℕ) (src : List ℕ) (fuel : ℕ)
    → IsScalar c
    → check_chars (suc fuel) (encode c ++ src) ≡ check_chars fuel src
unfolding encode read_more
encode-accepted c src fuel s =
    let b = IsScalar-bound c s in
    elim (dec_lt c 0x80) [
      | yes h ↦ rw (lt→ltb c 0x80 h) (
          onward fuel c src src
            (char-ok c c _ src src (lead_one c h) refl s (omega arith) (omega arith)))
      | no h1 ↦ elim (dec_lt c 0x800) [
        | yes h ↦
            rw (le→ltb c 0x80 (omega arith), lt→ltb c 0x800 h)
              (onward fuel (0xc0 + c / 64) (further c ∷ src) src (
                char-ok (0xc0 + c / 64) c _ (further c ∷ src) src (lead_two (c / 64) (omega arith))
                  (read_one (c / 64) c src refl (omega arith)) s (omega arith) (omega arith)))
        | no h2 ↦ elim (dec_lt c 0x10000) [
          | yes h ↦
              let tail = further (c / 64) ∷ further c ∷ src in
              rw (le→ltb c 0x80 (omega arith), le→ltb c 0x800 (omega arith), lt→ltb c 0x10000 h)
                (onward fuel (0xe0 + c / 4096) tail src (
                  char-ok (0xe0 + c / 4096) c _ tail src (lead_three (c / 4096) (omega arith))
                    (read_two (c / 4096) c src (omega arith) (omega arith)) s (omega arith)
                    (omega arith)))
          | no h3 ↦
              let e : c / 4096 ≡ c / 64 / 64 = omega arith in
              let tail = further (c / 64 / 64) ∷ further (c / 64) ∷ further c ∷ src in
              rw
                (
                  le→ltb c 0x80 (omega arith),
                  le→ltb c 0x800 (omega arith),
                  le→ltb c 0x10000 (omega arith),
                  e,
                )
                (onward fuel (0xf0 + c / 262144) tail src (
                  char-ok (0xf0 + c / 262144) c _ tail src (lead_four (c / 262144) (omega arith))
                    (read_three (c / 262144) c src (omega arith) (omega arith)) s (omega arith)
                    (omega arith)))
        ]
      ]
    ]

abbrev pub AllScalar : List ℕ → Type 0
AllScalar [] = Unit
AllScalar (c ∷ cs) = IsScalar c × AllScalar cs

abbrev pub encode_all : List ℕ → List ℕ
encode_all [] = []
encode_all (c ∷ cs) = encode c ++ encode_all cs

length-encode : (c : ℕ) (src : List ℕ) → length src < length (encode c ++ src)
unfolding encode
length-encode c src = elim (Bool-cases (ltb c 0x80)) [
  | inl e ↦ rw e (omega arith)
  | inr e ↦ rw e (elim (Bool-cases (ltb c 0x800)) [
    | inl e' ↦ rw e' (omega arith)
    | inr e' ↦ rw e' (elim (Bool-cases (ltb c 0x10000)) [
      | inl e'' ↦ rw e'' (omega arith)
      | inr e'' ↦ rw e'' (omega arith)
    ])
  ])
]

all-accepted :
    (cs : List ℕ) (fuel : ℕ)
    → AllScalar cs
    → length (encode_all cs) ≤ fuel
    → check_chars fuel (encode_all cs) ≡ ok tt
unfolding check_chars
all-accepted [] fuel s h = refl
all-accepted (c ∷ cs) zero s h = absurd (omega (arith, length-encode c (encode_all cs)))
all-accepted (c ∷ cs) (suc fuel) (s, ss) h =
    encode-accepted c (encode_all cs) fuel s
    ∙ all-accepted cs fuel ss (omega (arith, length-encode c (encode_all cs)))

-- The encoding of every sequence of Unicode scalar values passes the check of a name.
pub check_utf8-encode_all : (cs : List ℕ) → AllScalar cs → check_utf8 (encode_all cs) ≡ ok tt
unfolding check_utf8
check_utf8-encode_all cs s = all-accepted cs (length (encode_all cs)) s (omega arith)
