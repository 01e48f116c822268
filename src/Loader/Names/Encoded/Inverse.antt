-- ===== src/Loader/Names/Encoded/Inverse.antt =====
-- What the check of a name accepts is the encoding of scalar values.
use mathlib.Core.Path.{subst}
use wasm_doctor.Prelude.{
  ℕ, zero, suc, ◌+◌, ◌-◌, ◌*◌, ◌/◌, ◌%◌, ◌^◌, ◌≤◌, ◌<◌, ◌≡◌, refl, ◌∙◌, ap, ◌&&◌, ◌||◌, ◌↔◌, ◌⊎◌,
  inl, inr, List, [], ◌∷◌, ◌++◌, length, ltb, leb, ok, err, einval, >>=-eq-ok, arith, dec_lt,
  lt→ltb, le→ltb, Bool-cases,
}
use wasm_doctor.Loader.Names.{Lead, lead, read_more, check_char, check_chars, check_utf8}
use wasm_doctor.Loader.Names.Encoded.{
  IsScalar, AllScalar, encode, encode_all, accepted, check_utf8-encode_all, lead_one, lead_two,
  lead_three, lead_four,
}

-- A further byte that was read.
read_more-inverse :
    (n h c : ℕ) (src rest : List ℕ)
    → read_more (suc n) h src ≡ ok (c, rest)
    → (x : ℕ) × (src' : List ℕ) × (src ≡ x ∷ src')
      × (0x80 ≤ x)
      × (x < 0xc0)
      × (read_more n ((h * 64 % 2 ^ 32 + (x - 0x80)) % 2 ^ 32) src' ≡ ok (c, rest))
unfolding read_more
read_more-inverse n h c [] rest e = cc
read_more-inverse n h c (x ∷ src) rest e = elim (Bool-cases (ltb x 0x80 || leb 0xc0 x)) [
  | inl b ↦ let k = (rw b at e) in cc
  | inr b ↦ (x, src, refl, ground (arith, b), ground (arith, b), rw b at e)
]

accepted-inverse :
    (l : Lead) (c : ℕ) (p rest : List ℕ)
    → accepted l c p ≡ ok rest
    → (l.lowest ≤ c) × (c ≤ l.highest) × ((c < 0xd800) ⊎ (0xe000 ≤ c)) × (p ≡ rest)
unfolding accepted
accepted-inverse l c p rest e = elim (Bool-cases (leb l.lowest c && leb c l.highest)) [
  | inr b ↦ let k = (rw b at e) in cc
  | inl b ↦ elim (Bool-cases (leb 0xd800 c && ltb c 0xe000)) [
    | inl b' ↦ let k = (rw (b, b') at e) in cc
    | inr b' ↦
        let k : ok p ≡ ok rest = rw (b, b') at e in
        (ground (arith, b), ground (arith, b), ground (arith, b'), cc)
  ]
]

-- The parts of a character that was accepted.
char-inverse :
    (b : ℕ) (l : Lead) (src rest : List ℕ)
    → lead b ≡ ok l
    → check_char b src ≡ ok rest
    → (c : ℕ) × (read_more l.more l.bits src ≡ ok (c, rest))
      × (l.lowest ≤ c)
      × (c ≤ l.highest)
      × ((c < 0xd800) ⊎ (0xe000 ≤ c))
unfolding check_char accepted
char-inverse b l src rest e h =
    let (x, m, k) = >>=-eq-ok (read_more l.more l.bits src) (λ x. accepted l x.0 x.1) (rw e at h) in
    let (lo, hi, s, q) = accepted-inverse l x.0 x.1 rest k in
    (x.0, m ∙ ap (λ p. ok (x.0, p)) q, lo, hi, s)

-- A character that begins with a byte and is read off the bytes behind it.
abbrev Decodes : ℕ → List ℕ → List ℕ → Type 0
Decodes b src rest = (c : ℕ) × IsScalar c × (b ∷ src ≡ encode c ++ rest)

scalar : (c : ℕ) → ((c < 0xd800) ⊎ (0xe000 ≤ c)) → c < 0x110000 → IsScalar c
scalar c (inl h) lt = inl h
scalar c (inr h) lt = inr (h, lt)

one_byte : (b : ℕ) (src rest : List ℕ) → b < 0x80 → check_char b src ≡ ok rest → Decodes b src rest
unfolding encode read_more
one_byte b src rest h e =
    let (c, m, lo, hi, s) = char-inverse b _ src rest (lead_one b h) e in
    let q : b ≡ c = cc in
    let r : src ≡ rest = cc in (b, inl (omega arith), rw (lt→ltb b 0x80 h) (ap (λ p. b ∷ p) r))

two_bytes :
    (x : ℕ) (src rest : List ℕ)
    → x < 0x20
    → check_char (0xc0 + x) src ≡ ok rest
    → Decodes (0xc0 + x) src rest
unfolding encode read_more
two_bytes x src rest h e =
    let (c, m, lo, hi, s) = char-inverse (0xc0 + x) _ src rest (lead_two x h) e in
    let (y, p, ep, ly, hy, k) = read_more-inverse 0 x c src rest m in
    let v : (x * 64 % 2 ^ 32 + (y - 0x80)) % 2 ^ 32 ≡ c = cc in
    let r : p ≡ rest = cc in
    let d1 : c / 64 ≡ x = omega arith in
    let d0 : 0x80 + c % 64 ≡ y = omega arith in
    (
      c,
      scalar c s (omega arith),
      rw (le→ltb c 0x80 lo, lt→ltb c 0x800 (omega arith), d1, d0, ep, r) refl,
    )

three_bytes :
    (x : ℕ) (src rest : List ℕ)
    → x < 0x10
    → check_char (0xe0 + x) src ≡ ok rest
    → Decodes (0xe0 + x) src rest
unfolding encode read_more
three_bytes x src rest h e =
    let (c, m, lo, hi, s) = char-inverse (0xe0 + x) _ src rest (lead_three x h) e in
    let (y, p, ep, ly, hy, k) = read_more-inverse 1 x c src rest m in
    let w = (x * 64 % 2 ^ 32 + (y - 0x80)) % 2 ^ 32 in
    let (z, p', ep', lz, hz, k') = read_more-inverse 0 w c p rest k in
    let v : (w * 64 % 2 ^ 32 + (z - 0x80)) % 2 ^ 32 ≡ c = cc in
    let r : p' ≡ rest = cc in
    let d2 : c / 4096 ≡ x = omega arith in
    let d1 : 0x80 + c / 64 % 64 ≡ y = omega arith in
    let d0 : 0x80 + c % 64 ≡ z = omega arith in
    (
      c,
      scalar c s (omega arith),
      rw
          (
            le→ltb c 0x80 (omega arith),
            le→ltb c 0x800 lo,
            lt→ltb c 0x10000 (omega arith),
            d2,
            d1,
            d0,
            ep,
            ep',
            r,
          )
          refl,
    )

four_bytes :
    (x : ℕ) (src rest : List ℕ)
    → x < 0x08
    → check_char (0xf0 + x) src ≡ ok rest
    → Decodes (0xf0 + x) src rest
unfolding encode read_more
four_bytes x src rest h e =
    let (c, m, lo, hi, s) = char-inverse (0xf0 + x) _ src rest (lead_four x h) e in
    let (y, p, ep, ly, hy, k) = read_more-inverse 2 x c src rest m in
    let w = (x * 64 % 2 ^ 32 + (y - 0x80)) % 2 ^ 32 in
    let (z, p', ep', lz, hz, k') = read_more-inverse 1 w c p rest k in
    let w' = (w * 64 % 2 ^ 32 + (z - 0x80)) % 2 ^ 32 in
    let (t, p'', ep'', lt, ht, k'') = read_more-inverse 0 w' c p' rest k' in
    let v : (w' * 64 % 2 ^ 32 + (t - 0x80)) % 2 ^ 32 ≡ c = cc in
    let r : p'' ≡ rest = cc in
    let d3 : c / 262144 ≡ x = omega arith in
    let d2 : 0x80 + c / 4096 % 64 ≡ y = omega arith in
    let d1 : 0x80 + c / 64 % 64 ≡ z = omega arith in
    let d0 : 0x80 + c % 64 ≡ t = omega arith in
    (
      c,
      scalar c s (omega arith),
      rw
          (
            le→ltb c 0x80 (omega arith),
            le→ltb c 0x800 (omega arith),
            le→ltb c 0x10000 lo,
            d3,
            d2,
            d1,
            d0,
            ep,
            ep',
            ep'',
            r,
          )
          refl,
    )

no_lead :
    (b : ℕ) (src rest : List ℕ)
    → lead b ≡ err einval
    → check_char b src ≡ ok rest
    → Decodes b src rest
unfolding check_char
no_lead b src rest e h = let k = (rw e at h) in cc

abbrev IsDecoded : List ℕ → List ℕ → ℕ → Type 0
IsDecoded src rest b = check_char b src ≡ ok rest → Decodes b src rest

-- A character that is accepted is the encoding of a scalar value.
char-Decodes : (b : ℕ) (src rest : List ℕ) → IsDecoded src rest b
unfolding lead
char-Decodes b src rest = elim (dec_lt b 0x80) [
  | yes h ↦ one_byte b src rest h
  | no h1 ↦ elim (dec_lt b 0xc0) [
    | yes h ↦ no_lead b src rest (rw (le→ltb b 0x80 (omega arith), lt→ltb b 0xc0 h) refl)
    | no h2 ↦ elim (dec_lt b 0xe0) [
      | yes h ↦
          let e : 0xc0 + (b - 0xc0) ≡ b = omega arith in
          subst (IsDecoded src rest) e (two_bytes (b - 0xc0) src rest (omega arith))
      | no h3 ↦ elim (dec_lt b 0xf0) [
        | yes h ↦
            let e : 0xe0 + (b - 0xe0) ≡ b = omega arith in
            subst (IsDecoded src rest) e (three_bytes (b - 0xe0) src rest (omega arith))
        | no h4 ↦ elim (dec_lt b 0xf8) [
          | yes h ↦
              let e : 0xf0 + (b - 0xf0) ≡ b = omega arith in
              subst (IsDecoded src rest) e (four_bytes (b - 0xf0) src rest (omega arith))
          | no h5 ↦ no_lead b src rest (
              rw
                (
                  le→ltb b 0x80 (omega arith),
                  le→ltb b 0xc0 (omega arith),
                  le→ltb b 0xe0 (omega arith),
                  le→ltb b 0xf0 (omega arith),
                  le→ltb b 0xf8 (omega arith),
                )
                refl)
        ]
      ]
    ]
  ]
]

-- The bytes are the encoding of a sequence of scalar values.
abbrev pub IsUtf8 : List ℕ → Type 0
IsUtf8 src = (cs : List ℕ) × AllScalar cs × (src ≡ encode_all cs)

chars-IsUtf8 : (fuel : ℕ) (src : List ℕ) → check_chars fuel src ≡ ok tt → IsUtf8 src
unfolding check_chars
chars-IsUtf8 fuel [] h = ([], tt, refl)
chars-IsUtf8 zero (b ∷ src) h = cc
chars-IsUtf8 (suc fuel) (b ∷ src) h =
    let (rest, e, k) = >>=-eq-ok (check_char b src) (check_chars fuel) h in
    let (c, s, q) = char-Decodes b src rest e in
    let (cs, ss, q') = chars-IsUtf8 fuel rest k in (c ∷ cs, (s, ss), q ∙ ap (λ r. encode c ++ r) q')

-- `check_utf8` accepts just the encodings, as RFC 3629 states them, of the sequences of Unicode scalar
-- values.
pub check_utf8-IsUtf8 : (src : List ℕ) → (check_utf8 src ≡ ok tt) ↔ IsUtf8 src
unfolding check_utf8
check_utf8-IsUtf8 src =
    (chars-IsUtf8 (length src) src, λ (cs, s, e). rw e (check_utf8-encode_all cs s))
