-- ===== src/Leb128/Total.antt =====
-- With an end to check against, no reader faults: each answers with a value or an errno.
use wasm_doctor.Prelude.{
  ℕ, ◌+◌, ◌-◌, ◌*◌, ◌/◌, ◌≤◌, ◌<◌, bit_and, ◌≡◌, ◌≢◌, refl, Bool, true, false, List, [], ◌∷◌,
  length, arith, ltb, ◌==◌, if◌then◌else◌, Result, ok, err, fault, ◌>>=◌, dec_lt, Bool-cases, inl,
  inr, lt→ltb, le→ltb,
}
use wasm_doctor.Leb128.{Mode, check_group, add_group, round, read_leb_loop, read_leb}

bind-ne-fault {ℓ κ} :
    {A : Type ℓ} {B : Type κ} (r : Result A) (f : A → Result B)
    → r ≢ fault
    → ((a : A) → f a ≢ fault)
    → (r >>= f) ≢ fault
bind-ne-fault (ok a) f h k = k a
bind-ne-fault (err e) f h k = λ p. cc
bind-ne-fault fault f h k = absurd (h refl)

round-ne-fault :
    (m : Mode) (u8 shift result : ℕ) (minus : Bool)
    → shift < 64
    → round m u8 shift result minus ≢ fault
unfolding round check_group add_group
round-ne-fault m u8 shift result minus h = ground arith

loop-ne-fault :
    (m : Mode) (u8 : ℕ) (src : List ℕ) (room shift result : ℕ) (minus : Bool)
    → m.error_check ≡ true
    → room ≤ length src
    → shift + 7 * room < 64
    → read_leb_loop m u8 src room shift result minus ≢ fault
unfolding read_leb_loop
loop-ne-fault m u8 [] room shift result minus c hr hs =
    ground (arith, round-ne-fault m u8 shift result minus)
loop-ne-fault m u8 (b ∷ rest) room shift result minus c hr hs =
    bind-ne-fault (round m u8 shift result minus) _
      (round-ne-fault m u8 shift result minus (omega arith))
      λ x. elim (Bool-cases (bit_and u8 0x80 == 0)) [
        | inl e ↦ rw e (λ p. cc)
        | inr e ↦
            rw (e, c)
              (elim (dec_lt room 1) [
                | yes h ↦ rw (lt→ltb room 1 h) (λ p. cc)
                | no h ↦ rw (le→ltb room 1 (omega arith)) (
                    loop-ne-fault m b rest (room - 1) (shift + 7) x.0 x.1 c (omega arith)
                      (omega arith))
              ])
      ]

-- With the error check on and a width of at most 64, the reader ends on every input with a value or
-- an errno.
pub read_leb-ne-fault :
    (m : Mode) (src : List ℕ) → m.error_check ≡ true → m.bits ≤ 64 → read_leb m src ≢ fault
unfolding read_leb
read_leb-ne-fault m [] c h = rw c (λ p. cc)
read_leb-ne-fault m (u8 ∷ rest) c h =
    let limit = (m.bits + 7 - 1) / 7 - 1 in
    let room : ℕ = if ltb limit (length rest) then limit else length rest in
    let near : (room ≤ length rest) × (room ≤ 9) = ground arith in
    elim (Bool-cases (bit_and u8 0x80 == 0)) [
      | inl e ↦ rw e (λ p. cc)
      | inr e ↦ rw e (loop-ne-fault m u8 rest room 0 0 false c near.0 (omega arith))
    ]
