-- ===== src/Prelude/Bits.antt =====
-- `|` of disjoint fields as a sum, at every width, and tables over a small range that are checked by
-- evaluation.
use Prim.Native.Nat.{
  ℕ, zero, suc, ◌+◌, ◌*◌, ◌/◌, ◌^◌, ◌≤◌, ◌<◌, max, min, ◌-◌, ◌%◌, bit_and, bit_or, digits,
  bit_or-bitwise, bit_and-bitwise,
}
use Prim.Native.Nat.add
use mathlib.Core.Path.{sym, refl, ◌≡◌, ap, ◌∙◌}
use mathlib.Core.Bool.{Bool, true, ◌&&◌}
use native.Mathlib.Omega.{arith}
use native.Mathlib.Nat.{
  pow-suc, one-le-pow, mul_comm, div-add-mod, mod-lt, mod-eq_of_lt, add-mul-mod_self_left,
}

double-pow : (q k : ℕ) → q * 2 ^ suc k ≡ 2 * (q * 2 ^ k)
double-pow q k = omega (arith, ap (λ (t : ℕ). q * t) (pow-suc 2 k))

-- The digits of `a | (q << k)` for `a` below 2 ^ k; `n` bounds the digits of `a`.
or_digits_disjoint :
    (n k a q : ℕ) → a ≤ n → a < 2 ^ k → digits (λ b. b) max n a (q * 2 ^ k) ≡ a + q * 2 ^ k
or_digits_disjoint zero k zero q p h = omega arith
or_digits_disjoint zero k (suc a) q p h = absurd (omega arith)
or_digits_disjoint (suc n) k zero q p h = omega arith
or_digits_disjoint (suc n) zero (suc a) q p h = absurd (omega arith)
or_digits_disjoint (suc n) (suc k) (suc a) q p h =
    let half : q * 2 ^ suc k / 2 ≡ q * 2 ^ k = omega (arith, double-pow q k) in
    let below : suc a / 2 < 2 ^ k = omega (arith, pow-suc 2 k) in
    rw half
      (omega (arith, double-pow q k, or_digits_disjoint n k (suc a / 2) q (omega arith) below))

-- `a | (q << k)` is a sum when `a` fits `k` bits.
pub bit_or_disjoint : (k a q : ℕ) → a < 2 ^ k → bit_or a (q * 2 ^ k) ≡ a + q * 2 ^ k
bit_or_disjoint k a q h = bit_or-bitwise a (q * 2 ^ k) ∙ or_digits_disjoint a k a q (omega arith) h

-- The remainder by an even number, from its half.
mod_double : (m a : ℕ) → 0 < m → a % (2 * m) ≡ 2 * (a / 2 % m) + a % 2
mod_double m a h =
    let r : ℕ = 2 * (a / 2 % m) + a % 2 in
    let e : a ≡ r + 2 * m * (a / 2 / m) = omega (arith, div-add-mod (a / 2) m) in
    let small : r < 2 * m = omega (arith, mod-lt (a / 2) h) in
    ap (λ (t : ℕ). t % (2 * m)) e ∙ add-mul-mod_self_left r (2 * m) (a / 2 / m) ∙ mod-eq_of_lt small

-- The digits of `a & (2 ^ k - 1)`; `n` bounds the digits of `a`.
and_digits_mask : (n k a : ℕ) → a ≤ n → digits (λ b. 0) min n a (2 ^ k - 1) ≡ a % 2 ^ k
and_digits_mask zero k zero p = sym (mod-eq_of_lt (one-le-pow k 2 (omega arith)))
and_digits_mask zero k (suc a) p = absurd (omega arith)
and_digits_mask (suc n) k zero p = sym (mod-eq_of_lt (one-le-pow k 2 (omega arith)))
and_digits_mask (suc n) zero (suc a) p =
    omega (arith, and_digits_mask n zero (suc a / 2) (omega arith))
and_digits_mask (suc n) (suc k) (suc a) p =
    let half : (2 ^ suc k - 1) / 2 ≡ 2 ^ k - 1 = omega (arith, pow-suc 2 k) in
    let twice : suc a % 2 ^ suc k ≡ 2 * (suc a / 2 % 2 ^ k) + suc a % 2 =
      ap (λ (t : ℕ). suc a % t) (pow-suc 2 k ∙ mul_comm (2 ^ k) 2)
      ∙ mod_double (2 ^ k) (suc a) (one-le-pow k 2 (omega arith)) in
    rw half (
      omega (
        arith,
        pow-suc 2 k,
        one-le-pow k 2 (omega arith),
        twice,
        and_digits_mask n k (suc a / 2) (omega arith),
      ))

-- A mask of `k` ones is the remainder by 2 ^ k.
pub bit_and_mask : (k a : ℕ) → bit_and a (2 ^ k - 1) ≡ a % 2 ^ k
bit_and_mask k a = bit_and-bitwise a (2 ^ k - 1) ∙ and_digits_mask a k a (omega arith)

-- Every value of a small range, by evaluation.
module _ (p : ℕ → Bool) where
  unfoldable pub all_below : ℕ → Bool
  all_below zero = true
  all_below (suc n) = p n && all_below n

  pub all_below_sound : (n x : ℕ) → all_below n ≡ true → x < n → p x ≡ true
  unfolding all_below
  all_below_sound zero x h lt = absurd (omega arith)
  all_below_sound (suc n) x h lt = ground (arith, all_below_sound n x)

-- Powers of two multiply out.
pub pow-add : (a b : ℕ) → 2 ^ (a + b) ≡ 2 ^ a * 2 ^ b
pow-add zero b = rw add.zero (omega arith)
pow-add (suc a) b =
    rw add.suc
      (omega (arith, pow-suc 2 (a + b), pow-add a b, ap (λ (t : ℕ). t * 2 ^ b) (pow-suc 2 a)))

pub pow_pos : (k : ℕ) → 0 < 2 ^ k
pow_pos k = one-le-pow k 2 (omega arith)

-- The digits of `(q << k) | a` for `a` below 2 ^ k; `n` bounds the digits of `q << k`.
or_digits_high :
    (n k a q x : ℕ) → x ≡ q * 2 ^ k → x ≤ n → a < 2 ^ k → digits (λ b. b) max n x a ≡ x + a
or_digits_high zero k a q zero e p h = omega arith
or_digits_high zero k a q (suc x) e p h = absurd (omega arith)
or_digits_high (suc n) k a q zero e p h = omega arith
or_digits_high (suc n) zero a q (suc x) e p h = omega (
  arith,
  or_digits_high n zero (a / 2) (suc x / 2) (suc x / 2) (omega arith) (omega arith) (omega arith),
)
or_digits_high (suc n) (suc k) a q (suc x) e p h =
    let half : suc x / 2 ≡ q * 2 ^ k = omega (arith, double-pow q k) in
    let below : a / 2 < 2 ^ k = omega (arith, pow-suc 2 k) in
    omega (arith, double-pow q k, or_digits_high n k (a / 2) q (suc x / 2) half (omega arith) below)

-- `(q << k) | a` is a sum when `a` fits `k` bits.
pub bit_or_high : (k a q : ℕ) → a < 2 ^ k → bit_or (q * 2 ^ k) a ≡ q * 2 ^ k + a
bit_or_high k a q h =
    bit_or-bitwise (q * 2 ^ k) a ∙ or_digits_high (q * 2 ^ k) k a q (q * 2 ^ k) refl (omega arith) h
