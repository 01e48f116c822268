-- ===== src/Timeutil/Sums.antt =====
-- Times as numbers of nanoseconds.
use Prim.Native.Nat.{compare}
use wasm_doctor.Prelude.{
  ℕ, ◌+◌, ◌-◌, ◌*◌, ◌/◌, ◌%◌, ◌^◌, ◌≤◌, ◌<◌, ◌≡◌, refl, min, not, ltb, leb, Result, ok, err, Errno,
  eoverflow, guard, ◌>>=◌, ◌>>◌, arith, Bool-cases, inl, inr, le→ltb, lt→ltb,
}
use wasm_doctor.Timeutil.{
  Timespec, is_lt, assert_normalized, billion, timespec_cmp, timespec_add, timespec_sub,
  timespec_from_ns, timespec_to_ms,
}

abbrev pub ns : Timespec → ℕ
ns a = a.tv_sec * 1000000000 + a.tv_nsec

abbrev pub IsNormalized : Timespec → Type 0
IsNormalized a = (a.tv_sec < 2 ^ 63) × (a.tv_nsec < 1000000000)

-- Normalized times compare as their nanoseconds do.
pub timespec_cmp-ns :
    (a b : Timespec)
    → IsNormalized a
    → IsNormalized b
    → timespec_cmp a b ≡ ok (compare (ns a) (ns b))
unfolding timespec_cmp
timespec_cmp-ns a b ha hb = ground (arith, ha, hb)

-- The outcomes of adding `n` nanoseconds to a time.
abbrev pub Later : Timespec → ℕ → Result Timespec → Type 0
Later a n (ok c) = IsNormalized c × (ns c ≡ ns a + n)
Later a n (err Errno.eoverflow) = 2 ^ 63 * 1000000000 ≤ ns a + n
Later a n _ = ⊥

-- The second half of timespec_add, on the sum before it is checked.
checked : Timespec → Timespec → Result Timespec
checked a c = do
  guard (not (leb (2 ^ 63) c.tv_sec)) eoverflow
  order ← timespec_cmp c a
  guard (not (is_lt order)) eoverflow
  assert_normalized c
  ok c

checked-Later :
    (a b c : Timespec)
    → IsNormalized a
    → c.tv_nsec < 1000000000
    → ns c ≡ ns a + ns b
    → Later a (ns b) (checked a c)
unfolding checked
checked-Later a b c ha hn e = elim (Bool-cases (leb (2 ^ 63) c.tv_sec)) [
  | inl x ↦ rw x (ground arith)
  | inr x ↦
      let hc : IsNormalized c = (ground arith, hn) in
      rw
        (
          x,
          timespec_cmp-ns c a hc ha,
          le→ltb (ns c) (ns a) (omega arith),
          lt→ltb c.tv_nsec billion hn,
        )
        (hc, e)
]

mod64 : (n : ℕ) → n < 2 ^ 64 → n % 2 ^ 64 ≡ n
mod64 n h = omega arith

-- On normalized times, timespec_add gives the normalized sum, or EOVERFLOW where the seconds of the
-- sum do not fit in 63 bits. No assertion fails.
pub timespec_add-Later :
    (a b : Timespec) → IsNormalized a → IsNormalized b → Later a (ns b) (timespec_add a b)
unfolding timespec_add checked
timespec_add-Later a b ha hb =
    let n = mod64 (a.tv_nsec + b.tv_nsec) (omega arith) in
    elim (Bool-cases (leb billion (a.tv_nsec + b.tv_nsec))) [
      | inl x ↦
          rw
            (
              lt→ltb a.tv_nsec billion ha.1,
              lt→ltb b.tv_nsec billion hb.1,
              n,
              x,
              mod64 (a.tv_sec + b.tv_sec + 1) (omega arith),
            )
            (checked-Later a b
              (record {
                tv_sec = a.tv_sec + b.tv_sec + 1;
                tv_nsec = a.tv_nsec + b.tv_nsec - billion;
              })
              ha (omega arith) (ground arith))
      | inr x ↦
          rw
            (
              lt→ltb a.tv_nsec billion ha.1,
              lt→ltb b.tv_nsec billion hb.1,
              n,
              x,
              mod64 (a.tv_sec + b.tv_sec + 0) (omega arith),
            )
            (checked-Later a b
              (record { tv_sec = a.tv_sec + b.tv_sec + 0; tv_nsec = a.tv_nsec + b.tv_nsec }) ha
              (ground arith) (omega arith))
    ]

-- On normalized times, the first one not the smaller, timespec_sub gives the normalized difference.
pub timespec_sub-ns :
    (a b : Timespec)
    → IsNormalized a
    → IsNormalized b
    → ns b ≤ ns a
    → (c : Timespec) × (timespec_sub a b ≡ ok c) × IsNormalized c × (ns c ≡ ns a - ns b)
unfolding timespec_sub
timespec_sub-ns a b ha hb h = elim (Bool-cases (ltb a.tv_nsec b.tv_nsec)) [
  | inl x ↦
      let lt : a.tv_nsec < b.tv_nsec = ground arith in
      (
        record { tv_sec = a.tv_sec - b.tv_sec - 1; tv_nsec = billion + a.tv_nsec - b.tv_nsec },
        rw
            (
              lt→ltb a.tv_nsec billion ha.1,
              lt→ltb b.tv_nsec billion hb.1,
              timespec_cmp-ns a b ha hb,
              le→ltb (ns a) (ns b) h,
              x,
              lt→ltb (billion + a.tv_nsec - b.tv_nsec) billion (omega arith),
            )
            refl,
        omega arith,
        omega arith,
      )
  | inr x ↦
      let le : b.tv_nsec ≤ a.tv_nsec = ground arith in
      (
        record { tv_sec = a.tv_sec - b.tv_sec - 0; tv_nsec = a.tv_nsec - b.tv_nsec },
        rw
            (
              lt→ltb a.tv_nsec billion ha.1,
              lt→ltb b.tv_nsec billion hb.1,
              timespec_cmp-ns a b ha hb,
              le→ltb (ns a) (ns b) h,
              x,
              lt→ltb (a.tv_nsec - b.tv_nsec) billion (omega arith),
            )
            refl,
        omega arith,
        omega arith,
      )
]

-- Every 64-bit number of nanoseconds is a normalized time.
pub timespec_from_ns-ns :
    (n : ℕ)
    → n < 2 ^ 64
    → (c : Timespec) × (timespec_from_ns n ≡ ok c) × IsNormalized c × (ns c ≡ n)
unfolding timespec_from_ns
timespec_from_ns-ns n h =
    (record { tv_sec = n / billion; tv_nsec = n % billion }, ground arith, omega arith, omega arith)

-- On a normalized time, timespec_to_ms gives the milliseconds, rounded down, or the largest 64-bit
-- number where they are more.
pub timespec_to_ms-ns :
    (a : Timespec) → IsNormalized a → timespec_to_ms a ≡ min (2 ^ 64 - 1) (ns a / 1000000)
unfolding timespec_to_ms
timespec_to_ms-ns a h = ground (arith, h)
