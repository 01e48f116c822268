-- ===== src/Timeutil/Clocks.antt =====
-- Absolute and relative times.
use wasm_doctor.Prelude.{
  ℕ, ◌+◌, ◌-◌, ◌/◌, ◌^◌, ◌≤◌, ◌<◌, ◌≡◌, ap, ltb, ◌⊎◌, ok, err, eoverflow, arith, Bool-cases, inl,
  inr, lt→ltb,
}
use wasm_doctor.Timeutil.{
  Timespec, billion, ms_roundup, abstime_from_reltime_ns, abstime_to_reltime_ms_roundup,
}
use wasm_doctor.Timeutil.Sums.{
  ns, IsNormalized, Later, timespec_cmp-ns, timespec_add-Later, timespec_sub-ns,
  timespec_from_ns-ns,
}

-- When the clock gives a normalized time, abstime_from_reltime_ns of a 64-bit number gives the
-- normalized time that many nanoseconds later, or EOVERFLOW where its seconds do not fit in 63 bits.
-- No assertion fails.
pub abstime_from_reltime_ns-Later :
    (now : Timespec) (n : ℕ)
    → IsNormalized now
    → n < 2 ^ 64
    → Later now n (abstime_from_reltime_ns (ok now) n)
unfolding abstime_from_reltime_ns
abstime_from_reltime_ns-Later now n h lt =
    let (c, e, hc, v) = timespec_from_ns-ns n lt in
    rw (e, lt→ltb now.tv_nsec billion h.1, ← v) (timespec_add-Later now c h hc)

-- Milliseconds, rounded up.
abbrev pub milliseconds : ℕ → ℕ
milliseconds n = (n + 999999) / 1000000

past : (a b : ℕ) → a < b → 0 ≡ (a - b + 999999) / 1000000
past a b h = omega arith

ms_roundup-ns :
    (t : Timespec)
    → IsNormalized t
    → ((ms_roundup t ≡ ok ((ns t + 999999) / 1000000)) × ((ns t + 999999) / 1000000 < 2 ^ 31))
      ⊎ ((ms_roundup t ≡ err eoverflow) × (2 ^ 31 ≤ (ns t + 999999) / 1000000))
unfolding ms_roundup
ms_roundup-ns t h = ground (arith, h)

-- When the clock gives a normalized time, abstime_to_reltime_ms_roundup of a normalized time gives 0
-- if that is in the past, and otherwise the milliseconds until then, rounded up, or EOVERFLOW where
-- they do not fit in an int. No assertion fails.
pub abstime_to_reltime_ms_roundup-ns :
    (now abstime : Timespec)
    → IsNormalized now
    → IsNormalized abstime
    → ((abstime_to_reltime_ms_roundup (ok now) abstime ≡ ok (milliseconds (ns abstime - ns now)))
        × (milliseconds (ns abstime - ns now) < 2 ^ 31))
      ⊎ ((abstime_to_reltime_ms_roundup (ok now) abstime ≡ err eoverflow)
          × (2 ^ 31 ≤ milliseconds (ns abstime - ns now)))
unfolding abstime_to_reltime_ms_roundup
abstime_to_reltime_ms_roundup-ns now abstime h ha = elim (Bool-cases (ltb (ns abstime) (ns now))) [
  | inl x ↦
      rw (lt→ltb now.tv_nsec billion h.1, timespec_cmp-ns abstime now ha h, x)
        (inl (ap ok (past (ns abstime) (ns now) (ground arith)), ground arith))
  | inr x ↦
      let (c, e, hc, v) = timespec_sub-ns abstime now ha h (ground arith) in
      rw (lt→ltb now.tv_nsec billion h.1, timespec_cmp-ns abstime now ha h, x, e, ← v)
        (ms_roundup-ns c hc)
]
