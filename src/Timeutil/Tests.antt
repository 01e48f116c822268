-- ===== src/Timeutil/Tests.antt =====
-- Runs on small times.
use Prim.Native.Nat.{compare}
use wasm_doctor.Prelude.{ℕ, ◌-◌, ◌<◌, ◌≤◌, ◌^◌, ◌≡◌, ◌⊎◌, refl, ok, err, eoverflow, arith}
use wasm_doctor.Timeutil.{
  Timespec, timespec_cmp, timespec_add, timespec_sub, abstime_from_reltime_ns,
  abstime_to_reltime_ms_roundup, convert_timespec,
}
use wasm_doctor.Timeutil.Sums.{
  ns, IsNormalized, Later, timespec_cmp-ns, timespec_add-Later, timespec_sub-ns,
}
use wasm_doctor.Timeutil.Clocks.{
  milliseconds, abstime_from_reltime_ns-Later, abstime_to_reltime_ms_roundup-ns,
}

abbrev early : Timespec
early = record { tv_sec = 5; tv_nsec = 999999999 }

abbrev late : Timespec
late = record { tv_sec = 100; tv_nsec = 1 }

-- A time one clock second before now, where the other clock is at 100 seconds: its time would be 99
-- seconds, and the answer is EOVERFLOW.
abbrev second : ℕ → Timespec
second n = record { tv_sec = n; tv_nsec = 0 }

convert_refuses : convert_timespec (ok (second 10)) (ok (second 100)) (second 9) ≡ err eoverflow
unfolding convert_timespec timespec_cmp timespec_sub
convert_refuses = refl

timespec_cmp-ns_example : timespec_cmp early late ≡ ok (compare (ns early) (ns late))
timespec_cmp-ns_example = timespec_cmp-ns early late (omega arith) (omega arith)

timespec_add-Later_example : Later early (ns late) (timespec_add early late)
timespec_add-Later_example = timespec_add-Later early late (omega arith) (omega arith)

timespec_sub-ns_example :
    (c : Timespec) × (timespec_sub late early ≡ ok c) × IsNormalized c × (ns c ≡ ns late - ns early)
timespec_sub-ns_example = timespec_sub-ns late early (omega arith) (omega arith) (omega arith)

abstime_from_reltime_ns_example : Later early 1500 (abstime_from_reltime_ns (ok early) 1500)
abstime_from_reltime_ns_example =
    abstime_from_reltime_ns-Later early 1500 (omega arith) (omega arith)

abstime_to_reltime_ms_roundup_example :
    ((abstime_to_reltime_ms_roundup (ok early) late ≡ ok (milliseconds (ns late - ns early)))
      × (milliseconds (ns late - ns early) < 2 ^ 31))
    ⊎ ((abstime_to_reltime_ms_roundup (ok early) late ≡ err eoverflow)
        × (2 ^ 31 ≤ milliseconds (ns late - ns early)))
abstime_to_reltime_ms_roundup_example =
    abstime_to_reltime_ms_roundup-ns early late (omega arith) (omega arith)
