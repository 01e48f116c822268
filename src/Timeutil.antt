-- ===== src/Timeutil.antt =====
-- lib/timeutil.c, on a host with a signed 64-bit time_t. A `tv_sec` that is negative is refused
-- wherever it could arise, so the fields are natural numbers. What the clock says is a parameter.
mod Sums
mod Clocks
mod Tests
use Prim.Native.Nat.{compare, Ordering, lt, eq, gt}
use wasm_doctor.Prelude.{
  ℕ, ◌+◌, ◌-◌, ◌*◌, ◌/◌, ◌%◌, ◌^◌, Bool, true, false, not, ltb, leb, ◌==◌, if◌then◌else◌, Result,
  ok, err, fault, eoverflow, guard, assert, ◌>>=◌, ◌>>◌,
}

abbrev pub billion : ℕ
billion = 1000000000

-- struct timespec
pub record Timespec : Type 0 where
  pub tv_sec : ℕ
  pub tv_nsec : ℕ

abbrev pub assert_normalized : Timespec → Result (Unit {0})
assert_normalized a = assert (ltb a.tv_nsec billion)

-- -1, 0 and 1 are lt, eq and gt.
unfoldable pub timespec_cmp : Timespec → Timespec → Result Ordering
timespec_cmp a b = do
  assert_normalized a
  assert_normalized b
  if a.tv_sec == b.tv_sec
      then (if a.tv_nsec == b.tv_nsec
          then ok eq
          else if leb a.tv_nsec b.tv_nsec
          then ok lt
          else ok gt)
      else if ltb a.tv_sec b.tv_sec
      then ok lt
      else ok gt

abbrev pub is_lt : Ordering → Bool
is_lt lt = true
is_lt eq = false
is_lt gt = false

abbrev pub is_gt : Ordering → Bool
is_gt lt = false
is_gt eq = false
is_gt gt = true

-- The sum of the seconds wraps around; from 2^63 on it is negative.
unfoldable pub timespec_add : Timespec → Timespec → Result Timespec
timespec_add a b = do
  assert_normalized a
  assert_normalized b
  let nsec = (a.tv_nsec + b.tv_nsec) % 2 ^ 64
  let over = leb billion nsec
  let c : Timespec = record {
    tv_sec = (a.tv_sec + b.tv_sec + (if over then 1 else 0)) % 2 ^ 64;
    tv_nsec = if over then nsec - billion else nsec;
  }
  guard (not (leb (2 ^ 63) c.tv_sec)) eoverflow
  order ← timespec_cmp c a
  guard (not (is_lt order)) eoverflow
  assert_normalized c
  ok c

unfoldable pub timespec_sub : Timespec → Timespec → Result Timespec
timespec_sub a b = do
  assert_normalized a
  assert_normalized b
  order ← timespec_cmp a b
  assert (not (is_lt order))
  let under = ltb a.tv_nsec b.tv_nsec
  let c : Timespec = record {
    tv_sec = a.tv_sec - b.tv_sec - (if under then 1 else 0);
    tv_nsec = if under then billion + a.tv_nsec - b.tv_nsec else a.tv_nsec - b.tv_nsec;
  }
  assert_normalized c
  ok c

unfoldable pub timespec_from_ns : ℕ → Result Timespec
timespec_from_ns ns = do
  let sec = ns / billion
  let nsec = ns % billion
  guard ((sec * billion + nsec) % 2 ^ 64 == ns) eoverflow
  let a : Timespec = record { tv_sec = sec; tv_nsec = nsec }
  assert_normalized a
  ok a

-- timespec_now, on what clock_gettime answers.
abbrev pub timespec_now : Result Timespec → Result Timespec
timespec_now clock = do a ← clock; assert_normalized a; ok a

unfoldable pub abstime_from_reltime_ns : Result Timespec → ℕ → Result Timespec
abstime_from_reltime_ns clock reltime_ns = do
  reltime ← timespec_from_ns reltime_ns
  now ← timespec_now clock
  timespec_add now reltime

abbrev pub int_max : ℕ
int_max = 2 ^ 31 - 1

-- The rounding of abstime_to_reltime_ms_roundup.
unfoldable pub ms_roundup : Timespec → Result ℕ
ms_roundup reltime = do
  guard (not (ltb (int_max / 1000) reltime.tv_sec)) eoverflow
  let msec = reltime.tv_sec * 1000
  let msec2 = (reltime.tv_nsec + 999999) / 1000000
  guard (not (ltb (int_max - msec) msec2)) eoverflow
  ok (msec + msec2)

unfoldable pub abstime_to_reltime_ms_roundup : Result Timespec → Timespec → Result ℕ
abstime_to_reltime_ms_roundup clock abstime = do
  now ← timespec_now clock
  order ← timespec_cmp abstime now
  if is_lt order then ok 0 else (do reltime ← timespec_sub abstime now; ms_roundup reltime)

-- With what the two clocks say.
unfoldable pub convert_timespec : Result Timespec → Result Timespec → Timespec → Result Timespec
convert_timespec from_clock to_clock from_ts = do
  from_now ← timespec_now from_clock
  to_now ← timespec_now to_clock
  order ← timespec_cmp from_ts from_now
  if is_lt order
      then (do
        t ← timespec_sub from_now from_ts
        order2 ← timespec_cmp to_now t
        guard (not (is_gt order2)) eoverflow
        timespec_sub to_now t)
      else (do t ← timespec_sub from_ts from_now; timespec_add t to_now)

unfoldable pub timespec_to_ms : Timespec → ℕ
timespec_to_ms tv =
    let most = 2 ^ 64 - 1 in
    if ltb (most / 1000) tv.tv_sec
    then most
    else (let ms1 = tv.tv_sec * 1000 in
        let ms2 = tv.tv_nsec / 1000000 in if ltb (most - ms1) ms2 then most else ms1 + ms2)
