-- ===== src/Prelude/Clock.antt =====
-- Go's `time.Time` and `time.Duration`. A time is its number of nanoseconds since the zero time
-- (year 1), so `IsZero` is a test for 0; a duration is a number of nanoseconds.
use Prim.Native.Nat.{ℕ, ◌-◌, min}
use mathlib.Core.Bool.{Bool}
use opswarden.Prelude.Tests.{◌==◌, ltb}

abbrev pub Time : Type 0
Time = ℕ

abbrev pub Duration : Type 0
Duration = ℕ

-- math.MaxInt64
abbrev pub max_duration : Duration
max_duration = 9223372036854775807

abbrev pub second : Duration
second = 1000000000

abbrev pub minute : Duration
minute = 60000000000

abbrev pub is_zero : Time → Bool
is_zero t = t == 0

abbrev pub before : Time → Time → Bool
before t u = ltb t u

-- `t.Sub(u)` saturates at the largest duration. It is taken only where u is not after t.
abbrev pub time_sub : Time → Time → Duration
time_sub t u = min (t - u) max_duration
