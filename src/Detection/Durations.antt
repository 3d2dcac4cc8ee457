-- ===== src/Detection/Durations.antt =====
-- `time.Duration` as internal/detection/coalesce.go uses it: a signed 64-bit count of nanoseconds.
pub mod Window
use belay_engine.Prelude.{
  ℕ, zero, suc, Bool, ltb, ℤ, pos, negsuc, ltb_ℤ, leb_ℤ, if◌then◌else◌, ◌+◌, ◌-◌,
}
use belay_engine.Experience.Model.{Time}

abbrev pub second : ℕ
second = 1000000000

-- The largest `time.Duration`; the smallest is one further from zero.
abbrev pub max_duration : ℕ
max_duration = 9223372036854775807

-- `t.Sub(u)`, which stops at the largest and the smallest duration.
unfoldable pub duration_between : Time → Time → ℤ
duration_between t u =
    if ltb t u
    then negsuc (if ltb max_duration (u - t - 1) then max_duration else u - t - 1)
    else pos (if ltb max_duration (t - u) then max_duration else t - u)

-- `-value`: the smallest duration is its own negation.
unfoldable pub negate_duration : ℤ → ℤ
negate_duration (pos zero) = pos 0
negate_duration (pos (suc n)) = negsuc n
negate_duration (negsuc n) = if ltb n max_duration then pos (n + 1) else negsuc n

-- `durationAbsolute`
unfoldable pub duration_absolute : ℤ → ℤ
unfolding negate_duration
duration_absolute value = if ltb_ℤ value (pos 0) then negate_duration value else value

-- The test of the callers, `durationAbsolute(t.Sub(u)) <= window`, or its negation.
unfoldable pub within : ℕ → Time → Time → Bool
unfolding duration_between duration_absolute
within window t u = leb_ℤ (duration_absolute (duration_between t u)) (pos window)
