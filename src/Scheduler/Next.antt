-- ===== src/Scheduler/Next.antt =====
-- registry/scheduler.go: `matches` and `Next`. What a time shows on the wall (`Minute`, `Hour`, `Day`,
-- `Month`, `Weekday`) hangs on the location and its time zone data, and is a parameter.
pub mod Search
use Prim.Native.Nat.{ℕ, zero, suc, ◌+◌, ◌-◌, ◌*◌, ◌/◌, ◌%◌, ◌^◌}
use mathlib.Core.Bool.{Bool, true, false, ◌&&◌, ◌||◌, not}
use registry_ui.Base.Tests.{if◌then◌else◌}
use registry_ui.Scheduler.{CronField, match, CronSchedule}

-- The fields of a time in the location of the process. A time is in nanoseconds since the zero time.
pub record Calendar : Type 0 where
  pub minute : ℕ → ℕ
  pub hour : ℕ → ℕ
  pub day : ℕ → ℕ
  pub month : ℕ → ℕ
  pub weekday : ℕ → ℕ

-- `time.Minute`
abbrev pub one_minute : ℕ
one_minute = 60 * 10 ^ 9

-- The minutes of 366 days.
abbrev pub horizon : ℕ
horizon = 366 * 24 * 60

-- The `switch` on the two day fields.
unfoldable pub days_match : CronField → CronField → Bool → Bool → Bool
days_match day weekday day_match weekday_match =
    if day.wildcard && weekday.wildcard
    then true
    else if day.wildcard
    then weekday_match
    else if weekday.wildcard
    then day_match
    else day_match || weekday_match

module _ (cal : Calendar) (c : CronSchedule) where
  -- `matches`
  unfoldable pub matches : ℕ → Bool
  unfolding days_match match
  matches t =
      if not (match c.minute (cal.minute t))
        || not (match c.hour (cal.hour t))
        || not (match c.month (cal.month t))
      then false
      else days_match c.day c.weekday (match c.day (cal.day t)) (match c.weekday (cal.weekday t))

  -- The loop of `Next`: `rounds` are the candidates that are not after the limit.
  unfoldable pub next_loop : ℕ → ℕ → ℕ → ℕ
  next_loop zero candidate fallback = fallback
  next_loop (suc rounds) candidate fallback =
      let rest = next_loop rounds (candidate + one_minute) fallback in
      if matches candidate then candidate else rest

  -- `after.Truncate(time.Minute).Add(time.Minute)`
  abbrev pub first_candidate : ℕ → ℕ
  first_candidate after = after - after % one_minute + one_minute

  -- `Next`: the limit is the first candidate and 366 days, included.
  unfoldable pub next : ℕ → ℕ
  next after = next_loop (horizon + 1) (first_candidate after) (after + one_minute)
