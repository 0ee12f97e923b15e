-- ===== src/Scheduler/Tests.antt =====
-- Runs of the cron parser and of `Next`, and each theorem at a concrete input.
use Prim.Native.Nat.{ℕ, ◌+◌, ◌-◌, ◌*◌, ◌/◌, ◌%◌, ◌^◌, ◌<◌}
use mathlib.Core.Path.{◌≡◌, refl}
use mathlib.Core.Logic.{◌≢◌, ◌⊎◌, ◌↔◌}
use mathlib.Core.Bool.{true, false}
use mathlib.Core.List.{[], ◌∷◌}
use native.Mathlib.Omega.{arith}
use registry_ui.Base.Tests.{ltb, if◌then◌else◌}
use registry_ui.Base.Int.{pos, add_int}
use registry_ui.Base.Text.{codes, text_eq, contains, split, fields, trim_space, atoi}
use registry_ui.Scheduler.{
  ok, err, diverged, field_count, invalid_minute, invalid_step, out_of_range, expand_bounds,
  expand_cron_token, CronField, is_allowed, match, parse_cron_field, CronSchedule,
  parse_cron_schedule,
}
use registry_ui.Scheduler.Range.{IsRange, expand_bounds-IsRange}
use registry_ui.Scheduler.Termination.{parse_cron_schedule-ne-diverged}
use registry_ui.Scheduler.Field.{IsListed, match_iff}
use registry_ui.Scheduler.Next.{
  Calendar, one_minute, horizon, matches, next_loop, first_candidate, next,
}
use registry_ui.Scheduler.Next.Search.{NoneMatches, IsNextRun, next_lem}

-- Everything that the parser computes with.
parser : Unit {0}
unfolding parse_cron_schedule parse_cron_field expand_cron_token add_int text_eq contains split
    fields trim_space atoi
parser = tt

abbrev quarters : CronField
quarters = record { allowed = pos 0 ∷ pos 15 ∷ pos 30 ∷ pos 45 ∷ pos 7 ∷ []; wildcard = false }

parse_quarters : parse_cron_field (codes "*/15, 7") 0 59 ≡ ok quarters
unfolding parser
parse_quarters = refl

parse_sunday :
    parse_cron_field (codes "5-6,7") 0 6
    ≡ ok (record { allowed = pos 5 ∷ pos 6 ∷ pos 0 ∷ []; wildcard = false })
unfolding parser
parse_sunday = refl

-- `TestStartPurgeSchedulerInvalidCron`
parse_not_a_cron : parse_cron_schedule (codes "not-a-cron") ≡ err (field_count 1)
unfolding parser
parse_not_a_cron = refl

parse_bad_step :
    parse_cron_schedule (codes "*/0 * * * *") ≡ err (invalid_minute (invalid_step (codes "0")))
unfolding parser
parse_bad_step = refl

parse_bad_range : parse_cron_field (codes "50-60") 0 59 ≡ err (out_of_range (pos 50) (pos 60) 0 59)
unfolding parser
parse_bad_range = refl

-- The largest step of an int64 wraps: minute 59 brings every odd minute with it.
wrapped_step :
    (f : CronField) × (parse_cron_field (codes "59/9223372036854775807") 0 59 ≡ ok f)
    × (match f 57 ≡ true)
    × (match f 1 ≡ true)
    × (match f 2 ≡ false)
unfolding parser match is_allowed
wrapped_step = (_, refl, refl, refl, refl)

match_iff_example : (match quarters 30 ≡ true) ↔ IsListed (split (codes "*/15, 7") b',') 0 59 30
match_iff_example = match_iff (codes "*/15, 7") 0 59 30 quarters parse_quarters

ten_to_thirty : expand_bounds 0 59 10 (pos 10, pos 30) ≡ ok (pos 10 ∷ pos 20 ∷ pos 30 ∷ [])
unfolding expand_bounds add_int
ten_to_thirty = refl

expand_bounds-IsRange_example : IsRange 0 59 10 (pos 10) (pos 30) (pos 10 ∷ pos 20 ∷ pos 30 ∷ [])
expand_bounds-IsRange_example =
    expand_bounds-IsRange 0 59 10 (pos 10) (pos 30) (pos 10 ∷ pos 20 ∷ pos 30 ∷ []) (omega arith)
      (omega arith) ten_to_thirty

parse_cron_schedule-ne-diverged_example : parse_cron_schedule (codes "10 3 * * *") ≢ diverged
parse_cron_schedule-ne-diverged_example = parse_cron_schedule-ne-diverged (codes "10 3 * * *")

-- The days since 1 March of the year 0, cut into eras of 400 years.
abbrev day_of_era : ℕ → ℕ
day_of_era t = (t / (86400 * 10 ^ 9) + 306) % 146097

abbrev day_of_year : ℕ → ℕ
day_of_year t =
    let d = day_of_era t in
    let year = (d - d / 1460 + d / 36524 - d / 146096) / 365 in
    d - (365 * year + year / 4 - year / 100)

abbrev march_month : ℕ → ℕ
march_month t = (5 * day_of_year t + 2) / 153

-- UTC. The zero time, 1 January of the year 1, is a Monday.
abbrev utc : Calendar
utc = record {
  minute = λ t. t / one_minute % 60;
  hour = λ t. t / (60 * one_minute) % 24;
  day = λ t. day_of_year t - (153 * march_month t + 2) / 5 + 1;
  month = λ t. if ltb (march_month t) 10 then march_month t + 3 else march_month t - 9;
  weekday = λ t. (t / (86400 * 10 ^ 9) + 1) % 7;
}

-- 10 June 2026, 03:08:30.
abbrev june : ℕ
june = (739776 * 86400 + 3 * 3600 + 8 * 60 + 30) * 10 ^ 9

abbrev any : CronField
any = record { allowed = []; wildcard = true }

june_fields :
    (utc.minute june ≡ 8)
    × (utc.hour june ≡ 3)
    × (utc.day june ≡ 10)
    × (utc.month june ≡ 6)
    × (utc.weekday june ≡ 3)
june_fields = (refl, refl, refl, refl, refl)

-- The schedule of the README: `10 3 * * *`, with what its wildcards allow in June on a Wednesday.
abbrev nightly : CronSchedule
nightly = record {
  minute = record { allowed = pos 10 ∷ []; wildcard = false };
  hour = record { allowed = pos 3 ∷ []; wildcard = false };
  day = record { allowed = pos 10 ∷ []; wildcard = true };
  month = record { allowed = pos 6 ∷ []; wildcard = true };
  weekday = record { allowed = pos 3 ∷ []; wildcard = true };
}

-- The loop finds the next run in its second round.
next_nightly :
    next_loop utc nightly 3 (first_candidate utc nightly june) (june + one_minute)
    ≡ june + 90 * 10 ^ 9
unfolding next_loop matches
next_nightly = refl

next_lem_example :
    (june < next utc nightly june)
    × (IsNextRun utc nightly june (next utc nightly june)
        ⊎ (NoneMatches utc nightly (horizon + 1) (first_candidate utc nightly june)
            × (next utc nightly june ≡ june + one_minute)))
next_lem_example = next_lem utc nightly june
