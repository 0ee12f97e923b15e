-- ===== src/Scheduler/Timer/Tests.antt =====
-- Steps of the goroutine, and each theorem at a concrete input.
use Prim.Native.Nat.{ℕ, ◌+◌}
use mathlib.Core.Path.{◌≡◌, refl}
use mathlib.Core.Bool.{true, false}
use mathlib.Core.Option.{none}
use mathlib.Core.List.{[]}
use native.Mathlib.Omega.{arith}
use registry_ui.Base.Lists.{length}
use registry_ui.Base.Text.{codes, fields}
use registry_ui.Scheduler.{CronField, CronSchedule, ok, err, field_count, parse_cron_schedule}
use registry_ui.Scheduler.Next.{Calendar, next}
use registry_ui.Scheduler.Timer.{
  in_run, Goroutine, started_at, on_timer, on_return, start_purge_scheduler, pass, go_on, fire,
  finish, Steps, here, onward,
}
use registry_ui.Scheduler.Timer.Spacing.{IsSpaced, Again, Steps-IsSpaced, Steps-Again}

start_without_cron : start_purge_scheduler [] ≡ ok none
unfolding start_purge_scheduler
start_without_cron = refl

start_malformed : start_purge_scheduler (codes "* *") ≡ err (field_count 2)
unfolding start_purge_scheduler parse_cron_schedule fields
start_malformed = refl

abbrev constant : Calendar
constant = record { minute = λ t. 0; hour = λ t. 0; day = λ t. 1; month = λ t. 1; weekday = λ t. 0 }

abbrev any : CronField
any = record { allowed = []; wildcard = true }

abbrev cron : CronSchedule
cron = record { minute = any; hour = any; day = any; month = any; weekday = any }

abbrev planned : ℕ
planned = next constant cron 100

-- The goroutine in the middle of a first run, which has started five late.
abbrev busy : Goroutine
busy = record {
  phase = in_run 100 planned (100 + (planned + 5));
  running = true;
  is_stop_closed = false;
  now = 100 + (planned + 5);
  runs = [];
  skipped = 0;
}

busy_reached : Steps constant cron (started_at 100) busy
unfolding on_timer
busy_reached =
    onward (onward (onward here (go_on refl)) (pass (planned + 5)))
      (fire 100 planned refl (omega arith))

-- The run is over nine later, and `stop` is closed at the next `select`.
abbrev over : Goroutine
over = on_return 100 planned (100 + (planned + 5)) (record busy { now = 100 + (planned + 5) + 9 })

over_reached : Steps constant cron (started_at 100) over
over_reached = onward (onward busy_reached (pass 9)) (finish 100 planned (100 + (planned + 5)) refl)

Steps-IsSpaced_example : IsSpaced constant cron over.runs × (over.skipped ≡ 0)
Steps-IsSpaced_example = Steps-IsSpaced constant cron over_reached

Steps-Again_example : Again constant cron over (length over.runs)
Steps-Again_example = Steps-Again constant cron over_reached (λ e. absurd (ground arith))
