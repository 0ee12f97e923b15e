-- ===== src/Scheduler/Timer.antt =====
-- registry/scheduler.go: `StartPurgeScheduler` and its goroutine, as a step relation.
pub mod Spacing
mod Tests
use Prim.Native.Nat.{ℕ, suc, ◌+◌, ◌≤◌}
use mathlib.Core.Path.{◌≡◌}
use mathlib.Core.Bool.{Bool, true, false}
use mathlib.Core.Option.{Option, none, some}
use mathlib.Core.List.{List, [], ◌∷◌}
use registry_ui.Base.Tests.{if◌then◌else◌}
use registry_ui.Base.Text.{Text, is_empty}
use registry_ui.Scheduler.{CronSchedule, Parsed, ok, ◌>>=◌, parse_cron_schedule}
use registry_ui.Scheduler.Next.{Calendar, next}

-- Where the goroutine stands: before the call of `Next`; at the `select`, with the time that `Next`
-- was given and its answer; in `run()`, with these and the time of its start; behind the `return`.
pub data Phase : Type 0 where
  at_loop : Phase
  at_select : ℕ → ℕ → Phase
  in_run : ℕ → ℕ → ℕ → Phase
  ended : Phase

-- The times of a finished call of `run`.
pub record RunTimes : Type 0 where
  pub asked : ℕ
  pub planned : ℕ
  pub started : ℕ
  pub finished : ℕ

-- The clock, the atomic `running`, whether `stop` is closed, the finished runs, the newest first,
-- and how often a run has been skipped.
pub record Goroutine : Type 0 where
  pub phase : Phase
  pub running : Bool
  pub is_stop_closed : Bool
  pub now : ℕ
  pub runs : List RunTimes
  pub skipped : ℕ

abbrev pub started_at : ℕ → Goroutine
started_at now = record {
  phase = at_loop;
  running = false;
  is_stop_closed = false;
  now = now;
  runs = [];
  skipped = 0;
}

-- `StartPurgeScheduler`, up to the `go` statement: the schedule of the goroutine.
unfoldable pub start_purge_scheduler : Text → Parsed (Option CronSchedule)
start_purge_scheduler cron_expr =
    if is_empty cron_expr
    then ok none
    else (parse_cron_schedule cron_expr >>= λ schedule. ok (some schedule))

-- The call of `Next` and the timer.
abbrev pub schedule : Calendar → CronSchedule → Goroutine → Goroutine
schedule cal c s = record s { phase = at_select s.now (next cal c s.now) }

-- `CompareAndSwap(false, true)`, and the two ways behind it.
unfoldable pub on_timer : ℕ → ℕ → Goroutine → Goroutine
on_timer asked planned s =
    if s.running
    then record s { phase = at_loop; skipped = suc s.skipped }
    else record s { phase = in_run asked planned s.now; running = true }

-- The end of `run()`, with the deferred store.
abbrev pub on_return : ℕ → ℕ → ℕ → Goroutine → Goroutine
on_return asked planned started s =
    let run : RunTimes = record {
      asked = asked;
      planned = planned;
      started = started;
      finished = s.now;
    } in
    record s { phase = at_loop; running = false; runs = run ∷ s.runs }

-- What can happen: time passes, `stop` is closed from outside, or the goroutine goes on. The timer
-- fires at the planned time or later, and where both cases of the `select` are ready either is taken.
pub data Step (cal : Calendar) (c : CronSchedule) : Goroutine → Goroutine → Type 0 where
  pass : {s : Goroutine} (n : ℕ) → Step cal c s (record s { now = s.now + n })
  close : {s : Goroutine} → Step cal c s (record s { is_stop_closed = true })
  go_on : {s : Goroutine} → s.phase ≡ at_loop → Step cal c s (schedule cal c s)
  fire :
      {s : Goroutine} (asked planned : ℕ)
      → s.phase ≡ at_select asked planned
      → planned ≤ s.now
      → Step cal c s (on_timer asked planned s)
  finish :
      {s : Goroutine} (asked planned started : ℕ)
      → s.phase ≡ in_run asked planned started
      → Step cal c s (on_return asked planned started s)
  stop :
      {s : Goroutine} (asked planned : ℕ)
      → s.phase ≡ at_select asked planned
      → s.is_stop_closed ≡ true
      → Step cal c s (record s { phase = ended })

pub data Steps (cal : Calendar) (c : CronSchedule) (s : Goroutine) : Goroutine → Type 0 where
  here : Steps cal c s s
  onward : {t u : Goroutine} → Steps cal c s t → Step cal c t u → Steps cal c s u
