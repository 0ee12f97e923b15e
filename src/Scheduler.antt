-- ===== src/Scheduler.antt =====
-- registry/scheduler.go: cron fields and schedules. `Scheduler.Next` finds the next run, and
-- `Scheduler.Loop` is the goroutine that waits for it.
pub mod Loop
pub mod Range
pub mod Overflow
pub mod Field
pub mod Termination
pub mod Next
pub mod Timer
mod Tests
use Prim.Native.Nat.{ℕ, zero, suc, ◌+◌, ◌*◌}
use mathlib.Core.Bool.{Bool, true, false, ◌&&◌, ◌||◌, not}
use mathlib.Core.Option.{Option, none, some}
use mathlib.Core.List.{List, [], ◌∷◌, ◌++◌}
use registry_ui.Base.Tests.{◌==◌, ltb, if◌then◌else◌}
use registry_ui.Base.Lists.{length}
use registry_ui.Base.Int.{ℤ, pos, negsuc, ltz, lez, add_int}
use registry_ui.Base.Text.{
  Text, codes, text_eq, is_empty, contains, split, fields, trim_space, atoi,
}

-- The errors of the parser, one for each `fmt.Errorf`.
pub data CronError : Type 0 where
  field_count : ℕ → CronError
  empty_token : CronError
  invalid_step_syntax : Text → CronError
  invalid_step : Text → CronError
  invalid_range : Text → CronError
  invalid_range_start : Text → CronError
  invalid_range_end : Text → CronError
  invalid_value : Text → CronError
  out_of_range : ℤ → ℤ → ℕ → ℕ → CronError
  invalid_minute : CronError → CronError
  invalid_hour : CronError → CronError
  invalid_day : CronError → CronError
  invalid_month : CronError → CronError
  invalid_weekday : CronError → CronError

-- A result; `diverged` stands for a loop that has used up its fuel, which never happens for the
-- fields of a schedule.
pub data Parsed {ℓ} (A : Type ℓ) : Type ℓ where
  ok : A → Parsed A
  err : CronError → Parsed A
  diverged : Parsed A

infixl 5 ◌>>=◌
abbrev pub ◌>>=◌ {ℓ κ} : {A : Type ℓ} {B : Type κ} → Parsed A → (A → Parsed B) → Parsed B
ok a >>= f = f a
err e >>= f = err e
diverged >>= f = diverged

-- `fmt.Errorf("invalid … field: %w", err)`
abbrev pub wrap {ℓ} : {A : Type ℓ} → (CronError → CronError) → Parsed A → Parsed A
wrap f (ok a) = ok a
wrap f (err e) = err (f e)
wrap f diverged = diverged

-- `base` and `step` of a token: the default step is 1.
step_of : Text → List Text → Parsed (Text × ℕ)
step_of token (base ∷ text ∷ []) = elim (atoi text) [
  | none ↦ err (invalid_step text)
  | some (pos zero) ↦ err (invalid_step text)
  | some (pos (suc n)) ↦ ok (base, suc n)
  | some (negsuc n) ↦ err (invalid_step text)
]
step_of token parts = err (invalid_step_syntax token)

unfoldable pub parse_step : Text → Parsed (Text × ℕ)
unfolding step_of
parse_step token = if contains token b'/' then step_of token (split token b'/') else ok (token, 1)

atoi_or : (Text → CronError) → Text → Parsed ℤ
atoi_or e text = elim (atoi text) [ none ↦ err (e text) | some v ↦ ok v ]

bounds_of_range : Text → List Text → Parsed (ℤ × ℤ)
unfolding atoi_or
bounds_of_range base (first ∷ last ∷ []) = do
  start ← atoi_or invalid_range_start first
  end ← atoi_or invalid_range_end last
  ok (start, end)
bounds_of_range base parts = err (invalid_range base)

-- A single value; 7 is Sunday too.
bounds_of_value : ℕ → ℤ → ℤ × ℤ
bounds_of_value most (pos n) = if most == 6 && n == 7 then (pos 0, pos 0) else (pos n, pos n)
bounds_of_value most (negsuc n) = (negsuc n, negsuc n)

-- `start` and `end`, before the test of their range.
unfoldable pub parse_bounds : Text → ℕ → ℕ → Parsed (ℤ × ℤ)
unfolding bounds_of_range bounds_of_value atoi_or
parse_bounds base least most =
    if text_eq base (codes "*") || is_empty base
    then ok (pos least, pos most)
    else if contains base b'-'
    then bounds_of_range base (split base b'-')
    else atoi_or invalid_value base >>= λ value. ok (bounds_of_value most value)

-- `for value := start; value <= end; value += step`, on fuel.
unfoldable pub values_loop : ℕ → ℤ → ℤ → ℕ → List ℤ → Parsed (List ℤ)
values_loop zero value end step values = diverged
values_loop (suc fuel) value end step values =
    let rest = values_loop fuel (add_int value step) end step (values ++ value ∷ []) in
    if lez value end then rest else ok values

-- Rounds enough for a field whose greatest value is `most`.
abbrev pub loop_fuel : ℕ → ℕ
loop_fuel most = 2 * most + 4

-- The test of the range, and the loop behind it.
unfoldable pub expand_bounds : ℕ → ℕ → ℕ → ℤ × ℤ → Parsed (List ℤ)
unfolding values_loop
expand_bounds least most step (start, end) =
    if ltz start (pos least) || ltz (pos most) end || ltz end start
    then err (out_of_range start end least most)
    else values_loop (loop_fuel most) start end step []

-- `expandCronToken`
unfoldable pub expand_cron_token : Text → ℕ → ℕ → Parsed (List ℤ)
unfolding parse_step parse_bounds expand_bounds
expand_cron_token token least most = do
  (base, step) ← parse_step token
  bounds ← parse_bounds base least most
  expand_bounds least most step bounds

-- `cronField`: `allowed` is the map behind `match`.
pub record CronField : Type 0 where
  pub allowed : List ℤ
  pub wildcard : Bool

-- `allowed[v]`
unfoldable pub is_allowed : List ℤ → ℕ → Bool
is_allowed [] v = false
is_allowed (pos n ∷ allowed) v = n == v || is_allowed allowed v
is_allowed (negsuc n ∷ allowed) v = is_allowed allowed v

unfoldable pub match : CronField → ℕ → Bool
unfolding is_allowed
match f v = is_allowed f.allowed v

-- The loop of `parseCronField` over the parts of the expression.
unfoldable pub parse_parts : List Text → ℕ → ℕ → List ℤ → Bool → Parsed CronField
parse_parts [] least most allowed wildcard = ok (record { allowed = allowed; wildcard = wildcard })
parse_parts (raw ∷ parts) least most allowed wildcard =
    let part = trim_space raw in
    let rest = λ (values : List ℤ).
      parse_parts parts least most (allowed ++ values) (wildcard || text_eq part (codes "*")) in
    if is_empty part then err empty_token else (expand_cron_token part least most >>= rest)

-- `parseCronField`
unfoldable pub parse_cron_field : Text → ℕ → ℕ → Parsed CronField
unfolding parse_parts
parse_cron_field expr least most = parse_parts (split expr b',') least most [] false

-- `cronSchedule`
pub record CronSchedule : Type 0 where
  pub minute : CronField
  pub hour : CronField
  pub day : CronField
  pub month : CronField
  pub weekday : CronField

parse_fields : List Text → Parsed CronSchedule
parse_fields (minute ∷ hour ∷ day ∷ month ∷ weekday ∷ []) = do
  m ← wrap invalid_minute (parse_cron_field minute 0 59)
  h ← wrap invalid_hour (parse_cron_field hour 0 23)
  d ← wrap invalid_day (parse_cron_field day 1 31)
  mo ← wrap invalid_month (parse_cron_field month 1 12)
  w ← wrap invalid_weekday (parse_cron_field weekday 0 6)
  ok (record { minute = m; hour = h; day = d; month = mo; weekday = w })
parse_fields parts = err (field_count (length parts))

-- `parseCronSchedule`
unfoldable pub parse_cron_schedule : Text → Parsed CronSchedule
unfolding parse_fields
parse_cron_schedule expr = parse_fields (fields expr)
