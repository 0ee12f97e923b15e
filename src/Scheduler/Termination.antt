-- ===== src/Scheduler/Termination.antt =====
-- registry/scheduler.go: the parser of cron expressions always returns.
use Prim.Native.Nat.{ℕ, zero, suc, ◌≤◌, ◌<◌}
use mathlib.Core.Path.{◌≡◌, refl}
use mathlib.Core.Logic.{◌≢◌, ◌⊎◌, inl, inr}
use mathlib.Core.Bool.{Bool, false, ◌||◌}
use mathlib.Core.Option.{some}
use mathlib.Core.List.{List, [], ◌∷◌}
use native.Mathlib.Omega.{arith}
use registry_ui.Base.Tests.{Bool-cases, Option-cases}
use registry_ui.Base.Int.{ℤ, pos, negsuc, two63}
use registry_ui.Base.Text.{
  Text, codes, text_eq, is_empty, contains, split, fields, trim_space, atoi,
}
use registry_ui.Scheduler.{
  CronError, ok, err, diverged, invalid_step, invalid_range_start, invalid_range_end, invalid_value,
  invalid_minute, invalid_hour, invalid_day, invalid_month, invalid_weekday, Parsed, ◌>>=◌, wrap,
  step_of, parse_step, atoi_or, bounds_of_range, parse_bounds, expand_cron_token, parse_parts,
  parse_cron_field, parse_fields, parse_cron_schedule,
}
use registry_ui.Scheduler.Range.{expand_bounds-ne-diverged}

atoi-lt : (text : Text) (n : ℕ) → atoi text ≡ some (pos n) → n < two63
unfolding atoi
atoi-lt [] n h = absurd (ground arith)
atoi-lt (c ∷ s) n h = ground arith

step_of_cases :
    (token : Text) (parts : List Text)
    → ((e : CronError) × (step_of token parts ≡ err e))
      ⊎ ((base : Text) × (step : ℕ) × (step_of token parts ≡ ok (base, step))
          × (1 ≤ step)
          × (step < two63))
unfolding step_of
step_of_cases token [] = inl (_, refl)
step_of_cases token (base ∷ []) = inl (_, refl)
step_of_cases token (base ∷ text ∷ x ∷ rest) = inl (_, refl)
step_of_cases token (base ∷ text ∷ []) = elim (Option-cases (atoi text)) [
  | inl e ↦ inl (invalid_step text, rw (e, step_of))
  | inr (v, e) ↦ go v e
]
  where
    go :
        (v : ℤ)
        → atoi text ≡ some v
        → ((e : CronError) × (step_of token (base ∷ text ∷ []) ≡ err e))
          ⊎ ((b : Text) × (step : ℕ) × (step_of token (base ∷ text ∷ []) ≡ ok (b, step))
              × (1 ≤ step)
              × (step < two63))
    go (pos zero) e = inl (invalid_step text, rw (e, step_of))
    go (pos (suc n)) e = inr (base, suc n, rw (e, step_of), omega arith, atoi-lt text (suc n) e)
    go (negsuc n) e = inl (invalid_step text, rw (e, step_of))

-- A token's step is an error, or a positive int64.
parse_step-cases :
    (token : Text)
    → ((e : CronError) × (parse_step token ≡ err e))
      ⊎ ((base : Text) × (step : ℕ) × (parse_step token ≡ ok (base, step))
          × (1 ≤ step)
          × (step < two63))
unfolding parse_step
parse_step-cases token = elim (Bool-cases (contains token b'/')) [
  | inl e ↦ rw e (step_of_cases token (split token b'/'))
  | inr e ↦ rw e (inr (token, 1, refl, omega arith, omega arith))
]

-- A chain of steps diverges only where one of them does.
bind-ne-diverged {ℓ κ} :
    {A : Type ℓ} {B : Type κ} (m : Parsed A) (f : A → Parsed B)
    → m ≢ diverged
    → ((a : A) → m ≡ ok a → f a ≢ diverged)
    → (m >>= f) ≢ diverged
bind-ne-diverged (ok a) f h k = k a refl
bind-ne-diverged (err e) f h k = cc
bind-ne-diverged diverged f h k = absurd (h refl)

wrap-ne-diverged {ℓ} :
    {A : Type ℓ} (f : CronError → CronError) (m : Parsed A) → m ≢ diverged → wrap f m ≢ diverged
wrap-ne-diverged f (ok a) h = cc
wrap-ne-diverged f (err e) h = cc
wrap-ne-diverged f diverged h = absurd (h refl)

atoi_or-ne-diverged : (e : Text → CronError) (text : Text) → atoi_or e text ≢ diverged
unfolding atoi_or
atoi_or-ne-diverged e text = elim (Option-cases (atoi text)) [
  | inl q ↦ rw (q, atoi_or) (cc)
  | inr (v, q) ↦ rw (q, atoi_or) (cc)
]

bounds_of_range-ne-diverged :
    (base : Text) (parts : List Text) → bounds_of_range base parts ≢ diverged
unfolding bounds_of_range
bounds_of_range-ne-diverged base [] = cc
bounds_of_range-ne-diverged base (x ∷ []) = cc
bounds_of_range-ne-diverged base (x ∷ y ∷ z ∷ rest) = cc
bounds_of_range-ne-diverged base (first ∷ last ∷ []) =
    bind-ne-diverged (atoi_or invalid_range_start first) _
      (atoi_or-ne-diverged invalid_range_start first)
      λ start _.
        bind-ne-diverged (atoi_or invalid_range_end last) _
          (atoi_or-ne-diverged invalid_range_end last) (λ end _. cc)

parse_bounds-ne-diverged : (base : Text) (least most : ℕ) → parse_bounds base least most ≢ diverged
unfolding parse_bounds
parse_bounds-ne-diverged base least most =
    elim (Bool-cases (text_eq base (codes "*") || is_empty base)) [
      | inl e ↦ rw e (cc)
      | inr e ↦ elim (Bool-cases (contains base b'-')) [
        | inl f ↦ rw (e, f) (bounds_of_range-ne-diverged base (split base b'-'))
        | inr f ↦
            rw (e, f)
              (bind-ne-diverged (atoi_or invalid_value base) _
                (atoi_or-ne-diverged invalid_value base) (λ v _. cc))
      ]
    ]

expand_cron_token-ne-diverged :
    (token : Text) (least most : ℕ) → most < 64 → expand_cron_token token least most ≢ diverged
unfolding expand_cron_token
expand_cron_token-ne-diverged token least most small = elim (parse_step-cases token) [
  | inl (e, q) ↦ rw q (cc)
  | inr (base, step, q, pos_step, below) ↦ rw q (
      bind-ne-diverged (parse_bounds base least most) _ (parse_bounds-ne-diverged base least most)
        (λ bounds _.
          expand_bounds-ne-diverged least most step bounds.0 bounds.1 small pos_step below))
]

parse_parts-ne-diverged :
    (parts : List Text) (least most : ℕ) (allowed : List ℤ) (wildcard : Bool)
    → most < 64
    → parse_parts parts least most allowed wildcard ≢ diverged
unfolding parse_parts
parse_parts-ne-diverged [] least most allowed wildcard small = cc
parse_parts-ne-diverged (raw ∷ parts) least most allowed wildcard small =
    elim (Bool-cases (is_empty (trim_space raw))) [
      | inl e ↦ rw e (cc)
      | inr e ↦ rw e (
          bind-ne-diverged (expand_cron_token (trim_space raw) least most) _
            (expand_cron_token-ne-diverged (trim_space raw) least most small)
            (λ values _. parse_parts-ne-diverged parts least most _ _ small))
    ]

field-ne-diverged :
    (f : CronError → CronError) (expr : Text) (least most : ℕ)
    → most < 64
    → wrap f (parse_cron_field expr least most) ≢ diverged
unfolding parse_cron_field
field-ne-diverged f expr least most small =
    wrap-ne-diverged f _ (parse_parts-ne-diverged (split expr b',') least most [] false small)

parse_fields-ne-diverged : (parts : List Text) → parse_fields parts ≢ diverged
unfolding parse_fields
parse_fields-ne-diverged (m ∷ h ∷ d ∷ mo ∷ w ∷ []) =
    bind-ne-diverged _ _ (field-ne-diverged invalid_minute m 0 59 (omega arith)) λ _ _.
      bind-ne-diverged _ _ (field-ne-diverged invalid_hour h 0 23 (omega arith)) λ _ _.
        bind-ne-diverged _ _ (field-ne-diverged invalid_day d 1 31 (omega arith)) λ _ _.
          bind-ne-diverged _ _ (field-ne-diverged invalid_month mo 1 12 (omega arith)) λ _ _.
            bind-ne-diverged _ _ (field-ne-diverged invalid_weekday w 0 6 (omega arith)) λ _ _. cc
parse_fields-ne-diverged _ = cc

-- The parser returns a schedule or an error for every text: none of its loops runs on.
pub parse_cron_schedule-ne-diverged : (expr : Text) → parse_cron_schedule expr ≢ diverged
unfolding parse_cron_schedule
parse_cron_schedule-ne-diverged expr = parse_fields-ne-diverged (fields expr)
