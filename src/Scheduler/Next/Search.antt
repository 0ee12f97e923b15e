-- ===== src/Scheduler/Next/Search.antt =====
-- registry/scheduler.go: `Next` returns the first matching minute, and what it returns without one.
use Prim.Native.Nat.{ℕ, zero, suc, ◌+◌, ◌*◌, ◌≤◌, ◌<◌}
use mathlib.Core.Path.{◌≡◌, refl, subst}
use mathlib.Core.Logic.{◌⊎◌, inl, inr}
use mathlib.Core.Bool.{true, false}
use native.Mathlib.Omega.{arith}
use registry_ui.Base.Tests.{Bool-cases}
use registry_ui.Scheduler.{CronSchedule}
use registry_ui.Scheduler.Next.{
  Calendar, one_minute, horizon, matches, next_loop, first_candidate, next,
}

module _ (cal : Calendar) (c : CronSchedule) where
  -- None of the first `n` candidates matches.
  abbrev pub NoneMatches : ℕ → ℕ → Type 0
  NoneMatches n start = (j : ℕ) → j < n → matches cal c (start + j * one_minute) ≡ false

  -- The loop stops at the first match, or it meets none.
  record IsFirst (rounds start : ℕ) (t : ℕ) : Type 0 where
    index : ℕ
    within : index < rounds
    place : t ≡ start + index * one_minute
    matching : matches cal c t ≡ true
    earlier : NoneMatches index start

  IsFirst-later :
      (rounds start t : ℕ)
      → matches cal c start ≡ false
      → IsFirst rounds (start + one_minute) t
      → IsFirst (suc rounds) start t
  IsFirst-later rounds start t miss f = record {
    index = suc f.index;
    within = omega (arith, f.within);
    place = omega (arith, f.place);
    matching = f.matching;
    earlier = earlier;
  }
    where
      earlier : NoneMatches (suc f.index) start
      earlier zero h =
          let same : start ≡ start + 0 * one_minute = omega arith in
          subst (λ u. matches cal c u ≡ false) same miss
      earlier (suc j) h =
          let same : start + one_minute + j * one_minute ≡ start + suc j * one_minute =
            omega arith in
          subst (λ u. matches cal c u ≡ false) same (f.earlier j (omega arith))

  NoneMatches-later :
      (rounds start : ℕ)
      → matches cal c start ≡ false
      → NoneMatches rounds (start + one_minute)
      → NoneMatches (suc rounds) start
  NoneMatches-later rounds start miss f zero h =
      let same : start ≡ start + 0 * one_minute = omega arith in
      subst (λ u. matches cal c u ≡ false) same miss
  NoneMatches-later rounds start miss f (suc j) h =
      let same : start + one_minute + j * one_minute ≡ start + suc j * one_minute = omega arith in
      subst (λ u. matches cal c u ≡ false) same (f j (omega arith))

  next_loop-cases :
      (rounds start fallback : ℕ)
      → IsFirst rounds start (next_loop cal c rounds start fallback)
        ⊎ (NoneMatches rounds start × (next_loop cal c rounds start fallback ≡ fallback))
  unfolding next_loop
  next_loop-cases zero start fallback = inr ((λ j h. absurd (omega arith)), refl)
  next_loop-cases (suc rounds) start fallback = elim (Bool-cases (matches cal c start)) [
    | inl hit ↦
        rw (hit, next_loop)
          (inl (record {
            index = 0;
            within = omega arith;
            place = omega arith;
            matching = hit;
            earlier = λ j h. absurd (omega arith);
          }))
    | inr miss ↦ elim (next_loop-cases rounds (start + one_minute) fallback) [
      | inl f ↦ rw (miss, next_loop) (inl (IsFirst-later rounds start _ miss f))
      | inr (n, e) ↦ rw (miss, next_loop) (inr (NoneMatches-later rounds start miss n, e))
    ]
  ]

  -- What `Next` promises of the time that it returns.
  pub record IsNextRun (after t : ℕ) : Type 0 where
    pub index : ℕ
    pub within : index ≤ horizon
    pub place : t ≡ first_candidate cal c after + index * one_minute
    pub matching : matches cal c t ≡ true
    pub earlier : NoneMatches index (first_candidate cal c after)

  -- `Next` returns the first matching minute that begins after the given time, and looks 366 days
  -- ahead; where no minute of these matches, it returns the time one minute later, matching or
  -- not. Either way the result lies in the future.
  pub next_lem :
      (after : ℕ)
      → (after < next cal c after)
        × (IsNextRun after (next cal c after)
            ⊎ (NoneMatches (horizon + 1) (first_candidate cal c after)
                × (next cal c after ≡ after + one_minute)))
  unfolding next
  next_lem after =
      elim (next_loop-cases (horizon + 1) (first_candidate cal c after) (after + one_minute)) [
        | inl f ↦ (
          omega (arith, f.place),
          inl (record {
            index = f.index;
            within = omega (arith, f.within);
            place = f.place;
            matching = f.matching;
            earlier = f.earlier;
          }),
        )
        | inr (n, e) ↦ (omega (arith, e), inr (n, e))
      ]

  -- A schedule that no minute ever matches is run every minute all the same: `Next` returns the time
  -- one minute later, at which the schedule does not match either.
  pub next_of_impossible :
      ((t : ℕ) → matches cal c t ≡ false)
      → (after : ℕ)
      → (next cal c after ≡ after + one_minute) × (matches cal c (next cal c after) ≡ false)
  next_of_impossible never after = elim (next_lem after).1 [
    | inl f ↦ absurd (ground (arith, f.matching, never (next cal c after)))
    | inr (n, e) ↦ (e, never (next cal c after))
  ]
