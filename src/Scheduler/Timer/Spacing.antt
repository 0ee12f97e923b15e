-- ===== src/Scheduler/Timer/Spacing.antt =====
-- registry/scheduler.go: in every reachable state the runs are spaced, none is skipped, and the
-- goroutine can still come to a run.
use Prim.Native.Nat.{ℕ, suc, ◌+◌, ◌-◌, ◌≤◌, ◌<◌}
use mathlib.Core.Path.{◌≡◌, refl, ap, subst, ◌∙◌}
use mathlib.Core.Logic.{◌≢◌}
use mathlib.Core.Bool.{Bool, true, false}
use mathlib.Core.List.{List, [], ◌∷◌}
use native.Mathlib.Omega.{arith}
use registry_ui.Base.Lists.{length}
use registry_ui.Scheduler.{CronSchedule}
use registry_ui.Scheduler.Next.{Calendar, next}
use registry_ui.Scheduler.Next.Search.{next_lem}
use registry_ui.Scheduler.Timer.{
  Phase, at_loop, at_select, in_run, ended, RunTimes, Goroutine, started_at, on_timer, on_return,
  Step, pass, close, go_on, fire, finish, stop, Steps, here, onward,
}

-- The end of the last run.
abbrev pub last_finish : List RunTimes → ℕ
last_finish [] = 0
last_finish (r ∷ runs) = r.finished

module _ (cal : Calendar) (c : CronSchedule) where
  -- Each run starts at the time that `Next` gave for a time behind the run before it, or later.
  abbrev pub IsSpaced : List RunTimes → Type 0
  IsSpaced [] = Unit
  IsSpaced (r ∷ runs) =
      (r.planned ≡ next cal c r.asked)
      × (last_finish runs ≤ r.asked)
      × (r.asked < r.planned)
      × (r.planned ≤ r.started)
      × (r.started ≤ r.finished)
      × IsSpaced runs

  -- What holds at each place of the goroutine, of the atomic, of the clock and of the last end.
  abbrev IsPlaced : Phase → Bool → ℕ → ℕ → Type 0
  IsPlaced at_loop running now last = (running ≡ false) × (last ≤ now)
  IsPlaced (at_select asked planned) running now last =
      (running ≡ false) × (planned ≡ next cal c asked) × (last ≤ asked) × (asked ≤ now)
  IsPlaced (in_run asked planned started) running now last =
      (running ≡ true)
      × (planned ≡ next cal c asked)
      × (last ≤ asked)
      × (planned ≤ started)
      × (started ≤ now)
  IsPlaced ended running now last = (running ≡ false) × (last ≤ now)

  record Inv (s : Goroutine) : Type 0 where
    placed : IsPlaced s.phase s.running s.now (last_finish s.runs)
    spaced : IsSpaced s.runs
    none_skipped : s.skipped ≡ 0

  IsPlaced-later :
      (p : Phase) (running : Bool) (now last n : ℕ)
      → IsPlaced p running now last
      → IsPlaced p running (now + n) last
  IsPlaced-later at_loop running now last n (r, l) = (r, omega (arith, l))
  IsPlaced-later (at_select asked planned) running now last n (r, p, l, a) =
      (r, p, l, omega (arith, a))
  IsPlaced-later (in_run asked planned started) running now last n (r, p, l, b, a) =
      (r, p, l, b, omega (arith, a))
  IsPlaced-later ended running now last n (r, l) = (r, omega (arith, l))

  IsPlaced-at :
      {s : Goroutine} {p : Phase}
      → Inv s
      → s.phase ≡ p
      → IsPlaced p s.running s.now (last_finish s.runs)
  IsPlaced-at {s} i e = subst (λ p. IsPlaced p s.running s.now (last_finish s.runs)) e i.placed

  Step-Inv : {s t : Goroutine} → Step cal c s t → Inv s → Inv t
  unfolding on_timer
  Step-Inv {s} (pass n) i = record {
    placed = IsPlaced-later s.phase s.running s.now (last_finish s.runs) n i.placed;
    spaced = i.spaced;
    none_skipped = i.none_skipped;
  }
  Step-Inv close i = record { placed = i.placed; spaced = i.spaced; none_skipped = i.none_skipped }
  Step-Inv {s} (go_on e) i =
      let (r, l) = IsPlaced-at i e in
      record {
        placed = (r, refl, l, omega arith);
        spaced = i.spaced;
        none_skipped = i.none_skipped;
      }
  Step-Inv {s} (fire asked planned e due) i =
      let (r, p, l, a) = IsPlaced-at i e in
      rw (r, on_timer)
        (record {
          placed = (refl, p, l, due, omega arith);
          spaced = i.spaced;
          none_skipped = i.none_skipped;
        })
  Step-Inv {s} (finish asked planned started e) i =
      let (r, p, l, b, a) = IsPlaced-at i e in
      let (future, _) = next_lem cal c asked in
      record {
        placed = (refl, omega arith);
        spaced = (p, l, omega (arith, p, future), b, a, i.spaced);
        none_skipped = i.none_skipped;
      }
  Step-Inv {s} (stop asked planned e closed) i =
      let (r, p, l, a) = IsPlaced-at i e in
      record { placed = (r, omega (arith, l, a)); spaced = i.spaced; none_skipped = i.none_skipped }

  Inv-started_at : (now : ℕ) → Inv (started_at now)
  Inv-started_at now = record { placed = (refl, omega arith); spaced = tt; none_skipped = refl }

  Steps-Inv : {now : ℕ} {s : Goroutine} → Steps cal c (started_at now) s → Inv s
  Steps-Inv {now} here = Inv-started_at now
  Steps-Inv (onward h st) = Step-Inv st (Steps-Inv h)

  -- In every state that the goroutine can reach, its runs follow one another: each has started at
  -- the time, or later, that `Next` gave for a time not before the end of the run before it, and no
  -- run has been skipped for one that is still in progress.
  pub Steps-IsSpaced :
      {now : ℕ} {s : Goroutine} → Steps cal c (started_at now) s → IsSpaced s.runs × (s.skipped ≡ 0)
  Steps-IsSpaced h = let i = Steps-Inv h in (i.spaced, i.none_skipped)

  -- A state with one finished run more than `s0` has, which can be reached from `s0`.
  abbrev pub Again : Goroutine → ℕ → Type 0
  Again s0 n = (t : Goroutine) × Steps cal c s0 t × (length t.runs ≡ suc n)

  Again-in_run :
      {s0 s : Goroutine} (asked planned started : ℕ)
      → Steps cal c s0 s
      → s.phase ≡ in_run asked planned started
      → Again s0 (length s.runs)
  Again-in_run {s = s} asked planned started h e =
      (on_return asked planned started s, onward h (finish asked planned started e), refl)

  -- The time comes, and the timer fires.
  Again-at_select :
      {s0 s : Goroutine} (asked planned : ℕ)
      → Steps cal c s0 s
      → s.phase ≡ at_select asked planned
      → s.running ≡ false
      → Again s0 (length s.runs)
  unfolding on_timer
  Again-at_select {s = s} asked planned h e r =
      let due : Goroutine = record s { now = s.now + (planned - s.now) } in
      let same : on_timer asked planned due
          ≡ record due { phase = in_run asked planned due.now; running = true } =
        rw (r, on_timer) refl in
      let (t, more, count) =
        Again-in_run asked planned due.now
          (onward (onward h (pass (planned - s.now))) (fire asked planned e (omega arith)))
          (ap (λ (g : Goroutine). g.phase) same) in
      (t, more, count ∙ ap (λ (g : Goroutine). suc (length g.runs)) same)

  -- From every state that the goroutine can reach and in which it has not returned, a further run can
  -- be started and finished.
  pub Steps-Again :
      {now : ℕ} {s : Goroutine}
      → Steps cal c (started_at now) s
      → s.phase ≢ ended
      → Again s (length s.runs)
  Steps-Again {s = s} h open_ended = go s.phase refl
    where
      go : (p : Phase) → s.phase ≡ p → Again s (length s.runs)
      go at_loop e =
          let (r, _) = IsPlaced-at (Steps-Inv h) e in
          Again-at_select s.now (next cal c s.now) (onward here (go_on e)) refl r
      go (at_select asked planned) e =
          let (r, _, _, _) = IsPlaced-at (Steps-Inv h) e in Again-at_select asked planned here e r
      go (in_run asked planned started) e = Again-in_run asked planned started here e
      go ended e = absurd (open_ended e)
