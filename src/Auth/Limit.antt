-- ===== src/Auth/Limit.antt =====
-- auth.go: the limit on failed logins, over the requests of any number of addresses.
use Prim.Native.Nat.{ℕ, ◌+◌, ◌-◌, ◌*◌, ◌≤◌, ◌<◌, min}
use mathlib.Core.Path.{◌≡◌, refl, ap, ◌∙◌}
use mathlib.Core.Logic.{inl, inr}
use mathlib.Core.Bool.{Bool, true, false}
use mathlib.Core.Option.{Option, none, some}
use native.Mathlib.Omega.{arith}
use registry_ui.Base.Tests.{Bool-cases}
use registry_ui.Base.Int.{pos, pos_part, lez, ltz, two63, wrap_int_small}
use registry_ui.Base.Text.{Text, text_eq}
use registry_ui.Base.TextLaws.{text_eq_refl}
use registry_ui.Base.Map.{Map, lookup, lookup-insert, lookup-remove}
use registry_ui.Auth.{
  AuthConfig, LoginAttempt, lockout_min, minute, lockout, check_attempt, check_rate_limit,
  failed_attempt, record_failure,
}

module _ (config : AuthConfig) (start : ℕ) where
  -- An entry counts `n` failures, or as many as are needed to block it, since `start`.
  abbrev pub IsCounted : ℕ → Option LoginAttempt → Type 0
  IsCounted n none = n ≡ 0
  IsCounted n (some a) = (min n (pos_part config.max_attempts) ≤ a.count) × (start ≤ a.last_fail)

module _ (config : AuthConfig) (ip : Text) (start : ℕ)
    (short : lockout_min config * minute < two63) where
  lockout_lem : lockout config ≡ pos (lockout_min config * minute)
  unfolding lockout
  lockout_lem = wrap_int_small (lockout_min config * minute) short

  check_attempt_keeps :
      (now n : ℕ) (found : Option LoginAttempt) (attempts : Map LoginAttempt)
      → now ≤ start + lockout_min config * minute
      → IsCounted config start n found
      → (check_attempt config now ip found attempts).1 ≡ attempts
  unfolding check_attempt
  check_attempt_keeps now n none attempts w c = refl
  check_attempt_keeps now n (some a) attempts w (c, l) = ground (arith, lockout_lem)

  pub check_attempt_blocked :
      (now n : ℕ) (found : Option LoginAttempt) (attempts : Map LoginAttempt)
      → now ≤ start + lockout_min config * minute
      → IsCounted config start n found
      → 1 ≤ pos_part config.max_attempts
      → pos_part config.max_attempts ≤ n
      → ((check_attempt config now ip found attempts).0.0 ≡ true)
  unfolding check_attempt
  check_attempt_blocked now n none attempts w c p m = absurd (omega arith)
  check_attempt_blocked now n (some a) attempts w (c, l) p m = ground (arith, lockout_lem)

  pub check_attempt_open :
      (now n : ℕ) (found : Option LoginAttempt) (attempts : Map LoginAttempt)
      → now ≤ start + lockout_min config * minute
      → IsCounted config start n found
      → (check_attempt config now ip found attempts).0.0 ≡ true
      → IsCounted config start (n + 1) found
  unfolding check_attempt
  check_attempt_open now n none attempts w c b = absurd (ground arith)
  check_attempt_open now n (some a) attempts w (c, l) b = (ground (arith, lockout_lem), l)

  failed_attempt-IsCounted :
      (now n : ℕ) (found : Option LoginAttempt)
      → start ≤ now
      → IsCounted config start n found
      → IsCounted config start (n + 1) (some (failed_attempt now found))
  unfolding failed_attempt
  failed_attempt-IsCounted now n none w c = (omega arith, w)
  failed_attempt-IsCounted now n (some a) w (c, l) = (omega arith, w)

  module _ (limited : lez config.max_attempts (pos 0) ≡ false) where
    pub check_opened :
        (now : ℕ) (attempts : Map LoginAttempt)
        → ◌≡◌ {A = (Bool × ℕ) × Map LoginAttempt}
            (check_rate_limit config now ip attempts)
            (check_attempt config now ip (lookup ip attempts) attempts)
    unfolding check_rate_limit
    check_opened now attempts = rw (limited, check_rate_limit) refl

    pub check_keeps :
        (now n : ℕ) (attempts : Map LoginAttempt)
        → now ≤ start + lockout_min config * minute
        → IsCounted config start n (lookup ip attempts)
        → (check_rate_limit config now ip attempts).1 ≡ attempts
    check_keeps now n attempts w c =
        ap (λ r. r.1) (check_opened now attempts)
        ∙ check_attempt_keeps now n (lookup ip attempts) attempts w c

    pub record_failure-IsCounted :
        (now n : ℕ) (attempts : Map LoginAttempt)
        → start ≤ now
        → IsCounted config start n (lookup ip attempts)
        → IsCounted config start (n + 1) (lookup ip (record_failure now ip attempts))
    unfolding record_failure
    record_failure-IsCounted now n attempts w c =
        rw (lookup-insert ip ip (failed_attempt now (lookup ip attempts)) attempts, text_eq_refl ip)
          (failed_attempt-IsCounted now n (lookup ip attempts) w c)

module _ (config : AuthConfig) where
  check_attempt-other :
      (now : ℕ) (jp ip : Text) (found : Option LoginAttempt) (attempts : Map LoginAttempt)
      → text_eq jp ip ≡ false
      → lookup ip (check_attempt config now jp found attempts).1 ≡ lookup ip attempts
  unfolding check_attempt
  check_attempt-other now jp ip none attempts h = refl
  check_attempt-other now jp ip (some a) attempts h =
      elim (Bool-cases (ltz (lockout config) (pos (now - a.last_fail)))) [
        | inl e ↦ ground (arith, lookup-remove jp ip attempts)
        | inr e ↦ ground arith
      ]

  pub check_rate_limit-other :
      (now : ℕ) (jp ip : Text) (attempts : Map LoginAttempt)
      → text_eq jp ip ≡ false
      → lookup ip (check_rate_limit config now jp attempts).1 ≡ lookup ip attempts
  unfolding check_rate_limit
  check_rate_limit-other now jp ip attempts h =
      elim (Bool-cases (lez config.max_attempts (pos 0))) [
        | inl e ↦ rw (e, check_rate_limit) refl
        | inr e ↦
            rw (e, check_rate_limit) (check_attempt-other now jp ip (lookup jp attempts) attempts h)
      ]

  pub record_failure-other :
      (now : ℕ) (jp ip : Text) (attempts : Map LoginAttempt)
      → text_eq jp ip ≡ false
      → lookup ip (record_failure now jp attempts) ≡ lookup ip attempts
  unfolding record_failure
  record_failure-other now jp ip attempts h =
      rw (lookup-insert jp ip (failed_attempt now (lookup jp attempts)) attempts, h) refl
