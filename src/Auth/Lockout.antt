-- ===== src/Auth/Lockout.antt =====
-- auth.go: `loginHandler` under the limit on failed logins.
use Prim.Native.Nat.{ℕ, ◌+◌, ◌*◌, ◌≤◌, ◌<◌}
use mathlib.Core.Path.{◌≡◌, refl, sym, ap, subst, ◌∙◌}
use mathlib.Core.Logic.{inl, inr}
use mathlib.Core.Bool.{true, false, ◌&&◌}
use mathlib.Core.Option.{none}
use mathlib.Core.List.{List, [], ◌∷◌}
use native.Mathlib.Omega.{arith}
use registry_ui.Base.Tests.{if◌then◌else◌, Bool-cases}
use registry_ui.Base.Lists.{All, sum_by}
use registry_ui.Base.Int.{pos, pos_part, lez, two63}
use registry_ui.Base.Text.{Text, text_eq}
use registry_ui.Base.TextLaws.{text_eq_iff}
use registry_ui.Base.Map.{Map, lookup, lookup-remove}
use registry_ui.Auth.{
  AuthConfig, LoginAttempt, lockout_min, minute, check_attempt, check_rate_limit, record_failure,
  clear_attempts, locked_out, render, LoginRequest, Clock, try_login, login_handler,
}
use registry_ui.Auth.Limit.{
  IsCounted, check_attempt_blocked, check_attempt_open, check_opened, check_keeps,
  record_failure-IsCounted, check_rate_limit-other, record_failure-other,
}

module _ (hmac : Text → Text → Text) (config : AuthConfig) where
  -- A post with wrong credentials, all its clock readings within one lockout of `start`.
  abbrev pub IsGuess : ℕ → Clock × LoginRequest → Type 0
  IsGuess start (clock, request) =
      ((start ≤ clock.failed)
        × (clock.checked ≤ start + lockout_min config * minute)
        × (clock.rechecked ≤ start + lockout_min config * minute))
      × (request.is_post ≡ true)
      × ((text_eq request.username config.username && text_eq request.password config.password)
          ≡ false)

  -- The entries behind a list of requests.
  abbrev pub run_logins : List (Clock × LoginRequest) → Map LoginAttempt → Map LoginAttempt
  run_logins [] attempts = attempts
  run_logins ((clock, request) ∷ requests) attempts =
      run_logins requests (login_handler hmac config clock request attempts).1

  -- How many of the requests come from `ip`.
  abbrev pub guesses_from : Text → List (Clock × LoginRequest) → ℕ
  guesses_from ip = sum_by (λ (g : Clock × LoginRequest). if text_eq g.1.ip ip then 1 else 0)

  login_wrong :
      (clock : Clock) (request : LoginRequest) (attempts : Map LoginAttempt)
      → request.is_post ≡ true
      → (text_eq request.username config.username && text_eq request.password config.password)
        ≡ false
      → (login_handler hmac config clock request attempts).1 ≡ (
          let checked = check_rate_limit config clock.checked request.ip attempts in
          if checked.0.0
          then checked.1
          else (check_rate_limit config clock.rechecked request.ip
              (record_failure clock.failed request.ip checked.1)).1)
  unfolding login_handler try_login
  login_wrong clock request attempts p x =
      elim (Bool-cases (check_rate_limit config clock.checked request.ip attempts).0.0) [
        | inl b ↦ ground arith
        | inr b ↦ ground arith
      ]

  guess-IsCounted :
      (start n : ℕ) (clock : Clock) (request : LoginRequest) (attempts : Map LoginAttempt)
      → lez config.max_attempts (pos 0) ≡ false
      → lockout_min config * minute < two63
      → IsGuess start (clock, request)
      → IsCounted config start n (lookup request.ip attempts)
      → IsCounted config start
          (n + 1)
          (lookup request.ip (login_handler hmac config clock request attempts).1)
  guess-IsCounted start n clock request attempts limited short ((w, wc, wr), p, x) c =
      let found = lookup request.ip attempts in
      let same : (check_rate_limit config clock.checked request.ip attempts).1 ≡ attempts =
        check_keeps config request.ip start short limited clock.checked n attempts wc c in
      elim (Bool-cases (check_rate_limit config clock.checked request.ip attempts).0.0) [
        | inl b ↦
            let stays : (login_handler hmac config clock request attempts).1 ≡ attempts =
              login_wrong clock request attempts p x
              ∙ (ap
                    (λ t.
                      if t
                      then (check_rate_limit config clock.checked request.ip attempts).1
                      else (check_rate_limit config clock.rechecked request.ip (
                          record_failure clock.failed request.ip
                            (check_rate_limit config clock.checked request.ip attempts).1)).1)
                    b
                  ∙ same) in
            let blocked : (check_attempt config clock.checked request.ip found attempts).0.0
                ≡ true =
              ap (λ r. r.0.0)
                (sym (check_opened config request.ip start short limited clock.checked attempts))
              ∙ b in
            subst (λ m. IsCounted config start (n + 1) (lookup request.ip m)) (sym stays)
              (check_attempt_open config request.ip start short clock.checked n found attempts wc c
                blocked)
        | inr b ↦
            let failed = record_failure clock.failed request.ip attempts in
            let recorded =
              record_failure-IsCounted config request.ip start short limited clock.failed n attempts
                w c in
            let becomes : (login_handler hmac config clock request attempts).1 ≡ failed =
              login_wrong clock request attempts p x
              ∙ (ap
                    (λ t.
                      if t
                      then (check_rate_limit config clock.checked request.ip attempts).1
                      else (check_rate_limit config clock.rechecked request.ip (
                          record_failure clock.failed request.ip
                            (check_rate_limit config clock.checked request.ip attempts).1)).1)
                    b
                  ∙ (ap
                        (λ m.
                          (check_rate_limit config clock.rechecked request.ip
                            (record_failure clock.failed request.ip m)).1)
                        same
                      ∙ check_keeps config request.ip start short limited clock.rechecked (n + 1)
                          failed wr recorded)) in
            subst (λ m. IsCounted config start (n + 1) (lookup request.ip m)) (sym becomes) recorded
      ]

  -- A request from one address never touches the entry of another one.
  pub login_handler-other :
      (ip : Text) (clock : Clock) (request : LoginRequest) (attempts : Map LoginAttempt)
      → text_eq request.ip ip ≡ false
      → lookup ip (login_handler hmac config clock request attempts).1 ≡ lookup ip attempts
  unfolding login_handler try_login clear_attempts
  login_handler-other ip clock request attempts h =
      let checked = (check_rate_limit config clock.checked request.ip attempts).1 in
      let failed = record_failure clock.failed request.ip checked in
      ground (
        arith,
        check_rate_limit-other config clock.checked request.ip ip attempts h,
        record_failure-other config clock.failed request.ip ip checked h,
        check_rate_limit-other config clock.rechecked request.ip ip failed h,
        lookup-remove request.ip ip checked,
      )

  run-IsCounted :
      (ip : Text) (start n : ℕ) (requests : List (Clock × LoginRequest))
      (attempts : Map LoginAttempt)
      → lez config.max_attempts (pos 0) ≡ false
      → lockout_min config * minute < two63
      → All (IsGuess start) requests
      → IsCounted config start n (lookup ip attempts)
      → IsCounted config start
          (n + guesses_from ip requests)
          (lookup ip (run_logins requests attempts))
  run-IsCounted ip start n [] attempts limited short g c =
      subst (λ m. IsCounted config start m (lookup ip attempts)) (omega arith) c
  run-IsCounted ip start n ((clock, request) ∷ requests) attempts limited short (g, gs) c =
      let after = (login_handler hmac config clock request attempts).1 in
      elim (Bool-cases (text_eq request.ip ip)) [
        | inl e ↦
            let same : request.ip ≡ ip = (text_eq_iff request.ip ip).0 e in
            let counted : IsCounted config start (n + 1) (lookup ip after) =
              subst (λ j. IsCounted config start (n + 1) (lookup j after)) same
                (guess-IsCounted start n clock request attempts limited short g
                  (subst (λ j. IsCounted config start n (lookup j attempts)) (sym same) c)) in
            let numbers : n + 1 + guesses_from ip requests
                ≡ n + guesses_from ip ((clock, request) ∷ requests) =
              rw e (omega arith) in
            subst (λ m. IsCounted config start m (lookup ip (run_logins requests after))) numbers
              (run-IsCounted ip start (n + 1) requests after limited short gs counted)
        | inr e ↦
            let numbers : n + guesses_from ip requests
                ≡ n + guesses_from ip ((clock, request) ∷ requests) =
              rw e (omega arith) in
            subst (λ m. IsCounted config start m (lookup ip (run_logins requests after))) numbers
              (run-IsCounted ip start n requests after limited short gs (
                subst (IsCounted config start n)
                  (sym (login_handler-other ip clock request attempts e)) c))
      ]

  -- Where the limit is on, the lockout is below 2 ^ 63 nanoseconds, and an address without an entry has posted at least `max_attempts` wrong
  -- passwords within one lockout of `start`, among wrong ones from any other addresses, its next
  -- post in that time is refused, with the right password too.
  pub login_handler_locks :
      (ip : Text) (start : ℕ) (requests : List (Clock × LoginRequest)) (clock : Clock)
      → (request : LoginRequest) (attempts : Map LoginAttempt)
      → lez config.max_attempts (pos 0) ≡ false
      → lockout_min config * minute < two63
      → All (IsGuess start) requests
      → lookup ip attempts ≡ none
      → pos_part config.max_attempts ≤ guesses_from ip requests
      → clock.checked ≤ start + lockout_min config * minute
      → request.is_post ≡ true
      → request.ip ≡ ip
      → (login_handler hmac config clock request (run_logins requests attempts)).0
        ≡ render (locked_out (lockout_min config))
  unfolding login_handler
  login_handler_locks ip start requests clock request attempts limited short g fresh enough w p
        same =
      let state = run_logins requests attempts in
      let counted =
        run-IsCounted ip start 0 requests attempts limited short g
          (subst (IsCounted config start 0) (sym fresh) refl) in
      let blocked : (check_rate_limit config clock.checked ip state).0.0 ≡ true =
        ap (λ r. r.0.0) (check_opened config ip start short limited clock.checked state)
        ∙ check_attempt_blocked config ip start short clock.checked (0 + guesses_from ip requests)
            (lookup ip state) state w counted (ground arith) (omega arith) in
      let refused : (check_rate_limit config clock.checked request.ip state).0.0 ≡ true =
        subst (λ j. (check_rate_limit config clock.checked j state).0.0 ≡ true) (sym same)
          blocked in
      ground arith
