-- ===== src/Auth/Tests.antt =====
-- Runs of the login and of the middleware, and each theorem about them at a concrete input.
use Prim.Native.Nat.{ℕ, ◌+◌, ◌*◌, ◌≤◌, ◌<◌}
use mathlib.Core.Path.{◌≡◌, refl, ap}
use mathlib.Core.Bool.{true, false}
use mathlib.Core.Option.{none, some}
use mathlib.Core.List.{List, [], ◌∷◌, ◌++◌, reverse}
use native.Mathlib.Omega.{arith}
use registry_ui.Base.Tests.{if◌then◌else◌}
use registry_ui.Base.Lists.{All, sum_by}
use registry_ui.Base.Int.{pos, two63, wrap_int}
use registry_ui.Base.Text.{Text, codes, text_eq, has_prefix, contains}
use registry_ui.Base.Map.{lookup, insert, remove}
use registry_ui.Auth.{
  AuthConfig, LoginAttempt, lockout_min, minute, check_rate_limit, record_failure, failed_attempt,
  clear_attempts, split_colon, trim_right_slashes, is_skipped, proceed, render, wrong_password,
  start_session, LoginRequest, Clock, get_session_username, auth_middleware, cookie_value, sent,
  is_cookie_byte, lockout, try_login, login_handler, logout_handler,
}
use registry_ui.Auth.Lockout.{login_handler-other, run_logins, IsGuess}
use registry_ui.Auth.Session.{IsCookieByte, get_session_username-login_handler}
use registry_ui.Auth.Passage.{MayPass, auth_middleware-MayPass}

-- Everything that the runs compute with.
auth_run : Unit {0}
unfolding login_handler try_login check_rate_limit record_failure failed_attempt clear_attempts
    lockout_min split_colon trim_right_slashes is_skipped get_session_username auth_middleware
    cookie_value sent is_cookie_byte lockout wrap_int lookup insert remove text_eq has_prefix
    contains
auth_run = tt

-- A stand-in for the HMAC, for the runs.
abbrev toy_hmac : Text → Text → Text
toy_hmac secret username = reverse (secret ++ username)

abbrev config : AuthConfig
config = record {
  enabled = true;
  max_attempts = pos 2;
  lockout_minutes = pos 0;
  username = codes "admin";
  password = codes "pw";
  secret = codes "s";
  uri_base_path = codes "/ui/";
}

abbrev clock_at : ℕ → Clock
clock_at t = record { checked = t; failed = t; rechecked = t }

abbrev post : Text → Text → LoginRequest
post ip password = record { is_post = true; ip = ip; username = codes "admin"; password = password }

-- Two wrong passwords, and one from another address between them.
abbrev guesses : List (Clock × LoginRequest)
guesses =
    (clock_at 1, post (codes "a") (codes "x"))
    ∷ (clock_at 2, post (codes "b") (codes "y"))
    ∷ (clock_at 3, post (codes "a") (codes "z"))
    ∷ []

logs_in :
    login_handler toy_hmac config (clock_at 9) (post (codes "a") (codes "pw")) []
    ≡ (start_session (codes "admin:nimdas") (codes "/ui/"), [])
unfolding auth_run
logs_in = refl

-- A third guess a moment after the lockout is answered again.
opens_again :
    (login_handler toy_hmac config
      (clock_at (15 * minute + 4))
      (post (codes "a") (codes "x"))
      (run_logins toy_hmac config guesses [])).0
    ≡ render (wrong_password 1)
unfolding auth_run
opens_again = refl

logs_out : logout_handler config ≡ ([], codes "/ui/login")
unfolding auth_run logout_handler
logs_out = refl

are_guesses : All (IsGuess toy_hmac config 0) guesses
unfolding auth_run
are_guesses = (
  ((omega arith, omega arith, omega arith), refl, refl),
  (
    ((omega arith, omega arith, omega arith), refl, refl),
    (((omega arith, omega arith, omega arith), refl, refl), tt),
  ),
)

empty_lookup : lookup {V = LoginAttempt} (codes "a") [] ≡ none
unfolding auth_run
empty_lookup = refl

enough_guesses :
    2 ≤ sum_by (λ (g : Clock × LoginRequest). if text_eq g.1.ip (codes "a") then 1 else 0) guesses
unfolding auth_run
enough_guesses = omega arith

short : lockout_min config * minute < two63
unfolding auth_run
short = omega arith

-- With a longer lockout than 2 ^ 63 nanoseconds, no address is ever refused.
never_locks :
    (login_handler toy_hmac
      (record config { lockout_minutes = pos 9999999999 })
      (clock_at 9)
      (post (codes "a") (codes "x"))
      (run_logins toy_hmac config guesses [])).0
    ≡ render (wrong_password 2)
unfolding auth_run
never_locks = refl

in_time : 9 ≤ 0 + lockout_min config * minute
unfolding auth_run
in_time = omega arith

other_address : text_eq (codes "b") (codes "a") ≡ false
unfolding auth_run
other_address = refl

no_colon : contains (codes "admin") b':' ≡ false
unfolding auth_run
no_colon = refl

started :
    (login_handler toy_hmac config (clock_at 9) (post (codes "a") (codes "pw")) []).0
    ≡ start_session (codes "admin:nimdas") (codes "/ui/")
started = ap (λ r. r.0) logs_in

clean_signature : All IsCookieByte (toy_hmac (codes "s") (codes "admin"))
unfolding auth_run
clean_signature = (refl, (refl, (refl, (refl, (refl, (refl, tt))))))

clean_name : All IsCookieByte (codes "admin")
unfolding auth_run
clean_name = (refl, (refl, (refl, (refl, (refl, tt)))))

-- The user `é` is sent as an empty name.
drops_accents : sent (b'\xE9' ∷ codes ":sig") ≡ codes ":sig"
unfolding auth_run
drops_accents = refl

login_handler-other_example :
    lookup
      (codes "a")
      (login_handler toy_hmac config
        (clock_at 4)
        (post (codes "b") (codes "x"))
        (run_logins toy_hmac config guesses [])).1
    ≡ lookup (codes "a") (run_logins toy_hmac config guesses [])
login_handler-other_example =
    login_handler-other toy_hmac config (codes "a") (clock_at 4) (post (codes "b") (codes "x"))
      (run_logins toy_hmac config guesses []) other_address

get_session_username-login_handler_example :
    get_session_username toy_hmac config (some (codes "admin:nimdas")) ≡ codes "admin"
get_session_username-login_handler_example =
    get_session_username-login_handler toy_hmac config (clock_at 9) (post (codes "a") (codes "pw"))
      [] (codes "admin:nimdas") (codes "/ui/") clean_signature clean_name no_colon started

passes :
    auth_middleware toy_hmac config (codes "/ui/app") (some (codes "admin:nimdas"))
    ≡ proceed (some (codes "admin"))
unfolding auth_run
passes = refl

auth_middleware-MayPass_example :
    MayPass toy_hmac config (codes "/ui/app") (some (codes "admin:nimdas")) (some (codes "admin"))
auth_middleware-MayPass_example =
    auth_middleware-MayPass toy_hmac config (codes "/ui/app") (some (codes "admin:nimdas"))
      (some (codes "admin")) passes
