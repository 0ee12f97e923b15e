-- ===== src/Auth.antt =====
-- auth.go: the limit on failed logins, the session cookie, and the middleware that asks for it.
pub mod Limit
pub mod Lockout
pub mod Session
pub mod Passage
pub mod Names
mod Tests
use Prim.Native.Nat.{ℕ, ◌+◌, ◌-◌, ◌*◌, ◌^◌}
use mathlib.Core.Bool.{Bool, true, false, ◌&&◌, ◌||◌, not}
use mathlib.Core.Option.{Option, none, some}
use mathlib.Core.List.{List, [], ◌∷◌, ◌++◌}
use registry_ui.Base.Tests.{ltb, leb, ◌==◌, if◌then◌else◌}
use registry_ui.Base.Int.{ℤ, pos, pos_part, lez, ltz, wrap_int}
use registry_ui.Base.Text.{Text, codes, text_eq, has_prefix, is_empty}
use registry_ui.Base.Map.{Map, lookup, insert, remove}

-- The values of `auth` and the base path in the configuration.
pub record AuthConfig : Type 0 where
  pub enabled : Bool
  pub max_attempts : ℤ
  pub lockout_minutes : ℤ
  pub username : Text
  pub password : Text
  pub secret : Text
  pub uri_base_path : Text

-- `loginAttempt`; a time is in nanoseconds.
pub record LoginAttempt : Type 0 where
  pub count : ℕ
  pub last_fail : ℕ

-- `lockoutMin`
unfoldable pub lockout_min : AuthConfig → ℕ
lockout_min config =
    if lez config.lockout_minutes (pos 0) then 15 else pos_part config.lockout_minutes

abbrev pub minute : ℕ
minute = 60 * 10 ^ 9

-- `time.Duration(lockoutMin)*time.Minute`, which wraps.
unfoldable pub lockout : AuthConfig → ℤ
lockout config = wrap_int (lockout_min config * minute)

-- `checkRateLimit` for the entry that is found: whether the address is blocked, and the attempts
-- that remain.
unfoldable pub check_attempt :
    AuthConfig → ℕ → Text → Option LoginAttempt → Map LoginAttempt → (Bool × ℕ) × Map LoginAttempt
check_attempt config now ip none attempts = ((false, pos_part config.max_attempts), attempts)
check_attempt config now ip (some attempt) attempts =
    let max = pos_part config.max_attempts in
    if ltz (lockout config) (pos (now - attempt.last_fail))
    then ((false, max), remove ip attempts)
    else if leb max attempt.count
    then ((true, 0), attempts)
    else ((false, max - attempt.count), attempts)

-- `checkRateLimit`
unfoldable pub check_rate_limit :
    AuthConfig → ℕ → Text → Map LoginAttempt → (Bool × ℕ) × Map LoginAttempt
unfolding check_attempt
check_rate_limit config now ip attempts =
    if lez config.max_attempts (pos 0)
    then ((false, 0), attempts)
    else check_attempt config now ip (lookup ip attempts) attempts

-- `recordFailure` for the entry that is found.
unfoldable pub failed_attempt : ℕ → Option LoginAttempt → LoginAttempt
failed_attempt now none = record { count = 1; last_fail = now }
failed_attempt now (some attempt) = record { count = attempt.count + 1; last_fail = now }

-- `recordFailure`
unfoldable pub record_failure : ℕ → Text → Map LoginAttempt → Map LoginAttempt
record_failure now ip attempts = insert ip (failed_attempt now (lookup ip attempts)) attempts

-- `clearAttempts`
unfoldable pub clear_attempts : Text → Map LoginAttempt → Map LoginAttempt
clear_attempts ip attempts = remove ip attempts

-- `strings.SplitN(s, ":", 2)`, as the two parts where there are two.
unfoldable pub split_colon : Text → Option (Text × Text)
split_colon [] = none
split_colon (c ∷ s) =
    let rest = split_colon s in
    if c == b':'
    then some ([], s)
    else elim rest [ none ↦ none | some (before, after) ↦ some (c ∷ before, after) ]

unfoldable pub drop_slashes : Text → Text
drop_slashes [] = []
drop_slashes (c ∷ s) = elim (drop_slashes s) [
  | [] ↦ (if c == b'/' then [] else c ∷ [])
  | d ∷ t ↦ c ∷ d ∷ t
]

-- `strings.TrimRight(s, "/")`
unfoldable pub trim_right_slashes : Text → Text
unfolding drop_slashes
trim_right_slashes s = drop_slashes s

-- `skipPaths`
abbrev pub skip_paths : List Text
skip_paths =
    codes "/login"
    ∷ codes "/logout"
    ∷ codes "/favicon.ico"
    ∷ codes "/event-receiver"
    ∷ codes "/static/"
    ∷ []

-- The loop over `skipPaths`.
unfoldable pub is_skipped : Text → Text → List Text → Bool
is_skipped base_path path [] = false
is_skipped base_path path (sp ∷ sps) =
    (text_eq path (base_path ++ sp) || has_prefix path (base_path ++ sp))
    || is_skipped base_path path sps

-- The bytes that may stand in the value of a cookie.
unfoldable pub is_cookie_byte : ℕ → Bool
is_cookie_byte b = leb 32 b && (ltb b 127 && not (b == b'"' || (b == b';' || b == b'\\')))

-- What is left of a value on its way through `SetCookie`, the browser and `Cookie`: the other bytes
-- are dropped.
unfoldable pub sent : Text → Text
sent [] = []
sent (b ∷ value) = let rest = sent value in if is_cookie_byte b then b ∷ rest else rest

-- What the middleware does with a request: it goes on with the user's name that is written to the
-- header, or with the header as it came (`none`), or it redirects.
pub data Decision : Type 0 where
  proceed : Option Text → Decision
  redirect : Text → Decision

-- What the login handler answers: the page with its message, or the session's cookie and a redirect.
pub data LoginPage : Type 0 where
  no_error : LoginPage
  locked_out : ℕ → LoginPage
  wrong_password : ℕ → LoginPage

pub data LoginResponse : Type 0 where
  render : LoginPage → LoginResponse
  start_session : Text → Text → LoginResponse

-- The parts of a request that the handlers read.
pub record LoginRequest : Type 0 where
  pub is_post : Bool
  pub ip : Text
  pub username : Text
  pub password : Text

-- The clock at the handler's two tests of the limit, and at the failure between them.
pub record Clock : Type 0 where
  pub checked : ℕ
  pub failed : ℕ
  pub rechecked : ℕ

-- `hmac` is the hexadecimal HMAC-SHA256 of a text under a secret.
module _ (hmac : Text → Text → Text) (config : AuthConfig) where
  -- `computeSignature`
  abbrev pub compute_signature : Text → Text → Text
  compute_signature username secret = hmac secret username

  unfoldable pub session_parts : Option (Text × Text) → Text
  session_parts none = []
  session_parts (some (username, signature)) =
      if text_eq signature (compute_signature username config.secret) then username else []

  -- `getSessionUsername`, for the cookie's value.
  unfoldable pub get_session_username : Option Text → Text
  unfolding session_parts
  get_session_username none = []
  get_session_username (some value) = session_parts (split_colon value)

  -- `authMiddleware`, for the path and the cookie of a request.
  unfoldable pub auth_middleware : Text → Option Text → Decision
  auth_middleware path cookie =
      let base_path = trim_right_slashes config.uri_base_path in
      let username = get_session_username cookie in
      if config.enabled
      then if is_skipped base_path path skip_paths
        then proceed none
        else if is_empty username
        then redirect (base_path ++ codes "/login")
        else proceed (some username)
      else proceed none

  -- The value of the session's cookie.
  unfoldable pub cookie_value : Text → Text
  cookie_value username = username ++ b':' ∷ compute_signature username config.secret

  -- A post that is not blocked.
  unfoldable pub try_login :
      Clock → LoginRequest → Map LoginAttempt → LoginResponse × Map LoginAttempt
  try_login clock request attempts =
      let failed = record_failure clock.failed request.ip attempts in
      let ((blocked, remaining), rechecked) =
        check_rate_limit config clock.rechecked request.ip failed in
      if text_eq request.username config.username && text_eq request.password config.password
      then (
        start_session (sent (cookie_value request.username))
            (trim_right_slashes config.uri_base_path ++ codes "/"),
        clear_attempts request.ip attempts,
      )
      else (render (wrong_password remaining), rechecked)

  -- `loginHandler`
  unfoldable pub login_handler :
      Clock → LoginRequest → Map LoginAttempt → LoginResponse × Map LoginAttempt
  login_handler clock request attempts =
      let ((blocked, remaining), checked) =
        check_rate_limit config clock.checked request.ip attempts in
      if request.is_post
      then if blocked
        then (render (locked_out (lockout_min config)), checked)
        else try_login clock request checked
      else (render no_error, attempts)

-- `logoutHandler`: the cookie's value is emptied, and the place to go to.
unfoldable pub logout_handler : AuthConfig → Text × Text
logout_handler config = ([], trim_right_slashes config.uri_base_path ++ codes "/login")
