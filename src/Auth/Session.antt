-- ===== src/Auth/Session.antt =====
-- auth.go: the cookie of a session, and what the middleware lets through.
use Prim.Native.Nat.{ℕ}
use mathlib.Core.Path.{◌≡◌, refl, sym, ap, ◌∙◌}
use mathlib.Core.Logic.{◌≢◌, inl, inr}
use mathlib.Core.Bool.{true, false}
use mathlib.Core.Option.{Option, none, some}
use mathlib.Core.List.{[], ◌∷◌, ◌++◌}
use native.Mathlib.Omega.{arith}
use registry_ui.Base.Tests.{◌==◌, ==_iff, Bool-cases, Option-cases}
use registry_ui.Base.Lists.{All, All-append}
use registry_ui.Base.Text.{Text, text_eq, contains}
use registry_ui.Base.TextLaws.{text_eq_iff, text_eq_refl}
use registry_ui.Base.Map.{Map, get_or}
use registry_ui.Auth.{
  AuthConfig, LoginAttempt, LoginRequest, Clock, start_session, is_cookie_byte, sent, split_colon,
  session_parts, get_session_username, cookie_value, try_login, login_handler,
}

-- The first colon ends the first part.
split_colon-append :
    (before after : Text)
    → contains before b':' ≡ false
    → split_colon (before ++ b':' ∷ after) ≡ some (before, after)
unfolding split_colon contains
split_colon-append [] after h = refl
split_colon-append (c ∷ before) after h =
    let rest = split_colon-append before after (ground arith) in
    let other : (c == b':') ≡ false = ground arith in rw (other, rest) refl

split_colon_first :
    (c : ℕ) (s before after : Text)
    → (c == b':') ≡ true
    → split_colon (c ∷ s) ≡ some (before, after)
    → c ∷ s ≡ before ++ b':' ∷ after
unfolding split_colon
split_colon_first c s before after e h =
    let opened : ◌≡◌ {A = Option (Text × Text)} (split_colon (c ∷ s)) (some ([], s)) =
      rw (e, split_colon) refl in
    let same : ◌≡◌ {A = Text × Text} ([], s) (before, after) =
      ap (λ o. get_or o ([], [])) (sym opened ∙ h) in
    rw (← (ap (λ p. p.0) same), ← (ap (λ p. p.1) same), (==_iff c b':').0 e) refl

split_colon_later :
    (c : ℕ) (s before after : Text)
    → (c == b':') ≡ false
    → split_colon (c ∷ s) ≡ some (before, after)
    → ((b a : Text) → split_colon s ≡ some (b, a) → s ≡ b ++ b':' ∷ a)
    → c ∷ s ≡ before ++ b':' ∷ after
unfolding split_colon
split_colon_later c s before after e h ih = elim (Option-cases (split_colon s)) [
  | inl n ↦
      let opened : ◌≡◌ {A = Option (Text × Text)} (split_colon (c ∷ s)) none =
        rw (e, n, split_colon) refl in
      let same : ◌≡◌ {A = Option (Text × Text)} none (some (before, after)) = sym opened ∙ h in
      absurd (ground arith)
  | inr ((b, a), n) ↦
      let opened : ◌≡◌ {A = Option (Text × Text)} (split_colon (c ∷ s)) (some (c ∷ b, a)) =
        rw (e, n, split_colon) refl in
      let same : ◌≡◌ {A = Text × Text} (c ∷ b, a) (before, after) =
        ap (λ o. get_or o ([], [])) (sym opened ∙ h) in
      rw (← (ap (λ p. p.0) same), ← (ap (λ p. p.1) same)) (ap (λ r. c ∷ r) (ih b a n))
]

-- The parts are the two sides of the first colon.
split_colon_sound :
    (s before after : Text) → split_colon s ≡ some (before, after) → s ≡ before ++ b':' ∷ after
unfolding split_colon
split_colon_sound [] before after h = absurd (ground arith)
split_colon_sound (c ∷ s) before after h = elim (Bool-cases (c == b':')) [
  | inl e ↦ split_colon_first c s before after e h
  | inr e ↦ split_colon_later c s before after e h (split_colon_sound s)
]

abbrev pub IsCookieByte : ℕ → Type 0
IsCookieByte b = is_cookie_byte b ≡ true

-- A value without other bytes is sent as it is.
sent_clean : (value : Text) → All IsCookieByte value → sent value ≡ value
unfolding sent
sent_clean [] h = refl
sent_clean (b ∷ value) (valid, h) = rw (valid, sent_clean value h) refl

module _ (hmac : Text → Text → Text) (config : AuthConfig) where
  cookie_value_lem :
      (username : Text)
      → cookie_value hmac config username ≡ username ++ b':' ∷ hmac config.secret username
  unfolding cookie_value
  cookie_value_lem username = refl

  verified :
      (username : Text)
      → session_parts hmac config (some (username, hmac config.secret username)) ≡ username
  unfolding session_parts
  verified username = rw (text_eq_refl (hmac config.secret username)) refl

  get_session_username-cookie_value :
      (username : Text)
      → contains username b':' ≡ false
      → get_session_username hmac config (some (cookie_value hmac config username)) ≡ username
  unfolding get_session_username
  get_session_username-cookie_value username h =
      ap (λ v. session_parts hmac config (split_colon v)) (cookie_value_lem username)
      ∙ (ap (session_parts hmac config)
            (split_colon-append username (hmac config.secret username) h)
          ∙ verified username)

  -- What a login answers where it starts a session.
  login_handler_started :
      (clock : Clock) (request : LoginRequest) (attempts : Map LoginAttempt) (value url : Text)
      → (login_handler hmac config clock request attempts).0 ≡ start_session value url
      → (value ≡ sent (cookie_value hmac config request.username))
        × (request.username ≡ config.username)
  unfolding login_handler try_login
  login_handler_started clock request attempts value url h =
      elim (Bool-cases (text_eq request.username config.username)) [
        | inl e ↦ (ground arith, (text_eq_iff request.username config.username).0 e)
        | inr e ↦ absurd (ground arith)
      ]

  -- Where the login starts a session, the value of its cookie, as it is sent back, gives the name of
  -- the configured user: this holds for a name without a colon and without the characters that
  -- `SetCookie` drops, where the signature has none of these either.
  pub get_session_username-login_handler :
      (clock : Clock) (request : LoginRequest) (attempts : Map LoginAttempt) (value url : Text)
      → All IsCookieByte (hmac config.secret config.username)
      → All IsCookieByte config.username
      → contains config.username b':' ≡ false
      → (login_handler hmac config clock request attempts).0 ≡ start_session value url
      → get_session_username hmac config (some value) ≡ config.username
  unfolding is_cookie_byte
  get_session_username-login_handler clock request attempts value url hex clean no_colon h =
      let (is_value, is_user) = login_handler_started clock request attempts value url h in
      let user = config.username in
      let whole : sent (cookie_value hmac config user) ≡ cookie_value hmac config user =
        rw (cookie_value_lem user) (
          sent_clean (user ++ b':' ∷ hmac config.secret user)
            (All-append IsCookieByte user (b':' ∷ hmac config.secret user) clean (refl, hex))) in
      rw (is_value, is_user, whole) (get_session_username-cookie_value user no_colon)

  parts_sound :
      (parts : Option (Text × Text))
      → session_parts hmac config parts ≢ []
      → parts
        ≡ some
            (session_parts hmac config parts, hmac config.secret (session_parts hmac config parts))
  unfolding session_parts
  parts_sound none n = absurd (n refl)
  parts_sound (some (username, signature)) n =
      elim (Bool-cases (text_eq signature (hmac config.secret username))) [
        | inl e ↦ rw (e, (text_eq_iff signature (hmac config.secret username)).0 e) refl
        | inr e ↦ absurd (n (rw (e, session_parts) refl))
      ]

  -- A session with a user's name comes from the cookie that a login of that user sets, with the
  -- signature under the secret.
  pub get_session_username_sound :
      (value : Text)
      → get_session_username hmac config (some value) ≢ []
      → value ≡ cookie_value hmac config (get_session_username hmac config (some value))
  unfolding get_session_username
  get_session_username_sound value n =
      split_colon_sound value (session_parts hmac config (split_colon value))
        (hmac config.secret (session_parts hmac config (split_colon value)))
        (parts_sound (split_colon value) n)
      ∙ sym (cookie_value_lem (session_parts hmac config (split_colon value)))
