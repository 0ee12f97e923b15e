-- ===== src/Auth/Passage.antt =====
-- auth.go: which requests the middleware lets through.
use mathlib.Core.Path.{◌≡◌, refl, sym, subst}
use mathlib.Core.Logic.{◌≢◌, inl, inr}
use mathlib.Core.Bool.{true, false}
use mathlib.Core.Option.{Option, none, some}
use mathlib.Core.List.{[], ◌∷◌, ◌++◌}
use native.Mathlib.Omega.{arith}
use registry_ui.Base.Tests.{Bool-cases}
use registry_ui.Base.Text.{Text, codes, has_prefix, is_empty}
use registry_ui.Auth.{
  AuthConfig, trim_right_slashes, skip_paths, is_skipped, proceed, get_session_username,
  auth_middleware, cookie_value,
}
use registry_ui.Auth.Session.{get_session_username_sound}

has_prefix-append : (s rest : Text) → has_prefix (s ++ rest) s ≡ true
unfolding has_prefix
has_prefix-append [] rest = refl
has_prefix-append (a ∷ s) rest = ground (arith, has_prefix-append s rest)

login_skipped :
    (base rest : Text) → is_skipped base (base ++ codes "/login" ++ rest) skip_paths ≡ true
unfolding is_skipped
login_skipped base rest =
    let begins = has_prefix-append (base ++ codes "/login") rest in ground arith

module _ (hmac : Text → Text → Text) (config : AuthConfig) where
  -- Why a request goes on, and with which user's name: the middleware is off, the path begins with
  -- one of the open ones, or the cookie is the one of a login of that user.
  pub data MayPass (path : Text) : Option Text → Option Text → Type 0 where
    no_auth : (cookie : Option Text) → config.enabled ≡ false → MayPass path cookie none
    open_path :
        (cookie : Option Text)
        → is_skipped (trim_right_slashes config.uri_base_path) path skip_paths ≡ true
        → MayPass path cookie none
    signed :
        (username : Text)
        → username ≢ []
        → MayPass path (some (cookie_value hmac config username)) (some username)

  session_passes :
      (path : Text) (cookie : Option Text)
      → get_session_username hmac config cookie ≢ []
      → MayPass path cookie (some (get_session_username hmac config cookie))
  unfolding get_session_username
  session_passes path none n = absurd (n refl)
  session_passes path (some value) n =
      subst (λ v. MayPass path (some v) (some (get_session_username hmac config (some value))))
        (sym (get_session_username_sound hmac config value n))
        (signed (get_session_username hmac config (some value)) n)

  -- A request goes on only where the middleware is off, for an open path, or with a cookie that is
  -- signed for the user whose name it then carries.
  pub auth_middleware-MayPass :
      (path : Text) (cookie username : Option Text)
      → auth_middleware hmac config path cookie ≡ proceed username
      → MayPass path cookie username
  unfolding auth_middleware
  auth_middleware-MayPass path cookie username h =
      let base_path = trim_right_slashes config.uri_base_path in
      let user = get_session_username hmac config cookie in
      elim (Bool-cases config.enabled) [
        | inr off ↦
            let same : none ≡ username = ground arith in
            subst (MayPass path cookie) same (no_auth cookie off)
        | inl on ↦ elim (Bool-cases (is_skipped base_path path skip_paths)) [
          | inl skipped ↦
              let same : none ≡ username = ground arith in
              subst (MayPass path cookie) same (open_path cookie skipped)
          | inr closed ↦ elim (Bool-cases (is_empty user)) [
            | inl nobody ↦ absurd (ground arith)
            | inr somebody ↦
                let same : some user ≡ username = ground arith in
                subst (MayPass path cookie) same
                  (session_passes path cookie (λ none_there. ground arith))
          ]
        ]
      ]

  -- A request for a path that begins with the base path and `/login` goes on without a session,
  -- whatever follows there.
  pub auth_middleware_login_prefix :
      (rest : Text) (cookie : Option Text)
      → auth_middleware hmac config
          (trim_right_slashes config.uri_base_path ++ codes "/login" ++ rest)
          cookie
        ≡ proceed none
  unfolding auth_middleware
  auth_middleware_login_prefix rest cookie =
      let skipped = login_skipped (trim_right_slashes config.uri_base_path) rest in ground arith
