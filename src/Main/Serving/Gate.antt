-- ===== src/Main/Serving/Gate.antt =====
-- main.go, auth.go: the pages in front of a visitor without a session.
use mathlib.Core.Path.{◌≡◌, refl, sym, ap, ◌∙◌}
use mathlib.Core.Logic.{◌≢◌, inl, inr}
use mathlib.Core.Bool.{true, false}
use mathlib.Core.Option.{Option, none, some}
use mathlib.Core.List.{append-nil, append_assoc, [], ◌++◌}
use native.Mathlib.Omega.{arith}
use registry_ui.Base.Tests.{Bool-cases}
use registry_ui.Base.Text.{Text, codes, text_eq, has_prefix, is_empty}
use registry_ui.Auth.Session.{get_session_username_sound}
use registry_ui.Main.{normalize_base_path}
use registry_ui.Main.Deletion.{is_skipped-append}
use registry_ui.Auth.{
  AuthConfig, cookie_value, redirect, trim_right_slashes, skip_paths, is_skipped,
  get_session_username, auth_middleware,
}
use registry_ui.Main.Requests.{
  App, Server, Visit, Page, at_root, at_path, at_purge_log, at_statistics, at_options, at_deletion,
  visiting, redirected, page_path, passed_on, serve,
}

-- The page's path, behind the base path.
path_behind : Page → Text
path_behind at_root = []
path_behind (at_path param) = codes "/" ++ param
path_behind at_purge_log = codes "/__purge-log"
path_behind at_statistics = codes "/__statistics"
path_behind at_options = codes "/__options"
path_behind (at_deletion repo_path tag) = codes "/__delete-tag"

page_path_lem :
    (auth : AuthConfig) (page : Page)
    → page_path auth page ≡ normalize_base_path auth.uri_base_path ++ path_behind page
unfolding page_path path_behind
page_path_lem auth at_root = sym (append-nil (normalize_base_path auth.uri_base_path))
page_path_lem auth (at_path param) =
    append_assoc (normalize_base_path auth.uri_base_path) (codes "/") param
page_path_lem auth at_purge_log = refl
page_path_lem auth at_statistics = refl
page_path_lem auth at_options = refl
page_path_lem auth (at_deletion repo_path tag) = refl

-- The pages that ask for a session: all but those of names that begin with one of the open paths.
abbrev pub IsClosed : Page → Type 0
IsClosed at_root = Unit
IsClosed (at_path param) = is_skipped [] (codes "/" ++ param) skip_paths ≡ false
IsClosed at_purge_log = Unit
IsClosed at_statistics = Unit
IsClosed at_options = Unit
IsClosed (at_deletion repo_path tag) = Unit

closed_path : (page : Page) → IsClosed page → is_skipped [] (path_behind page) skip_paths ≡ false
unfolding is_skipped text_eq has_prefix path_behind
closed_path at_root closed = refl
closed_path (at_path param) closed = closed
closed_path at_purge_log closed = refl
closed_path at_statistics closed = refl
closed_path at_options closed = refl
closed_path (at_deletion repo_path tag) closed = refl

module _ (hmac : Text → Text → Text) (auth : AuthConfig) where
  -- A cookie that no login has set has no name.
  no_session :
      (cookie : Option Text)
      → ((username : Text) → username ≢ [] → cookie ≢ some (cookie_value hmac auth username))
      → is_empty (get_session_username hmac auth cookie) ≡ true
  unfolding get_session_username
  no_session none unsigned = refl
  no_session (some value) unsigned =
      elim (Bool-cases (is_empty (get_session_username hmac auth (some value)))) [
        | inl e ↦ e
        | inr e ↦
            let named : get_session_username hmac auth (some value) ≢ [] = λ n. ground arith in
            absurd (
              unsigned (get_session_username hmac auth (some value)) named
                (ap (λ (x : Text). some x) (get_session_username_sound hmac auth value named)))
      ]

  turned_away :
      (page : Page) (cookie : Option Text)
      → auth.enabled ≡ true
      → normalize_base_path auth.uri_base_path ≡ trim_right_slashes auth.uri_base_path
      → IsClosed page
      → ((username : Text) → username ≢ [] → cookie ≢ some (cookie_value hmac auth username))
      → auth_middleware hmac auth (page_path auth page) cookie
        ≡ redirect (trim_right_slashes auth.uri_base_path ++ codes "/login")
  unfolding auth_middleware
  turned_away page cookie on normal closed unsigned =
      let base = trim_right_slashes auth.uri_base_path in
      let shut : is_skipped base (page_path auth page) skip_paths ≡ false =
        rw (page_path_lem auth page, normal)
          (is_skipped-append base (path_behind page) skip_paths ∙ closed_path page closed) in
      let nobody = no_session cookie unsigned in ground arith

module _ {R D J V X : Type 0} (app : App R D J V X) where
  -- With the login enabled and a base path that the routes and the login bring to the same form, a
  -- request for a page whose cookie no login has set is sent to the login, unless the page is
  -- open: the answer is the same in every state, and nothing changes.
  pub serve_gated :
      (v : Visit) (page : Page) (s : Server R D)
      → app.auth.enabled ≡ true
      → normalize_base_path app.auth.uri_base_path ≡ trim_right_slashes app.auth.uri_base_path
      → IsClosed page
      → ((username : Text)
          → username ≢ []
          → v.cookie ≢ some (cookie_value app.hmac app.auth username))
      → serve app (visiting v page) s
        ≡ (redirected (trim_right_slashes app.auth.uri_base_path ++ codes "/login"), s)
  unfolding serve
  serve_gated v page s on normal closed unsigned =
      rw (turned_away app.hmac app.auth page v.cookie on normal closed unsigned, passed_on) refl
