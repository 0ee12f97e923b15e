-- ===== src/Main/Requests.antt =====
-- main.go, web.go: what the running program answers to a request, and what the request changes. The
-- framework has chosen the route and parsed the request.
use mathlib.Core.Bool.{Bool}
use mathlib.Core.Option.{Option}
use mathlib.Core.List.{List, ◌++◌}
use registry_ui.Base.Tests.{if◌then◌else◌}
use registry_ui.Base.Int.{ℤ}
use registry_ui.Base.Text.{Text, codes}
use registry_ui.Base.Map.{Map}
use registry_ui.Auth.{
  AuthConfig, LoginAttempt, LoginRequest, LoginResponse, Clock, Decision, proceed, redirect,
  auth_middleware, login_handler, logout_handler,
}
use registry_ui.Client.{Client, ClientConfig, Remote}
use registry_ui.Events.{EventListener, Database, Format}
use registry_ui.Middleware.{with_middleware}
use registry_ui.Purge.Summary.{Json}
use registry_ui.Web.{
  WebConfig, Permissions, View, set_user_permissions, view_catalog, delete_tag_page,
}
use registry_ui.Web.Options.{Setting, ConfigSection, view_options}
use registry_ui.Web.Site.{
  PurgeLogPage, StatisticsPage, Response, new_response, view_purge_log, view_statistics,
  receive_events,
}
use registry_ui.Main.{normalize_base_path, is_event_token}
use registry_ui.Main.Deletion.{header_behind}

-- The configuration of the program and the libraries that it is linked with. `key_auth` is the
-- framework's `KeyAuthWithConfig`: whether a validator and the header `Authorization` let a request
-- through; `on_error` is its handler of errors. `change` is what others do to the registry.
pub record App (R D J V X : Type 0) : Type 0 where
  pub remote : Remote R
  pub client_config : ClientConfig
  pub db : Database D
  pub format : Format J
  pub listener : EventListener
  pub json : Json
  pub log_retention : ℤ
  pub hmac : Text → Text → Text
  pub auth : AuthConfig
  pub web : WebConfig
  pub cron : Text
  pub print : V → Text
  pub settings : Map (Setting V)
  pub bearer_token : Text
  pub key_auth : (Text → Bool) → Text → Bool
  pub on_error : Text → Response × D → Response × D
  pub change : X → R → R

-- What the running program keeps, with the registry and the database behind it.
pub record Server (R D : Type 0) : Type 0 where
  pub client : Client
  pub registry : R
  pub attempts : Map LoginAttempt
  pub database : D

-- The routes of the group behind the login, with what their handlers read of the URL.
pub data Page : Type 0 where
  at_root : Page
  at_path : Text → Page
  at_purge_log : Page
  at_statistics : Page
  at_options : Page
  at_deletion : Text → Text → Page

-- The value of the session's cookie, if there is one, and the header with the user's name.
pub record Visit : Type 0 where
  pub cookie : Option Text
  pub header : Text

pub data Request : Type 0 where
  visiting : Visit → Page → Request
  logging_in : Clock → LoginRequest → Request
  logging_out : Request
  notifying : Text → Text → Request

-- What the handlers hand to the framework or to the templates.
pub data Answer : Type 0 where
  redirected : Text → Answer
  view : View → Answer
  purge_log_page : PurgeLogPage → Answer
  statistics_page : StatisticsPage → Answer
  options_page : Permissions → List ConfigSection → Answer
  login_answer : LoginResponse → Answer
  logged_out : Text × Text → Answer
  responded : Response → Answer
  unauthorized : Answer

-- `Request().URL.Path`
unfoldable pub page_path : AuthConfig → Page → Text
page_path auth at_root = normalize_base_path auth.uri_base_path
page_path auth (at_path param) = normalize_base_path auth.uri_base_path ++ codes "/" ++ param
page_path auth at_purge_log = normalize_base_path auth.uri_base_path ++ codes "/__purge-log"
page_path auth at_statistics = normalize_base_path auth.uri_base_path ++ codes "/__statistics"
page_path auth at_options = normalize_base_path auth.uri_base_path ++ codes "/__options"
page_path auth (at_deletion repo_path tag) =
    normalize_base_path auth.uri_base_path ++ codes "/__delete-tag"

-- The client and the registry of a server.
abbrev pub world : {R D : Type 0} → Server R D → Client × R
world s = (s.client, s.registry)

abbrev pub with_world : {R D : Type 0} → Client × R → Server R D → Server R D
with_world w s = record s { client = w.0; registry = w.1 }

module _ {R D J V X : Type 0} (app : App R D J V X) where
  unfoldable pub catalog_answer : Text → Text → Server R D → Answer × Server R D
  catalog_answer user param s =
      let (v, (w, d)) =
        view_catalog app.remote app.client_config app.web app.db app.format app.listener user param
          (world s, s.database) in
      (view v, record s { client = w.0; registry = w.1; database = d })

  -- The handler of a page, for the user's name in the header.
  unfoldable pub show_page : Page → Text → Server R D → Answer × Server R D
  unfolding catalog_answer
  show_page at_root user s = catalog_answer user (codes "") s
  show_page (at_path param) user s = catalog_answer user param s
  show_page at_purge_log user s =
      let (page, d) = view_purge_log app.db app.format app.listener app.web user s.database in
      (purge_log_page page, record s { database = d })
  show_page at_statistics user s =
      let (page, d) =
        view_statistics app.db app.format app.listener app.web app.cron user s.client s.database in
      (statistics_page page, record s { database = d })
  show_page at_options user s =
      (options_page (set_user_permissions app.web user) (view_options app.print app.settings), s)
  show_page (at_deletion repo_path tag) user s =
      let (url, w) =
        delete_tag_page app.remote app.client_config app.web user repo_path tag (world s) in
      (redirected url, with_world w s)

  -- What `authMiddleware` makes of a page.
  unfoldable pub passed_on : Visit → Page → Decision → Server R D → Answer × Server R D
  unfolding show_page
  passed_on visit page (redirect url) s = (redirected url, s)
  passed_on visit page (proceed username) s = show_page page (header_behind username visit.header) s

  unfoldable pub notified : Bool → Text → Server R D → Answer × Server R D
  notified allowed body s =
      let (_, (r, d)) =
        with_middleware app.on_error (codes "/event-receiver")
          (receive_events app.db app.format app.listener body) (new_response, s.database) in
      if allowed then (responded r, record s { database = d }) else (unauthorized, s)

  -- A request behind the choice of its route.
  unfoldable pub serve : Request → Server R D → Answer × Server R D
  unfolding passed_on notified
  serve (visiting visit page) s =
      passed_on visit page
        (auth_middleware app.hmac app.auth (page_path app.auth page) visit.cookie) s
  serve (logging_in clock request) s =
      let (r, attempts) = login_handler app.hmac app.auth clock request s.attempts in
      (login_answer r, record s { attempts = attempts })
  serve logging_out s = (logged_out (logout_handler app.auth), s)
  serve (notifying authorization body) s =
      notified (app.key_auth (is_event_token app.bearer_token) authorization) body s
