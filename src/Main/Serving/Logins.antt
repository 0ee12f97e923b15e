-- ===== src/Main/Serving/Logins.antt =====
-- main.go, auth.go: what touches the entries of failed logins in the running program.
use mathlib.Core.Path.{◌≡◌, refl, sym, ap, subst, ◌∙◌}
use mathlib.Core.Logic.{inl, inr}
use mathlib.Core.Option.{Option, none, some}
use mathlib.Core.List.{List, [], ◌∷◌, ◌++◌}
use native.Mathlib.Omega.{arith}
use registry_ui.Base.Tests.{Bool-cases}
use registry_ui.Base.Text.{Text}
use registry_ui.Base.Map.{Map, get_or}
use registry_ui.Auth.{
  LoginAttempt, LoginRequest, Clock, Decision, proceed, redirect, auth_middleware, login_handler,
}
use registry_ui.Auth.Lockout.{run_logins}
use registry_ui.Client.{Client, JobInfo}
use registry_ui.Client.Cache.{refresh_catalog, fetch_and_cache_tags_for_repo}
use registry_ui.Client.Inspect.{get_image_info}
use registry_ui.Client.Delete.{purge_client, delete_tag}
use registry_ui.Purge.Interrupted.{meanwhile, refreshed, interrupted}
use registry_ui.Purge.Invariant.{IsKeptByReading}
use registry_ui.Main.{is_event_token}
use registry_ui.Main.Requests.{
  App, Server, Visit, Page, at_root, at_path, at_purge_log, at_statistics, at_options, at_deletion,
  visiting, logging_in, logging_out, notifying, page_path, world, with_world, catalog_answer,
  show_page, passed_on, notified, serve,
}
use registry_ui.Main.Serving.{
  Activity, request, catalog_round, tags_round, elsewhere, Happening, alone, purge, act, act_all,
  act_each, put_back, within, busy_client,
}

-- The requests to the login among what happens, in order.
abbrev pub logins_in : {X : Type 0} → Activity X → List (Clock × LoginRequest)
logins_in (request (visiting v page)) = []
logins_in (request (logging_in clock r)) = (clock, r) ∷ []
logins_in (request logging_out) = []
logins_in (request (notifying authorization body)) = []
logins_in (catalog_round job) = []
logins_in (tags_round job) = []
logins_in (elsewhere x) = []

abbrev pub logins_of_all : {X : Type 0} → List (Activity X) → List (Clock × LoginRequest)
logins_of_all [] = []
logins_of_all (a ∷ activities) = logins_in a ++ logins_of_all activities

abbrev pub logins_of_each : {X : Type 0} → List (List (Activity X)) → List (Clock × LoginRequest)
logins_of_each [] = []
logins_of_each (activities ∷ meantime) = logins_of_all activities ++ logins_of_each meantime

abbrev pub logins_of : {X : Type 0} → List (Happening X) → List (Clock × LoginRequest)
logins_of [] = []
logins_of (alone a ∷ events) = logins_in a ++ logins_of events
logins_of (purge p ∷ events) = logins_of_each p.meantime ++ logins_of events

module _ {R D J V X : Type 0} (app : App R D J V X) where
  -- The entries behind some requests to the login.
  abbrev pub logged : List (Clock × LoginRequest) → Map LoginAttempt → Map LoginAttempt
  logged = run_logins app.hmac app.auth

  pub logged-append :
      (xs ys : List (Clock × LoginRequest)) (attempts : Map LoginAttempt)
      → logged (xs ++ ys) attempts ≡ logged ys (logged xs attempts)
  logged-append [] ys attempts = refl
  logged-append ((clock, r) ∷ xs) ys attempts =
      logged-append xs ys (login_handler app.hmac app.auth clock r attempts).1

  passed_on-attempts :
      (v : Visit) (page : Page) (d : Decision) (s : Server R D)
      → (passed_on app v page d s).1.attempts ≡ s.attempts
  unfolding passed_on show_page catalog_answer
  passed_on-attempts v page (redirect url) s = refl
  passed_on-attempts v at_root (proceed username) s = refl
  passed_on-attempts v (at_path param) (proceed username) s = refl
  passed_on-attempts v at_purge_log (proceed username) s = refl
  passed_on-attempts v at_statistics (proceed username) s = refl
  passed_on-attempts v at_options (proceed username) s = refl
  passed_on-attempts v (at_deletion repo tag) (proceed username) s = refl

  pub act-attempts :
      (a : Activity X) (s : Server R D) → (act app a s).attempts ≡ logged (logins_in a) s.attempts
  unfolding act serve notified
  act-attempts (request (visiting v page)) s =
      passed_on-attempts v page
        (auth_middleware app.hmac app.auth (page_path app.auth page) v.cookie) s
  act-attempts (request (logging_in clock r)) s = refl
  act-attempts (request logging_out) s = refl
  act-attempts (request (notifying authorization body)) s =
      elim (Bool-cases (app.key_auth (is_event_token app.bearer_token) authorization)) [
        | inl e ↦ rw (e, act, serve, notified) refl
        | inr e ↦ rw (e, act, serve, notified) refl
      ]
  act-attempts (catalog_round job) s = refl
  act-attempts (tags_round job) s = refl
  act-attempts (elsewhere x) s = refl

  act_all-attempts :
      (activities : List (Activity X)) (s : Server R D)
      → (act_all app activities s).attempts ≡ logged (logins_of_all activities) s.attempts
  unfolding act_all
  act_all-attempts [] s = refl
  act_all-attempts (a ∷ activities) s =
      act_all-attempts activities (act app a s)
      ∙ (ap (logged (logins_of_all activities)) (act-attempts a s)
          ∙ sym (logged-append (logins_in a) (logins_of_all activities) s.attempts))

  pub act_each-attempts :
      (meantime : List (List (Activity X))) (s : Server R D)
      → (act_each app meantime s).attempts ≡ logged (logins_of_each meantime) s.attempts
  unfolding act_each
  act_each-attempts [] s = refl
  act_each-attempts (activities ∷ meantime) s =
      act_each-attempts meantime (act_all app activities s)
      ∙ (ap (logged (logins_of_each meantime)) (act_all-attempts activities s)
          ∙ sym (logged-append (logins_of_all activities) (logins_of_each meantime) s.attempts))

  module _ (end : Map LoginAttempt) where
    -- The entries become `end` by the requests that are still to come.
    abbrev pub Becomes : Server R D × List (List (Activity X)) → Type 0
    Becomes w = logged (logins_of_each w.1) w.0.attempts ≡ end

    meanwhile-Becomes :
        (s : Server R D) (meantime : List (List (Activity X)))
        → Becomes (s, meantime)
        → Becomes (meanwhile (act_all app) (s, meantime))
    unfolding meanwhile
    meanwhile-Becomes s [] h = h
    meanwhile-Becomes s (activities ∷ meantime) h =
        ap (logged (logins_of_each meantime)) (act_all-attempts activities s)
        ∙ (sym (logged-append (logins_of_all activities) (logins_of_each meantime) s.attempts) ∙ h)

    refreshed-Becomes :
        (w w' : Server R D × List (List (Activity X))) (o : Option (Client × R))
        → refreshed (act_all app) (put_back with_world o w.0) w.1 ≡ some w'
        → Becomes w
        → Becomes w'
    unfolding refreshed put_back
    refreshed-Becomes w w' none e h = absurd (ground arith)
    refreshed-Becomes w w' (some v) e h =
        let same : meanwhile (act_all app) (with_world v w.0, w.1) ≡ w' = ap (λ o. get_or o w') e in
        subst Becomes same (meanwhile-Becomes (with_world v w.0) w.1 h)

    pub busy-IsKeptByReading : (job : JobInfo) → IsKeptByReading (busy_client app job) Becomes
    unfolding interrupted within purge_client
    busy-IsKeptByReading job = record {
      refresh = λ w w' e h. refreshed-Becomes w w' (refresh_catalog app.remote job (world w.0)) e h;
      fetch = λ repo w h.
          meanwhile-Becomes
            (with_world
              (fetch_and_cache_tags_for_repo app.remote app.client_config repo (world w.0)).1 w.0)
            w.1 h;
      info = λ ref w h.
          meanwhile-Becomes
            (with_world
              (w.0.client, (get_image_info app.remote app.client_config ref w.0.registry).1) w.0)
            w.1 h;
    }

    pub busy_delete-Becomes :
        (job : JobInfo) (repo tag : Text) (w : Server R D × List (List (Activity X)))
        → Becomes w
        → Becomes ((busy_client app job).delete_tag repo tag w).1
    unfolding interrupted within purge_client
    busy_delete-Becomes job repo tag w h =
        meanwhile-Becomes
          (with_world (delete_tag app.remote app.client_config repo tag (world w.0)).1 w.0) w.1 h
