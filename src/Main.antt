-- ===== src/Main.antt =====
-- main.go: the start-up, the table of routes, and the two ways of running a purge. The framework
-- picks the route, and `viper` and `flag` read the configuration.
pub mod Deletion
pub mod Logged
pub mod Requests
pub mod Flags
pub mod Serving
mod LogTests
mod Tests
use Prim.Native.Nat.{ℕ}
use mathlib.Core.Bool.{Bool, true, false}
use mathlib.Core.Option.{Option, none, some}
use mathlib.Core.List.{List, [], ◌∷◌, ◌++◌}
use registry_ui.Base.Tests.{if◌then◌else◌}
use registry_ui.Base.Int.{ℤ}
use registry_ui.Base.Text.{Text, codes, text_eq, is_empty}
use registry_ui.Scheduler.{CronError, CronSchedule, Parsed, ok, err, diverged}
use registry_ui.Scheduler.Timer.{start_purge_scheduler}
use registry_ui.Purge.{PurgeClient, PurgeRunResult, Env}
use registry_ui.Purge.Run.{run_purge_old_tags}
use registry_ui.Purge.Summary.{Json}
use registry_ui.Events.{EventListener, Database, Format}
use registry_ui.Events.Handler.{new_event_listener}
use registry_ui.Events.Log.{record_purge_run}
use registry_ui.Web.{trim_slashes}

-- The normal form of the base path.
with_slash : Text → Text
with_slash [] = []
with_slash (c ∷ path) = b'/' ∷ c ∷ path

unfoldable pub normalize_base_path : Text → Text
unfolding with_slash
normalize_base_path base_path = with_slash (trim_slashes base_path)

pub data Method : Type 0 where
  get : Method
  post : Method

-- The handlers of the routes.
pub data Endpoint : Type 0 where
  favicon_file : Endpoint
  static_files : Endpoint
  login : Endpoint
  logout : Endpoint
  catalog : Endpoint
  purge_log : Endpoint
  statistics : Endpoint
  options : Endpoint
  deletion : Endpoint
  event_receiver : Endpoint

-- What stands in front of a route beside the middlewares of all of them.
pub data Guard : Type 0 where
  unguarded : Guard
  by_session : Guard
  by_token : Guard

pub record Route : Type 0 where
  pub method : Method
  pub path : Text
  pub endpoint : Endpoint
  pub guard : Guard

abbrev route : Method → Text → Endpoint → Guard → Route
route m p e g = record { method = m; path = p; endpoint = e; guard = g }

-- The routes, for the base path in its normal form.
unfoldable pub routes : Text → List Route
routes base =
    route get (codes "/favicon.ico") favicon_file unguarded
    ∷ route get (base ++ codes "/static") static_files unguarded
    ∷ route get (base ++ codes "/login") login unguarded
    ∷ route post (base ++ codes "/login") login unguarded
    ∷ route get (base ++ codes "/logout") logout unguarded
    ∷ route get base catalog by_session
    ∷ route get (base ++ codes "/") catalog by_session
    ∷ route get (base ++ codes "/:repoPath") catalog by_session
    ∷ route get (base ++ codes "/__purge-log") purge_log by_session
    ∷ route get (base ++ codes "/__statistics") statistics by_session
    ∷ route get (base ++ codes "/__options") options by_session
    ∷ route get (base ++ codes "/__delete-tag") deletion by_session
    ∷ route post (codes "/event-receiver") event_receiver by_token
    ∷ []

-- The validator of the token, for `event_listener.bearer_token`.
abbrev pub is_event_token : Text → Text → Bool
is_event_token bearer token = text_eq token bearer

module _ {S D J : Type 0} (c : PurgeClient S) (env : Env) (db : Database D) (f : Format J)
    (e : EventListener) (json : Json) (log_retention : ℤ) where
  unfoldable pub recorded :
      Option (PurgeRunResult × S) → D → Option ((PurgeRunResult × Option Text) × (S × D))
  recorded none d = none
  recorded (some (run, s)) d =
      let (x, d') = record_purge_run db f e log_retention json run d in some ((run, x), (s, d'))

  -- A purge and the record of it, with the error of the latter, which is only logged; `none` where
  -- the purge ends the process.
  unfoldable pub purge_and_record :
      Bool → Text → Text → S × D → Option ((PurgeRunResult × Option Text) × (S × D))
  unfolding recorded
  purge_and_record dry_run include excluded (s, d) =
      recorded (run_purge_old_tags c env dry_run include excluded s) d

  -- The function that the scheduler runs, for `purge_tags.dry_run`.
  unfoldable pub scheduled_purge : Bool → S × D → Option ((PurgeRunResult × Option Text) × (S × D))
  unfolding purge_and_record
  scheduled_purge dry_run w = purge_and_record dry_run [] [] w

-- The values of the configuration and of the flags that decide the start-up.
pub record Startup : Type 0 where
  pub purge_tags : Bool
  pub database_driver : Text
  pub database_location : Text
  pub retention_days : ℤ
  pub deletion_enabled : Bool
  pub cron : Text
  pub uri_base_path : Text

-- How the start-up goes on: it panics, it runs one purge, it ends at the cron expression, or it
-- serves, with the schedule of the purges if there is one. `stuck` does not occur.
pub data Started : Type 0 where
  no_listener : Started
  purging : EventListener → Started
  invalid_cron : CronError → Started
  serving : EventListener → Option CronSchedule → List Route → Started
  stuck : Started

served : EventListener → Text → Parsed (Option CronSchedule) → Started
served e base_path (ok schedule) = serving e schedule (routes (normalize_base_path base_path))
served e base_path (err x) = invalid_cron x
served e base_path diverged = stuck

-- `main`, up to the purge or to `e.Start`.
unfoldable pub start : Startup → Started
unfolding served
start config =
    elim (new_event_listener config.database_driver config.database_location config.retention_days
      config.deletion_enabled) [
        | none ↦ no_listener
        | some e ↦
            if config.purge_tags
            then purging e
            else served e config.uri_base_path (start_purge_scheduler config.cron)
      ]
