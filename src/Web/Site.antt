-- ===== src/Web/Site.antt =====
-- web.go: the pages over the event listener, `viewPurgeLog`, `viewStatistics` and `receiveEvents`.
use Prim.Native.Nat.{ℕ}
use mathlib.Core.Path.{◌≡◌, refl}
use mathlib.Core.Logic.{◌⊎◌, inl, inr}
use mathlib.Core.Bool.{Bool, true, false}
use mathlib.Core.Option.{Option, none}
use mathlib.Core.List.{List, []}
use registry_ui.Base.Lists.{length}
use registry_ui.Base.Int.{pos}
use registry_ui.Base.Text.{Text, codes}
use registry_ui.Client.{Client, JobInfo}
use registry_ui.Client.Counts.{RepoTagCount, get_total_tag_count, get_top_repos_by_tag_count}
use registry_ui.Events.{EventListener, PurgeRunRow, Database, Format}
use registry_ui.Events.Receive.{Ending, returned, panicked, process_events, get_event_count}
use registry_ui.Events.Log.{get_purge_runs, get_latest_purge_run}
use registry_ui.Middleware.{
  finished, panicking, Handler, with_middleware, with_middleware_finished,
  with_middleware_panicking,
}
use registry_ui.Web.{WebConfig, Permissions, set_user_permissions}

-- What is written for `purge_log.html`.
pub record PurgeLogPage : Type 0 where
  pub permissions : Permissions
  pub purge_runs : List PurgeRunRow

-- What is written for `statistics.html`.
pub record StatisticsPage : Type 0 where
  pub permissions : Permissions
  pub is_catalog_ready : Bool
  pub repo_count : ℕ
  pub tag_count : ℕ
  pub event_count : ℕ
  pub top_repos : List RepoTagCount
  pub catalog_job_info : JobInfo
  pub tags_job_info : JobInfo
  pub latest_purge_run : Option PurgeRunRow
  pub purge_cron_expr : Text

-- The status and the body of a response, and whether they have been written. A response that is not
-- written by the handler is sent as it stands, with the status 200.
pub record Response : Type 0 where
  pub status : ℕ
  pub body : Text
  pub is_committed : Bool

abbrev pub new_response : Response
new_response = record { status = 200; body = []; is_committed = false }

-- `GetJobInfo`
abbrev pub get_job_info : Client → JobInfo × JobInfo
get_job_info c = (c.catalog_job_info, c.tags_job_info)

module _ {D J : Type 0} (db : Database D) (f : Format J) (e : EventListener) where
  -- `viewPurgeLog`
  unfoldable pub view_purge_log : WebConfig → Text → D → PurgeLogPage × D
  view_purge_log web user s =
      let (runs, s') = get_purge_runs db f e (pos 100) s in
      (record { permissions = set_user_permissions web user; purge_runs = runs }, s')

  -- `viewStatistics`, for the value of `purge_tags.cron`.
  unfoldable pub view_statistics : WebConfig → Text → Text → Client → D → StatisticsPage × D
  view_statistics web cron user c s =
      let (event_count, s') = get_event_count db f e s in
      let (catalog_job_info, tags_job_info) = get_job_info c in
      let (latest, s'') = get_latest_purge_run db f e s' in
      (
        record {
          permissions = set_user_permissions web user;
          is_catalog_ready = c.is_catalog_ready;
          repo_count = length c.repos;
          tag_count = get_total_tag_count c.tags_cache;
          event_count = event_count;
          top_repos = get_top_repos_by_tag_count 10 c.tags_cache;
          catalog_job_info = catalog_job_info;
          tags_job_info = tags_job_info;
          latest_purge_run = latest;
          purge_cron_expr = cron;
        },
        s'',
      )

  -- `receiveEvents`, for the body of the request.
  unfoldable pub receive_events : Text → Handler (Response × D)
  receive_events body (r, s) =
      let (x, s') = process_events db f e body s in
      elim x [
        | returned ↦
            (finished none, (record { status = 200; body = codes "OK"; is_committed = true }, s'))
        | panicked ↦ (panicking, (r, s'))
      ]

  Ending-cases : (x : Ending) → (x ≡ returned) ⊎ (x ≡ panicked)
  Ending-cases returned = inl refl
  Ending-cases panicked = inr refl

  -- Whatever the body of a notification is, and whatever becomes of its events, the receiver reports
  -- no error to the framework, and the status of the response is 200: its text is `OK`, or nothing
  -- where the listener has panicked.
  pub receive_events_acknowledges :
      (on_error : Text → Response × D → Response × D) (uri body : Text) (s : D)
      → let answer = with_middleware on_error uri (receive_events body) (new_response, s) in
        (answer.0 ≡ finished none)
        × (answer.1.0.status ≡ 200)
        × (answer.1.1 ≡ (process_events db f e body s).1)
        × ((((process_events db f e body s).0 ≡ returned) × (answer.1.0.body ≡ codes "OK"))
            ⊎ (((process_events db f e body s).0 ≡ panicked) × (answer.1.0.body ≡ [])))
  unfolding receive_events
  receive_events_acknowledges on_error uri body s =
      elim (Ending-cases (process_events db f e body s).0) [
        | inl x ↦
            let served =
              with_middleware_finished on_error uri (receive_events body) (new_response, s)
                (
                  record { status = 200; body = codes "OK"; is_committed = true },
                  (process_events db f e body s).1,
                )
                (rw (x, receive_events) refl) in
            rw served (refl, refl, refl, inl (x, refl))
        | inr x ↦
            let served =
              with_middleware_panicking on_error uri (receive_events body) (new_response, s)
                (new_response, (process_events db f e body s).1) (rw (x, receive_events) refl) in
            rw served (refl, refl, refl, inr (x, refl))
      ]
