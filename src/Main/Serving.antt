-- ===== src/Main/Serving.antt =====
-- main.go: the running program: requests, the background rounds, and scheduled purges between whose
-- calls all of these go on.
pub mod Kept
pub mod Purged
pub mod Quiet
pub mod Sound
pub mod Gate
pub mod Finishing
pub mod Reported
pub mod Logins
pub mod Locked
mod Example
mod Tests
mod LoginTests
mod DeletionTests
use Prim.Native.Nat.{ℕ}
use mathlib.Core.Bool.{Bool}
use mathlib.Core.Option.{Option, none, some}
use mathlib.Core.List.{List, [], ◌∷◌}
use registry_ui.Base.Text.{Text}
use registry_ui.Base.Map.{get_or}
use registry_ui.Client.{JobInfo, Client}
use registry_ui.Client.Cache.{refresh_catalog, refresh_tags}
use registry_ui.Client.Delete.{purge_client}
use registry_ui.Events.Log.{record_purge_run}
use registry_ui.Purge.{PurgeClient, PurgeRunResult, Env}
use registry_ui.Purge.Interrupted.{interrupted}
use registry_ui.Purge.Run.{run_purge_old_tags}
use registry_ui.Main.Requests.{App, Server, Request, world, with_world, serve}

-- What happens in the running program beside the purges: a request, a round of one of the two
-- background jobs, or something that others do to the registry.
pub data Activity (X : Type 0) : Type 0 where
  request : Request → Activity X
  catalog_round : JobInfo → Activity X
  tags_round : JobInfo → Activity X
  elsewhere : X → Activity X

-- A call of the function that is given to `StartPurgeScheduler`, with what happens in the meantime:
-- a list of activities behind each call of the client, and what is left behind the last.
pub record Purging (X : Type 0) : Type 0 where
  pub job : JobInfo
  pub env : Env
  pub dry_run : Bool
  pub meantime : List (List (Activity X))

-- The scheduler runs one purge at a time.
pub data Happening (X : Type 0) : Type 0 where
  alone : Activity X → Happening X
  purge : Purging X → Happening X

unfoldable pub put_back : {W S : Type 0} → (W → S → S) → Option W → S → Option S
put_back put none s = none
put_back put (some w) s = some (put w s)

-- The client as the part of a larger state `S`.
unfoldable pub within : {W S : Type 0} → (S → W) → (W → S → S) → PurgeClient W → PurgeClient S
unfolding put_back
within get put c = record {
  refresh_catalog = λ s. put_back put (c.refresh_catalog (get s)) s;
  get_repos = λ s. c.get_repos (get s);
  fetch_and_cache_tags_for_repo =
      λ repo s. let (tags, w) = c.fetch_and_cache_tags_for_repo repo (get s) in (tags, put w s);
  get_image_info = λ ref s. let (info, w) = c.get_image_info ref (get s) in (info, put w s);
  delete_tag = λ repo tag s. let (e, w) = c.delete_tag repo tag (get s) in (e, put w s);
}

module _ {R D J V X : Type 0} (app : App R D J V X) where
  -- Where a refresh ends the process, nothing happens any more: the state stays.
  unfoldable pub act : Activity X → Server R D → Server R D
  act (request r) s = (serve app r s).1
  act (catalog_round job) s =
      with_world (get_or (refresh_catalog app.remote job (world s)) (world s)) s
  act (tags_round job) s = with_world (refresh_tags app.remote app.client_config job (world s)) s
  act (elsewhere x) s = record s { registry = app.change x s.registry }

  unfoldable pub act_all : List (Activity X) → Server R D → Server R D
  act_all [] s = s
  act_all (a ∷ activities) s = act_all activities (act a s)

  unfoldable pub act_each : List (List (Activity X)) → Server R D → Server R D
  unfolding act_all
  act_each [] s = s
  act_each (activities ∷ meantime) s = act_each meantime (act_all activities s)

  -- The client of a scheduled purge, in the running program.
  abbrev pub busy_client : JobInfo → PurgeClient (Server R D × List (List (Activity X)))
  busy_client job =
      interrupted act_all (within world with_world (purge_client app.remote app.client_config job))

  unfoldable pub run_recorded :
      Option (PurgeRunResult × (Server R D × List (List (Activity X)))) → Server R D → Server R D
  run_recorded none before = before
  run_recorded (some (run, (s, rest))) before =
      let s' = act_each rest s in
      let (e, d) =
        record_purge_run app.db app.format app.listener app.log_retention app.json run
          s'.database in
      record s' { database = d }

  -- The function that the scheduler runs.
  unfoldable pub purge_between : Purging X → Server R D → Server R D
  unfolding run_recorded
  purge_between p s =
      run_recorded (run_purge_old_tags (busy_client p.job) p.env p.dry_run [] [] (s, p.meantime)) s

  unfoldable pub happen : Happening X → Server R D → Server R D
  unfolding purge_between
  happen (alone a) s = act a s
  happen (purge p) s = purge_between p s

  -- The state behind a sequence of events.
  unfoldable pub history : List (Happening X) → Server R D → Server R D
  history [] s = s
  history (event ∷ events) s = history events (happen event s)
