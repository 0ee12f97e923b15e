-- ===== src/Main/Logged.antt =====
-- main.go: what the purge log shows of a purge that has been run from the command line.
use mathlib.Core.Path.{◌≡◌, sym, ap, subst, ◌∙◌}
use mathlib.Core.Bool.{true, false}
use mathlib.Core.Option.{Option, none, some}
use mathlib.Core.List.{List, []}
use native.Mathlib.Omega.{arith}
use registry_ui.Base.Lists.{length}
use registry_ui.Base.Int.{ℤ, pos}
use registry_ui.Base.Text.{Text}
use registry_ui.Base.Map.{get_or}
use registry_ui.Image.{ok}
use registry_ui.Purge.{PurgeClient, PurgeRunResult, Env}
use registry_ui.Purge.Run.{run_purge_old_tags}
use registry_ui.Purge.Calls.{Deletion, noting, successes}
use registry_ui.Purge.Attempts.{run-IsCarriedOut}
use registry_ui.Purge.Summary.{Json}
use registry_ui.Events.{EventListener, PurgeRunRow, Database, Format}
use registry_ui.Events.Statements.{select_purge_runs}
use registry_ui.Events.Handler.{get_database_handler}
use registry_ui.Events.Log.{record_purge_run, get_latest_purge_run}
use registry_ui.Events.Table.{View, run_row, read_run, IsSql}
use registry_ui.Events.Latest.{get_latest_purge_run-record_purge_run}
use registry_ui.Main.{recorded, purge_and_record}

-- The newest row of the log is that of a run with these calls of `DeleteTag`: it has as many candidates
-- as there were calls, and as many deleted tags as calls that returned no error, and where it reports
-- success, these are all.
pub record IsLogged {D J : Type 0} (db : Database D) (f : Format J) (e : EventListener)
    (calls : List Deletion) (d : D) : Type 0 where
  pub row : PurgeRunRow
  pub is_latest : (get_latest_purge_run db f e d).0 ≡ some row
  pub candidates : row.candidate_tag_count ≡ length calls
  pub deleted : row.deleted_tag_count ≡ successes calls
  pub all_succeed : row.success ≡ true → successes calls ≡ length calls

module _ {S D J : Type 0} (c : PurgeClient S) (env : Env) (db : Database D) (f : Format J)
    (e : EventListener) (v : View D) (json : Json) (log_retention : ℤ) where
  run_of :
      (o : Option (PurgeRunResult × S)) (d : D) (r : PurgeRunResult) (t : S) (d' : D)
      → recorded c env db f e json log_retention o d ≡ some ((r, none), (t, d'))
      → (o ≡ some (r, t)) × (record_purge_run db f e log_retention json r d ≡ (none, d'))
  unfolding recorded
  run_of none d r t d' h = absurd (ground arith)
  run_of (some (run, s)) d r t d' h =
      let both : ◌≡◌ {A = (PurgeRunResult × Option Text) × (S × D)}
          (
            (run, (record_purge_run db f e log_retention json run d).0),
            (s, (record_purge_run db f e log_retention json run d).1),
          )
          ((r, none), (t, d')) =
        ap (λ o. get_or o ((r, none), (t, d'))) h in
      let same_run : run ≡ r = ap (λ p. p.0.0) both in
      (
        ap (λ p. some (p.0.0, p.1.0)) both,
        subst (λ run'. record_purge_run db f e log_retention json run' d ≡ (none, d')) same_run
            (ap (λ p. (p.0.1, p.1.1)) both),
      )

module _ {S D J : Type 0} (c : PurgeClient S) (env : Env) (db : Database D) (f : Format J)
    (e : EventListener) (v : View D) (json : Json) (log_retention : ℤ) where
  -- When a purge that is not dry has been run from the command line and recorded without an error, and
  -- the database can be opened and asked, the newest row of the log has as many candidates as the run
  -- has called `DeleteTag`, and as many deleted tags as these calls returned no error; if it reports
  -- success, none of the calls has failed.
  pub purge_and_record-IsLogged :
      (sql : IsSql db f e v json) (include excluded : Text) (s : S) (d : D) (r : PurgeRunResult)
      (t : S) (calls : List Deletion) (d' : D) (rows : List PurgeRunRow)
      → purge_and_record
          (noting c)
          env
          db
          f
          e
          json
          log_retention
          false
          include
          excluded
          ((s, []), d)
        ≡ some ((r, none), ((t, calls), d'))
      → (get_database_handler db f e d').0 ≡ none
      → db.query_purge_runs (select_purge_runs f (pos 1)) (get_database_handler db f e d').1
        ≡ ok rows
      → IsLogged db f e calls d'
  unfolding purge_and_record
  purge_and_record-IsLogged sql include excluded s d r t calls d' rows h opened asked =
      let (ran, logged) =
        run_of (noting c) env db f e v json log_retention
          (run_purge_old_tags (noting c) env false include excluded (s, [])) d r (t, calls) d' h in
      let last : (record_purge_run db f e log_retention json r d).1 ≡ d' = ap (λ p. p.1) logged in
      let (id, created, latest) =
        get_latest_purge_run-record_purge_run db f e v json sql log_retention r d rows
          (ap (λ p. p.0) logged)
          (subst (λ u. (get_database_handler db f e u).0 ≡ none) (sym last) opened)
          (subst
            (λ u.
              db.query_purge_runs (select_purge_runs f (pos 1)) (get_database_handler db f e u).1
              ≡ ok rows)
            (sym last) asked) in
      let done = run-IsCarriedOut c env include excluded s r t calls ran in
      record {
        row = read_run v.read_time (run_row f json id created r);
        is_latest = ap (λ u. (get_latest_purge_run db f e u).0) (sym last) ∙ latest;
        candidates = sym done.no_other;
        deleted = done.deleted;
        all_succeed = done.all_succeed;
      }
