-- ===== src/Events/Log.antt =====
-- events/event_listener.go: `RecordPurgeRun`, `GetPurgeRuns` and `GetLatestPurgeRun`.
use mathlib.Core.Option.{Option, none, some}
use mathlib.Core.List.{List, [], ◌∷◌, head?}
use registry_ui.Base.Tests.{if◌then◌else◌}
use registry_ui.Base.Int.{ℤ, pos, lez}
use registry_ui.Base.Text.{Text, codes, join}
use registry_ui.Image.{Result, ok, err}
use registry_ui.Purge.{PurgeRunResult}
use registry_ui.Purge.Summary.{Json, summary_json}
use registry_ui.Events.{EventListener, PurgeRunRow, Value, text, count, flag, Database, Format}
use registry_ui.Events.Statements.{
  insert_purge_run, delete_old, days_value, purge_runs_table, select_purge_runs,
}
use registry_ui.Events.Handler.{get_database_handler}

-- The values of the statement that inserts a run.
unfoldable pub run_values : {J : Type 0} → Format J → Json → PurgeRunResult → List Value
run_values f json run =
    text (f.print_time run.started_at)
    ∷ text (f.print_time run.finished_at)
    ∷ flag run.success
    ∷ flag run.dry_run
    ∷ text run.cron_expr
    ∷ count run.repo_count
    ∷ count run.candidate_tag_count
    ∷ count run.deleted_tag_count
    ∷ count run.estimated_freed_bytes
    ∷ text (summary_json json run)
    ∷ text (join run.errors (codes "\n"))
    ∷ []

module _ {D J : Type 0} (db : Database D) (f : Format J) (e : EventListener) where
  -- A statement that is prepared and run, with the error of either.
  unfoldable pub prepare_exec : Text → List Value → D → Option Text × D
  prepare_exec statement values s =
      let result = db.exec statement values s in
      elim (db.prepare statement s) [ some y ↦ (some y, s) | none ↦ result ]

  -- The removal of old runs; `retention` is `purge_tags.log_retention_days`.
  unfoldable pub expire_runs : ℤ → D → Option Text × D
  unfolding prepare_exec
  expire_runs retention s =
      if lez retention (pos 0)
      then (none, s)
      else prepare_exec (delete_old e purge_runs_table) (days_value f e retention ∷ []) s

  -- `RecordPurgeRun`
  unfoldable pub record_purge_run : ℤ → Json → PurgeRunResult → D → Option Text × D
  unfolding expire_runs
  record_purge_run retention json run s =
      let (x, s') = get_database_handler db f e s in
      elim x [
        | some y ↦ (some y, s')
        | none ↦
            let (x', s'') = prepare_exec (insert_purge_run e) (run_values f json run) s' in
            elim x' [ some y ↦ (some y, s'') | none ↦ expire_runs retention s'' ]
      ]

  runs_or_none : Result (List PurgeRunRow) → List PurgeRunRow
  runs_or_none (err x) = []
  runs_or_none (ok rows) = rows

  -- `GetPurgeRuns`
  unfoldable pub get_purge_runs : ℤ → D → List PurgeRunRow × D
  unfolding runs_or_none
  get_purge_runs limit s =
      let limit' = if lez limit (pos 0) then pos 50 else limit in
      let (x, s') = get_database_handler db f e s in
      elim x [
        | some y ↦ ([], s')
        | none ↦ (runs_or_none (db.query_purge_runs (select_purge_runs f limit') s'), s')
      ]

  -- `GetLatestPurgeRun`
  unfoldable pub get_latest_purge_run : D → Option PurgeRunRow × D
  get_latest_purge_run s = let (runs, s') = get_purge_runs (pos 1) s in (head? runs, s')
