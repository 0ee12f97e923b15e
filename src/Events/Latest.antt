-- ===== src/Events/Latest.antt =====
-- events/event_listener.go: `GetLatestPurgeRun` behind `RecordPurgeRun`.
use Prim.Native.Nat.{ℕ}
use mathlib.Core.Path.{◌≡◌, ap, ◌∙◌}
use mathlib.Core.Option.{Option, none, some}
use mathlib.Core.List.{List, [], ◌∷◌, ◌++◌, reverse, reverse-append, head?, map}
use native.Mathlib.Omega.{arith}
use registry_ui.Base.Lists.{take}
use registry_ui.Base.Int.{ℤ, pos}
use registry_ui.Base.Text.{Text}
use registry_ui.Image.{ok}
use registry_ui.Purge.{PurgeRunResult}
use registry_ui.Purge.Summary.{Json}
use registry_ui.Events.{EventListener, PurgeRunRow, Database, Format}
use registry_ui.Events.Statements.{select_purge_runs}
use registry_ui.Events.Handler.{get_database_handler}
use registry_ui.Events.Log.{record_purge_run, get_purge_runs, get_latest_purge_run}
use registry_ui.Events.Table.{Tables, View, run_row, read_run, IsSql}
use registry_ui.Events.Recorded.{
  Recorded, not_stored, stored, stored_not_removed, stored_removed, unexpired,
  record_purge_run-Recorded,
}
use registry_ui.Events.Opening.{get_database_handler_keeps}

module _ {D J : Type 0} (db : Database D) (f : Format J) (e : EventListener) (v : View D)
    (json : Json) (sql : IsSql db f e v json) (days : ℤ) (run : PurgeRunResult) where
  -- The last row of the runs is that of the run, when there is no error.
  Recorded-last :
      (old : Tables) (x : Option Text) (s' : D)
      → Recorded db f e v json days run old x s'
      → x ≡ none
      → (front : List PurgeRunRow) × (id : ℕ) × (created : Text) × ((v.tables s').purge_runs
          ≡ front ++ run_row f json id created run ∷ [])
  Recorded-last old (some _) s' (not_stored y _ h) done = absurd (ground arith)
  Recorded-last old (some _) s' (stored_not_removed y id created _ on h) done =
      absurd (ground arith)
  Recorded-last old none s' (stored id created _ off h) done =
      (old.purge_runs, id, created, ap (λ (t : Tables). t.purge_runs) h)
  Recorded-last old none s' (stored_removed t id created _ on k h) done = (
    unexpired db f e v json t days old.purge_runs,
    id,
    created,
    ap (λ (t : Tables). t.purge_runs) h,
  )

  first_run_of :
      (s : D) (rows : List PurgeRunRow)
      → (get_database_handler db f e s).0 ≡ none
      → db.query_purge_runs (select_purge_runs f (pos 1)) (get_database_handler db f e s).1
        ≡ ok rows
      → (get_latest_purge_run db f e s).0
        ≡ head? (map (read_run v.read_time) (take 1 (reverse (v.tables s).purge_runs)))
  unfolding get_latest_purge_run get_purge_runs
  first_run_of s rows x q =
      rw (x, q, get_purge_runs, get_latest_purge_run)
        (ap head? (
          sql.selecting_run (get_database_handler db f e s).1 rows q
          ∙ ap (λ (t : Tables). map (read_run v.read_time) (take 1 (reverse t.purge_runs)))
              (get_database_handler_keeps db f e v json sql s)))

  -- A run that has been recorded without an error is the latest run, when the database can be
  -- opened and asked for it; its times are given as the database reads them.
  pub get_latest_purge_run-record_purge_run :
      (s : D) (rows : List PurgeRunRow)
      → let s' = (record_purge_run db f e days json run s).1 in
        (record_purge_run db f e days json run s).0 ≡ none
        → (get_database_handler db f e s').0 ≡ none
        → db.query_purge_runs (select_purge_runs f (pos 1)) (get_database_handler db f e s').1
          ≡ ok rows
        → (id : ℕ) × (created : Text) × ((get_latest_purge_run db f e s').0
            ≡ some (read_run v.read_time (run_row f json id created run)))
  get_latest_purge_run-record_purge_run s rows done x q =
      let result = record_purge_run db f e days json run s in
      let (front, id, created, last) =
        Recorded-last (v.tables s) result.0 result.1
          (record_purge_run-Recorded db f e v json sql days run s) done in
      let row = run_row f json id created run in
      (
        id,
        created,
        first_run_of result.1 rows x q
            ∙ ap (λ l. head? (map (read_run v.read_time) (take 1 (reverse l)))) last
            ∙ ap (λ l. head? (map (read_run v.read_time) (take 1 l)))
                (reverse-append front (row ∷ [])),
      )
