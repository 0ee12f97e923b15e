-- ===== src/Events/Opening.antt =====
-- events/event_listener.go: `getDatabaseHandler` leaves the tables as they are.
use mathlib.Core.Path.{◌≡◌, refl, ◌∙◌}
use mathlib.Core.Option.{Option, none, some}
use mathlib.Core.List.{[]}
use native.Mathlib.Omega.{arith}
use registry_ui.Base.Text.{Text}
use registry_ui.Purge.Summary.{Json}
use registry_ui.Events.{EventListener, Database, Format}
use registry_ui.Events.Statements.{schema_sqlite, schema_purge_runs_sqlite, schema_for}
use registry_ui.Events.Handler.{
  make_directory, create_purge_runs, create_events, opened_db, get_database_handler,
}
use registry_ui.Events.Table.{View, IsSql}

module _ {D J : Type 0} (db : Database D) (f : Format J) (e : EventListener) (v : View D)
    (json : Json) (sql : IsSql db f e v json) where
  make_directory_keeps : (s : D) → v.tables (make_directory db f e s) ≡ v.tables s
  unfolding make_directory
  make_directory_keeps s = let kept = sql.making (f.dir e.database_location) s in ground arith

  create_purge_runs_keeps :
      (r : Option Text × D) → v.tables (create_purge_runs db f e r).1 ≡ v.tables r.1
  unfolding create_purge_runs
  create_purge_runs_keeps (some x, s) = refl
  create_purge_runs_keeps (none, s) = refl

  create_events_keeps : (r : Option Text × D) → v.tables (create_events db f e r).1 ≡ v.tables r.1
  unfolding create_events
  create_events_keeps (some x, s) = refl
  create_events_keeps (none, s) =
      create_purge_runs_keeps (db.exec (schema_for e schema_purge_runs_sqlite) [] s)
      ∙ sql.runs_schema s

  opened_db_keeps : (r : Option Text × D) → v.tables (opened_db db f e r).1 ≡ v.tables r.1
  unfolding opened_db
  opened_db_keeps (some x, s) = refl
  opened_db_keeps (none, s) =
      create_events_keeps (db.exec (schema_for e schema_sqlite) [] s) ∙ sql.events_schema s

  -- Opening the database changes neither table.
  pub get_database_handler_keeps : (s : D) → v.tables (get_database_handler db f e s).1 ≡ v.tables s
  unfolding get_database_handler
  get_database_handler_keeps s =
      opened_db_keeps (db.open_db e.database_driver e.database_location (make_directory db f e s))
      ∙ (sql.opening e.database_driver e.database_location (make_directory db f e s)
          ∙ make_directory_keeps s)
