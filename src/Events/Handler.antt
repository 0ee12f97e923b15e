-- ===== src/Events/Handler.antt =====
-- events/event_listener.go: `NewEventListener` and `getDatabaseHandler`.
use mathlib.Core.Bool.{Bool, ◌&&◌, not}
use mathlib.Core.Option.{Option, none, some}
use mathlib.Core.List.{[], ◌++◌}
use registry_ui.Base.Tests.{if◌then◌else◌}
use registry_ui.Base.Int.{ℤ}
use registry_ui.Base.Text.{Text, codes, text_eq, is_empty}
use registry_ui.Events.{EventListener, Database, Format}
use registry_ui.Events.Statements.{schema_sqlite, schema_purge_runs_sqlite, schema_for}

-- `NewEventListener`, for the values of the configuration. `none` is the panic for another driver.
unfoldable pub new_event_listener : Text → Text → ℤ → Bool → Option EventListener
new_event_listener driver location retention deletion =
    if not (text_eq driver (codes "sqlite3")) && not (text_eq driver (codes "mysql"))
    then none
    else some (record {
      database_driver = driver;
      database_location = location;
      retention = retention;
      event_deletion = deletion;
    })

module _ {D J : Type 0} (db : Database D) (f : Format J) (e : EventListener) where
  -- A missing directory of the file of SQLite is made; an error of that is dropped.
  unfoldable pub make_directory : D → D
  make_directory s =
      let dir = f.dir e.database_location in
      if text_eq e.database_driver (codes "sqlite3") && db.is_missing e.database_location s
      then if not (is_empty dir) && not (text_eq dir (codes ".")) then db.mkdir_all dir s else s
      else s

  -- `db.Exec(schema)` and `db.Exec(purgeSchema)`.
  unfoldable pub create_purge_runs : Option Text × D → Option Text × D
  create_purge_runs (some x, s) = (some (codes "Error creating purge_runs table: " ++ x), s)
  create_purge_runs (none, s) = (none, s)

  unfoldable pub create_events : Option Text × D → Option Text × D
  create_events (some x, s) = (some (codes "Error creating events table: " ++ x), s)
  create_events (none, s) = create_purge_runs (db.exec (schema_for e schema_purge_runs_sqlite) [] s)

  unfoldable pub opened_db : Option Text × D → Option Text × D
  opened_db (some x, s) =
      (some (codes "Error opening " ++ e.database_driver ++ codes " db: " ++ x), s)
  opened_db (none, s) = create_events (db.exec (schema_for e schema_sqlite) [] s)

  -- `getDatabaseHandler`: its error, where it has one.
  unfoldable pub get_database_handler : D → Option Text × D
  unfolding make_directory create_purge_runs create_events opened_db
  get_database_handler s =
      opened_db (db.open_db e.database_driver e.database_location (make_directory s))
