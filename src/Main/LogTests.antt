-- ===== src/Main/LogTests.antt =====
-- A purge of a small registry, recorded in the database in memory.
use mathlib.Core.Path.{◌≡◌, refl, ap}
use mathlib.Core.Option.{none, some}
use mathlib.Core.Bool.{false}
use mathlib.Core.List.{[], ◌∷◌}
use registry_ui.Base.Lists.{filter_by}
use registry_ui.Base.Int.{pos}
use registry_ui.Base.Text.{codes, text_eq, join}
use registry_ui.Purge.Summary.{Json, summary_json}
use registry_ui.Purge.Tests.{client, env, deleted_old, run_notes, one_call}
use registry_ui.Events.{Format}
use registry_ui.Events.Statements.{
  insert_event, delete_old, days_value, insert_purge_run, select_purge_runs, now_for, is_mysql,
  schema_for, schema_sqlite, schema_purge_runs_sqlite,
}
use registry_ui.Events.Handler.{get_database_handler}
use registry_ui.Events.Log.{run_values, prepare_exec, expire_runs, record_purge_run}
use registry_ui.Events.Table.{run_row, read_run}
use registry_ui.Events.Memory.{
  Memory, Event, memory_db, memory_format, memory_listener, memory_view, memory-IsSql,
}
use registry_ui.Purge.Calls.{noting}
use registry_ui.Main.{recorded, purge_and_record}
use registry_ui.Main.Logged.{IsLogged, purge_and_record-IsLogged}

abbrev json : Json
json repositories = none

abbrev empty : Memory
empty = record { tables = record { events = []; purge_runs = [] }; room = 1 }

abbrev format : Format Event
format = memory_format []

abbrev logged : Memory
logged = (record_purge_run memory_db format memory_listener (pos 30) json deleted_old empty).1

log_run : Unit {0}
unfolding memory_db run_values prepare_exec expire_runs record_purge_run get_database_handler
    insert_event delete_old days_value insert_purge_run select_purge_runs now_for is_mysql
    schema_for schema_sqlite schema_purge_runs_sqlite text_eq filter_by join summary_json recorded
    purge_and_record
log_run = tt

recorded_old :
    purge_and_record
      (noting client)
      env
      memory_db
      format
      memory_listener
      json
      (pos 30)
      false
      []
      []
      (([], []), empty)
    ≡ some ((deleted_old, none), ((codes "app:old" ∷ [], one_call), logged))
unfolding log_run
recorded_old =
    ap (λ o. recorded (noting client) env memory_db format memory_listener json (pos 30) o empty)
      run_notes

purge_and_record-IsLogged_example : IsLogged memory_db format memory_listener one_call logged
unfolding log_run
purge_and_record-IsLogged_example =
    purge_and_record-IsLogged client env memory_db format memory_listener memory_view json (pos 30)
      (memory-IsSql [] json) [] [] [] empty deleted_old (codes "app:old" ∷ []) one_call logged
      (read_run memory_view.read_time (run_row format json 7 (codes "now") deleted_old) ∷ [])
      recorded_old refl refl
