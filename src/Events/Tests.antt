-- ===== src/Events/Tests.antt =====
-- Requests and runs on the database in memory, and each theorem at a concrete input.
use Prim.Native.Nat.{ℕ}
use mathlib.Core.Path.{◌≡◌, refl}
use mathlib.Core.Bool.{true, false}
use mathlib.Core.Option.{none, some}
use mathlib.Core.List.{List, [], ◌∷◌, map}
use registry_ui.Base.Lists.{filter_by}
use registry_ui.Base.Int.{pos}
use registry_ui.Base.Text.{Text, codes, text_eq, has_prefix, join}
use registry_ui.Purge.{PurgeRunResult}
use registry_ui.Purge.Summary.{Json, summary_json}
use registry_ui.Events.{EventRow, Format}
use registry_ui.Events.Statements.{
  insert_event, delete_old, days_value, insert_purge_run, select_purge_runs, now_for, is_mysql,
  schema_for, schema_sqlite, schema_purge_runs_sqlite,
}
use registry_ui.Events.Handler.{get_database_handler, new_event_listener}
use registry_ui.Events.Receive.{
  is_own, event_data, event_values, is_prepared, purge_old, after_events, store_events,
  process_events, get_events, get_event_count,
}
use registry_ui.Events.Log.{
  run_values, prepare_exec, expire_runs, record_purge_run, get_purge_runs, get_latest_purge_run,
}
use registry_ui.Events.Table.{event_row, run_row, read_run}
use registry_ui.Events.Stored.{IsStored}
use registry_ui.Events.Storing.{process_events-IsStored}
use registry_ui.Events.Recorded.{Recorded, record_purge_run-Recorded}
use registry_ui.Events.Latest.{get_latest_purge_run-record_purge_run}
use registry_ui.Events.Memory.{
  Memory, Event, memory_db, memory_format, memory_listener, memory_view, memory-IsSql,
}

abbrev event : Text → Text → Event
event agent tag = record {
  agent = agent;
  action = codes "push";
  repository = codes "app";
  tag = tag;
}

-- The second event comes from registry-ui itself.
abbrev request : List Event
request =
    event (codes "docker") (codes "v1")
    ∷ event (codes "registry-ui/1") (codes "v2")
    ∷ event (codes "docker") (codes "v3")
    ∷ []

abbrev old_row : Text → EventRow
old_row created = event_row 1 created (record {
  action = codes "pull";
  repository = codes "app";
  tag = codes "v0";
  ip = [];
  user = [];
})

abbrev start : ℕ → Memory
start room = record {
  tables = record { events = old_row (codes "old") ∷ old_row (codes "new") ∷ []; purge_runs = [] };
  room = room;
}

abbrev run : PurgeRunResult
run = record {
  started_at = 5;
  finished_at = 7;
  success = true;
  dry_run = false;
  cron_expr = codes "0 3 * * *";
  repo_count = 1;
  candidate_tag_count = 2;
  deleted_tag_count = 2;
  estimated_freed_bytes = 10;
  repositories = [];
  errors = [];
}

abbrev json : Json
json repositories = none

events_run : Unit {0}
unfolding memory_db is_own event_data event_values is_prepared purge_old after_events store_events
    process_events get_events get_event_count run_values prepare_exec expire_runs record_purge_run
    get_purge_runs get_latest_purge_run get_database_handler insert_event delete_old days_value
    insert_purge_run select_purge_runs now_for is_mysql schema_for schema_sqlite
    schema_purge_runs_sqlite has_prefix text_eq filter_by join summary_json
events_run = tt

abbrev format : Format Event
format = memory_format request

abbrev tags_of : List EventRow → List Text
tags_of rows = map (λ r. r.tag) rows

-- With room for all events, the old row is removed and the events are added.
process_all :
    tags_of (process_events memory_db format memory_listener [] (start 5)).1.tables.events
    ≡ codes "v0" ∷ codes "v1" ∷ codes "v3" ∷ []
unfolding events_run
process_all = refl

-- With room for one event, the second is lost, and nothing is removed.
process_one :
    tags_of (process_events memory_db format memory_listener [] (start 1)).1.tables.events
    ≡ codes "v0" ∷ codes "v0" ∷ codes "v1" ∷ []
unfolding events_run
process_one = refl

-- A driver that is neither of the two is refused.
new_event_listener_other : new_event_listener (codes "postgres") [] (pos 1) true ≡ none
unfolding new_event_listener text_eq
new_event_listener_other = refl

process_events-IsStored_example :
    IsStored memory_db format memory_listener memory_view
      (start 1).tables
      request
      (process_events memory_db format memory_listener [] (start 1)).1
process_events-IsStored_example =
    process_events-IsStored memory_db format memory_listener memory_view json
      (memory-IsSql request json) [] request (start 1) refl

record_purge_run-Recorded_example :
    Recorded memory_db format memory_listener memory_view json
      (pos 30)
      run
      (start 1).tables
      (record_purge_run memory_db format memory_listener (pos 30) json run (start 1)).0
      (record_purge_run memory_db format memory_listener (pos 30) json run (start 1)).1
record_purge_run-Recorded_example =
    record_purge_run-Recorded memory_db format memory_listener memory_view json
      (memory-IsSql request json) (pos 30) run (start 1)

get_latest_purge_run-record_purge_run_example :
    (id : ℕ) × (created : Text) × ((get_latest_purge_run memory_db format memory_listener
        (record_purge_run memory_db format memory_listener (pos 30) json run (start 1)).1).0
      ≡ some (read_run memory_view.read_time (run_row format json id created run)))
unfolding events_run
get_latest_purge_run-record_purge_run_example =
    get_latest_purge_run-record_purge_run memory_db format memory_listener memory_view json
      (memory-IsSql request json) (pos 30) run (start 1)
      (read_run memory_view.read_time (run_row format json 7 (codes "now") run) ∷ []) refl refl refl
