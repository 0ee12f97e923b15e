-- ===== src/Events/Memory.antt =====
-- A database in memory, for which the assumptions about the library hold: an instance for the
-- listener of events/event_listener.go.
use Prim.Native.Nat.{ℕ, zero, suc}
use mathlib.Core.Path.{◌≡◌, refl}
use mathlib.Core.Bool.{Bool, true, false, not}
use mathlib.Core.Option.{Option, none, some}
use mathlib.Core.List.{List, [], ◌∷◌, ◌++◌, map, reverse}
use native.Mathlib.Omega.{arith}
use registry_ui.Base.Tests.{if◌then◌else◌}
use registry_ui.Base.Lists.{filter_by, take}
use registry_ui.Base.Int.{pos}
use registry_ui.Base.Text.{Text, codes, text_eq}
use registry_ui.Image.{ok}
use registry_ui.Purge.Summary.{Json}
use registry_ui.Events.{EventListener, PurgeRunRow, Value, text, count, flag, Database, Format}
use registry_ui.Events.Statements.{
  insert_event, delete_old, days_value, events_table, purge_runs_table, insert_purge_run,
  select_purge_runs, now_for, is_mysql, schema_for, schema_sqlite, schema_purge_runs_sqlite,
}
use registry_ui.Events.Receive.{EventData, event_values}
use registry_ui.Events.Log.{run_values}
use registry_ui.Events.Table.{Tables, View, event_row, read_run, IsSql}

-- The state: the tables, and for how many more events there is room.
pub record Memory : Type 0 where
  pub tables : Tables
  pub room : ℕ

-- An event is its agent, its action, its repository and its tag.
pub record Event : Type 0 where
  pub agent : Text
  pub action : Text
  pub repository : Text
  pub tag : Text

abbrev pub memory_view : View Memory
memory_view = record {
  tables = λ s. s.tables;
  next_id = λ s. 7;
  stamp = λ s. codes "now";
  is_expired = λ s days created. text_eq created (codes "old");
  read_time = λ t. t ++ codes "Z";
}

abbrev pub get_event : Event → Text → Text
get_event i path =
    if text_eq path (codes "request.useragent")
    then i.agent
    else if text_eq path (codes "action")
    then i.action
    else if text_eq path (codes "target.repository")
    then i.repository
    else if text_eq path (codes "target.tag")
    then i.tag
    else []

-- The body of a request is decoded to the events that are given.
abbrev pub memory_format : List Event → Format Event
memory_format events = record {
  decode = λ body. some events;
  get = get_event;
  split_host = λ addr. [];
  dir = λ path. codes ".";
  print_int = λ n. codes "1";
  print_time = λ t. codes "t";
}

abbrev pub memory_listener : EventListener
memory_listener = record {
  database_driver = codes "sqlite3";
  database_location = codes "data.db";
  retention = pos 1;
  event_deletion = true;
}

insert_event_row : List Value → Tables → ℕ → Option Text × Memory
insert_event_row (text a ∷ text r ∷ text t ∷ text i ∷ text u ∷ []) tables (suc room) =
    let event : EventData = record { action = a; repository = r; tag = t; ip = i; user = u } in
    (
      none,
      record {
        tables = record tables { events = tables.events ++ event_row 7 (codes "now") event ∷ [] };
        room = room;
      },
    )
insert_event_row values tables room = (some (codes "full"), record { tables = tables; room = room })

insert_run_row : List Value → Memory → Option Text × Memory
insert_run_row
      (text start
        ∷ text finish
        ∷ flag success
        ∷ flag dry
        ∷ text cron
        ∷ count repos
        ∷ count found
        ∷ count deleted
        ∷ count bytes
        ∷ text summary
        ∷ text message
        ∷ [])
      s =
    let row : PurgeRunRow = record {
      id = 7;
      started_at = start;
      finished_at = finish;
      success = success;
      dry_run = dry;
      cron_expr = cron;
      repo_count = repos;
      candidate_tag_count = found;
      deleted_tag_count = deleted;
      estimated_freed_bytes = bytes;
      summary = summary;
      error_message = message;
      created = codes "now";
    } in
    (none, record s { tables = record s.tables { purge_runs = s.tables.purge_runs ++ row ∷ [] } })
insert_run_row values s = (some (codes "values"), s)

is_kept : Text → Bool
is_kept created = not (text_eq created (codes "old"))

delete_events : Memory → Memory
unfolding is_kept
delete_events s = record s {
  tables = record s.tables { events = filter_by (λ r. is_kept r.created) s.tables.events };
}

delete_runs : Memory → Memory
unfolding is_kept
delete_runs s = record s {
  tables = record s.tables { purge_runs = filter_by (λ r. is_kept r.created) s.tables.purge_runs };
}

run_statement : Text → List Value → Memory → Option Text × Memory
unfolding insert_event_row insert_run_row delete_events delete_runs
run_statement q values s =
    let e = memory_listener in
    if text_eq q (insert_event e)
    then insert_event_row values s.tables s.room
    else if text_eq q (insert_purge_run e)
    then insert_run_row values s
    else if text_eq q (delete_old e events_table)
    then (none, delete_events s)
    else if text_eq q (delete_old e purge_runs_table)
    then (none, delete_runs s)
    else (none, s)

unfoldable pub memory_db : Database Memory
unfolding run_statement
memory_db = record {
  is_missing = λ path s. false;
  mkdir_all = λ dir s. s;
  open_db = λ driver location s. (none, s);
  prepare = λ q s. none;
  exec = run_statement;
  query_events = λ q s. ok (reverse s.tables.events);
  query_purge_runs =
      λ q s. ok (map (read_run memory_view.read_time) (take 1 (reverse s.tables.purge_runs)));
  query_count = λ q s. ok 0;
}

insert_event_row_fails :
    (values : List Value) (tables : Tables) (room : ℕ) (x : Text)
    → (insert_event_row values tables room).0 ≡ some x
    → (insert_event_row values tables room).1.tables ≡ tables
unfolding insert_event_row
insert_event_row_fails values tables room x h = ground arith

insert_run_row_fails :
    (values : List Value) (s : Memory) (x : Text)
    → (insert_run_row values s).0 ≡ some x
    → (insert_run_row values s).1.tables ≡ s.tables
unfolding insert_run_row
insert_run_row_fails values s x h = ground arith

run_statement_fails :
    (q : Text) (values : List Value) (s : Memory) (x : Text)
    → (run_statement q values s).0 ≡ some x
    → (run_statement q values s).1.tables ≡ s.tables
unfolding run_statement
run_statement_fails q values s x h = ground arith

insert_event_row_stores :
    (d : EventData) (tables : Tables) (room : ℕ)
    → (insert_event_row (event_values d) tables room).0 ≡ none
    → (insert_event_row (event_values d) tables room).1.tables
      ≡ record tables { events = tables.events ++ event_row 7 (codes "now") d ∷ [] }
unfolding insert_event_row event_values
insert_event_row_stores d tables zero h = absurd (ground arith)
insert_event_row_stores d tables (suc room) h = refl

-- The assumptions about the library hold.
pub memory-IsSql :
    (events : List Event) (json : Json)
    → IsSql memory_db (memory_format events) memory_listener memory_view json
unfolding memory_db run_statement insert_event_row insert_run_row delete_events delete_runs is_kept
    insert_event insert_purge_run delete_old days_value select_purge_runs now_for is_mysql
    event_values run_values text_eq schema_for schema_sqlite schema_purge_runs_sqlite
memory-IsSql events json = record {
  making = λ d s. refl;
  opening = λ d l s. refl;
  events_schema = λ s. refl;
  runs_schema = λ s. refl;
  failing = run_statement_fails;
  inserting_event = λ d s h. insert_event_row_stores d s.tables s.room h;
  deleting_events = λ days s h. refl;
  inserting_run = λ run s h. refl;
  deleting_runs = λ days s h. refl;
  fresh_run = λ run days s on h. refl;
  selecting_run = λ s rows h. ground arith;
}
