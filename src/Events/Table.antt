-- ===== src/Events/Table.antt =====
-- What the listener's statements mean to the two tables: the documented behaviour of the database,
-- as named assumptions about the library.
use Prim.Native.Nat.{ℕ}
use mathlib.Core.Path.{◌≡◌}
use mathlib.Core.Bool.{Bool, false, not}
use mathlib.Core.Option.{none, some}
use mathlib.Core.List.{List, [], ◌∷◌, ◌++◌, map, reverse}
use registry_ui.Base.Lists.{take, filter_by}
use registry_ui.Base.Int.{ℤ, pos, lez}
use registry_ui.Base.Text.{Text, codes, join}
use registry_ui.Image.{ok}
use registry_ui.Purge.{PurgeRunResult}
use registry_ui.Purge.Summary.{Json, summary_json}
use registry_ui.Events.{EventListener, EventRow, PurgeRunRow, Value, Database, Format}
use registry_ui.Events.Statements.{
  schema_sqlite, schema_purge_runs_sqlite, schema_for, insert_event, delete_old, days_value,
  events_table, purge_runs_table, insert_purge_run, select_purge_runs,
}
use registry_ui.Events.Receive.{EventData, event_values}
use registry_ui.Events.Log.{run_values}

-- The rows of the two tables, the oldest first.
pub record Tables : Type 0 where
  pub events : List EventRow
  pub purge_runs : List PurgeRunRow

-- The view of a database: its tables, the number and the time that a new row gets, whether a time
-- is more than so many days ago, and the text as which a query gives a stored time: the driver of
-- SQLite gives it another layout.
pub record View (D : Type 0) : Type 0 where
  pub tables : D → Tables
  pub next_id : D → ℕ
  pub stamp : D → Text
  pub is_expired : D → ℤ → Text → Bool
  pub read_time : Text → Text

-- The row of an event, and the data of a row.
abbrev pub event_row : ℕ → Text → EventData → EventRow
event_row id created d = record {
  id = id;
  action = d.action;
  repository = d.repository;
  tag = d.tag;
  ip = d.ip;
  user = d.user;
  created = created;
}

abbrev pub row_data : EventRow → EventData
row_data r = record {
  action = r.action;
  repository = r.repository;
  tag = r.tag;
  ip = r.ip;
  user = r.user;
}

-- The row of a purge run.
abbrev pub run_row : {J : Type 0} → Format J → Json → ℕ → Text → PurgeRunResult → PurgeRunRow
run_row f json id created run = record {
  id = id;
  started_at = f.print_time run.started_at;
  finished_at = f.print_time run.finished_at;
  success = run.success;
  dry_run = run.dry_run;
  cron_expr = run.cron_expr;
  repo_count = run.repo_count;
  candidate_tag_count = run.candidate_tag_count;
  deleted_tag_count = run.deleted_tag_count;
  estimated_freed_bytes = run.estimated_freed_bytes;
  summary = summary_json json run;
  error_message = join run.errors (codes "\n");
  created = created;
}

-- The row of a purge run as a query gives it.
abbrev pub read_run : (Text → Text) → PurgeRunRow → PurgeRunRow
read_run read_time r = record r {
  started_at = read_time r.started_at;
  finished_at = read_time r.finished_at;
  created = read_time r.created;
}

module _ {D J : Type 0} (db : Database D) (f : Format J) (e : EventListener) (v : View D) where
  -- Each statement does to the tables what its text says, a statement that fails does nothing, and
  -- opening the database leaves the tables as they are. A row that has just been inserted is not expired.
  -- A text that is too long for its column is refused, not cut.
  pub record IsSql (json : Json) : Type 0 where
    pub making : (d : Text) (s : D) → v.tables (db.mkdir_all d s) ≡ v.tables s
    pub opening : (d l : Text) (s : D) → v.tables (db.open_db d l s).1 ≡ v.tables s
    pub events_schema :
        (s : D) → v.tables (db.exec (schema_for e schema_sqlite) [] s).1 ≡ v.tables s
    pub runs_schema :
        (s : D) → v.tables (db.exec (schema_for e schema_purge_runs_sqlite) [] s).1 ≡ v.tables s
    pub failing :
        (q : Text) (values : List Value) (s : D) (x : Text)
        → (db.exec q values s).0 ≡ some x
        → v.tables (db.exec q values s).1 ≡ v.tables s
    pub inserting_event :
        (d : EventData) (s : D)
        → (db.exec (insert_event e) (event_values d) s).0 ≡ none
        → v.tables (db.exec (insert_event e) (event_values d) s).1 ≡ record (v.tables s) {
          events = (v.tables s).events ++ event_row (v.next_id s) (v.stamp s) d ∷ [];
        }
    pub deleting_events :
        (days : ℤ) (s : D)
        → (db.exec (delete_old e events_table) (days_value f e days ∷ []) s).0 ≡ none
        → v.tables (db.exec (delete_old e events_table) (days_value f e days ∷ []) s).1
          ≡ record (v.tables s) {
            events = filter_by (λ r. not (v.is_expired s days r.created)) (v.tables s).events;
          }
    pub inserting_run :
        (run : PurgeRunResult) (s : D)
        → (db.exec (insert_purge_run e) (run_values f json run) s).0 ≡ none
        → v.tables (db.exec (insert_purge_run e) (run_values f json run) s).1
          ≡ record (v.tables s) {
            purge_runs =
                (v.tables s).purge_runs ++ run_row f json (v.next_id s) (v.stamp s) run ∷ [];
          }
    pub deleting_runs :
        (days : ℤ) (s : D)
        → (db.exec (delete_old e purge_runs_table) (days_value f e days ∷ []) s).0 ≡ none
        → v.tables (db.exec (delete_old e purge_runs_table) (days_value f e days ∷ []) s).1
          ≡ record (v.tables s) {
            purge_runs =
                filter_by (λ r. not (v.is_expired s days r.created)) (v.tables s).purge_runs;
          }
    pub fresh_run :
        (run : PurgeRunResult) (days : ℤ) (s : D)
        → lez days (pos 0) ≡ false
        → (db.exec (insert_purge_run e) (run_values f json run) s).0 ≡ none
        → v.is_expired (db.exec (insert_purge_run e) (run_values f json run) s).1 days (v.stamp s)
          ≡ false
    pub selecting_run :
        (s : D) (rows : List PurgeRunRow)
        → db.query_purge_runs (select_purge_runs f (pos 1)) s ≡ ok rows
        → rows ≡ map (read_run v.read_time) (take 1 (reverse (v.tables s).purge_runs))
