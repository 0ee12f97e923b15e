-- ===== src/Events.antt =====
-- events/event_listener.go: the listener, its rows, and the database that it stores them in.
pub mod Statements
pub mod Handler
pub mod Receive
pub mod Log
pub mod Table
pub mod Opening
pub mod Stored
pub mod Storing
pub mod Recorded
pub mod Latest
pub mod Memory
mod Tests
use Prim.Native.Nat.{ℕ}
use mathlib.Core.Bool.{Bool}
use mathlib.Core.Option.{Option}
use mathlib.Core.List.{List}
use registry_ui.Base.Int.{ℤ}
use registry_ui.Base.Text.{Text}
use registry_ui.Image.{Result}

-- `EventListener`, less its logger.
pub record EventListener : Type 0 where
  pub database_driver : Text
  pub database_location : Text
  pub retention : ℤ
  pub event_deletion : Bool

-- `EventRow`
pub record EventRow : Type 0 where
  pub id : ℕ
  pub action : Text
  pub repository : Text
  pub tag : Text
  pub ip : Text
  pub user : Text
  pub created : Text

-- `PurgeRunRow`; a size is the bit pattern of its int64.
pub record PurgeRunRow : Type 0 where
  pub id : ℕ
  pub started_at : Text
  pub finished_at : Text
  pub success : Bool
  pub dry_run : Bool
  pub cron_expr : Text
  pub repo_count : ℕ
  pub candidate_tag_count : ℕ
  pub deleted_tag_count : ℕ
  pub estimated_freed_bytes : ℕ
  pub summary : Text
  pub error_message : Text
  pub created : Text

-- What is bound to the places of a prepared statement.
pub data Value : Type 0 where
  text : Text → Value
  int : ℤ → Value
  count : ℕ → Value
  flag : Bool → Value

-- `database/sql` with its drivers, and the file system below it, over their state `D`. An error is
-- its text. `prepare` is the error of `Prepare` alone, `exec` runs a prepared statement, and each
-- `query` comes with the scanning of its rows.
pub record Database (D : Type 0) : Type 0 where
  pub is_missing : Text → D → Bool
  pub mkdir_all : Text → D → D
  pub open_db : Text → Text → D → Option Text × D
  pub prepare : Text → D → Option Text
  pub exec : Text → List Value → D → Option Text × D
  pub query_events : Text → D → Result (List EventRow)
  pub query_purge_runs : Text → D → Result (List PurgeRunRow)
  pub query_count : Text → D → Result ℕ

-- The rest of what the listener calls: JSON documents of type `J`, of which `decode` gives the
-- array of events and `get` the text at a path; `net.SplitHostPort`, `filepath.Dir`, and the
-- printing of an integer and of a time.
pub record Format (J : Type 0) : Type 0 where
  pub decode : Text → Option (List J)
  pub get : J → Text → Text
  pub split_host : Text → Text
  pub dir : Text → Text
  pub print_int : ℤ → Text
  pub print_time : ℕ → Text
