-- ===== src/Purge.antt =====
-- registry/tasks.go: the data of a purge run, its environment, and the client that it works through.
pub mod Select
pub mod Scan
pub mod Plan
pub mod Delete
pub mod Run
pub mod Summary
pub mod Keeping
pub mod Retention
pub mod Condemned
pub mod Catalog
pub mod Interrupted
pub mod Invariant
pub mod Safety
pub mod Counts
pub mod Planning
pub mod Outcome
pub mod Calls
pub mod Carried
pub mod Attempts
pub mod Tests
use Prim.Native.Nat.{ℕ}
use mathlib.Core.Bool.{Bool}
use mathlib.Core.Option.{Option}
use mathlib.Core.List.{List}
use registry_ui.Base.Int.{ℤ}
use registry_ui.Base.Text.{Text}
use registry_ui.Base.Map.{Map}
use registry_ui.Image.{Result, ImageInfo}

-- `PurgeClient`, over the state `S` of the client and of the registry behind it. `refresh_catalog`
-- is `none` where it ends the process, `get_image_info` gives `none` where it panics, and a `nil`
-- slice of tags is `none`.
pub record PurgeClient (S : Type 0) : Type 0 where
  pub refresh_catalog : S → Option S
  pub get_repos : S → List Text
  pub fetch_and_cache_tags_for_repo : Text → S → Option (List Text) × S
  pub get_image_info : Text → S → Option (Result ImageInfo) × S
  pub delete_tag : Text → Text → S → Option Text × S

-- `TagData`
pub record TagData : Type 0 where
  pub name : Text
  pub created : ℕ

-- `PurgeRepoResult`
pub record PurgeRepoResult : Type 0 where
  pub candidate_tag_count : ℕ
  pub deleted_tag_count : ℕ
  pub estimated_freed_bytes : ℕ
  pub tags : List Text

-- `PurgeRunResult`
pub record PurgeRunResult : Type 0 where
  pub started_at : ℕ
  pub finished_at : ℕ
  pub success : Bool
  pub dry_run : Bool
  pub cron_expr : Text
  pub repo_count : ℕ
  pub candidate_tag_count : ℕ
  pub deleted_tag_count : ℕ
  pub estimated_freed_bytes : ℕ
  pub errors : List Text
  pub repositories : Map PurgeRepoResult

-- The values of `purge_tags` in the configuration.
pub record Settings : Type 0 where
  pub keep_days : ℤ
  pub keep_count : ℤ
  pub keep_regexp : Text
  pub keep_from_file : Text
  pub cron : Text

-- What `os.Stat` and `os.ReadFile` find at a path: the text of their error, or the file's content.
pub data FileRead : Type 0 where
  missing : Text → FileRead
  unreadable : Text → FileRead
  content : Text → FileRead

-- What a run takes from outside: the configuration, the file, `gjson` (the texts of the array that it
-- finds in a document at a path, in whose syntax a dot separates keys), `regexp.MatchString` (`none` for a pattern that does not
-- compile) and the three readings of the clock.
pub record Env : Type 0 where
  pub settings : Settings
  pub read_file : Text → FileRead
  pub gjson_array : Text → Text → List Text
  pub match_string : Text → Text → Option Bool
  pub started : ℕ
  pub now : ℕ
  pub finished : ℕ
