-- ===== src/Purge/Run.antt =====
-- registry/tasks.go: `RunPurgeOldTags`, from the configuration to the result.
use Prim.Native.Nat.{ℕ}
use mathlib.Core.Bool.{Bool, true, false}
use mathlib.Core.Option.{Option, none, some}
use mathlib.Core.List.{List, [], ◌∷◌}
use registry_ui.Base.Tests.{if◌then◌else◌}
use registry_ui.Base.Lists.{length}
use registry_ui.Base.Text.{Text, is_empty}
use registry_ui.Base.Map.{Map}
use registry_ui.Image.{add64}
use registry_ui.Purge.{
  PurgeClient, PurgeRepoResult, PurgeRunResult, FileRead, missing, unreadable, content, Env,
}
use registry_ui.Purge.Scan.{Scanned, nothing_scanned, catalog_of, scan_catalog}
use registry_ui.Purge.Plan.{Planned, plan}
use registry_ui.Purge.Delete.{delete_planned}

-- `dataFromFile`: the text of an error, or the tags that are found at a path in the file. The code
-- takes the name of a repository as the path, so that the key of a name with a dot is not found.
pub data KeepFile : Type 0 where
  failed : Text → KeepFile
  loaded : (Text → List Text) → KeepFile

file_tags : Env → FileRead → KeepFile
file_tags env (missing e) = failed e
file_tags env (unreadable e) = failed e
file_tags env (content doc) = loaded (env.gjson_array doc)

unfoldable pub keep_file : Env → KeepFile
unfolding file_tags
keep_file env =
    let path = env.settings.keep_from_file in
    if is_empty path then loaded (λ repo. []) else file_tags env (env.read_file path)

-- The result as it is first written.
unfoldable pub initial : Env → Bool → PurgeRunResult
initial env dry_run = record {
  started_at = env.started;
  finished_at = 0;
  success = true;
  dry_run = dry_run;
  cron_expr = env.settings.cron;
  repo_count = 0;
  candidate_tag_count = 0;
  deleted_tag_count = 0;
  estimated_freed_bytes = 0;
  errors = [];
  repositories = [];
}

-- The return for a file that cannot be read.
unfoldable pub aborted : Env → Bool → Text → PurgeRunResult
unfolding initial
aborted env dry_run e = record (initial env dry_run) {
  success = false;
  errors = e ∷ [];
  finished_at = env.finished;
}

-- The sum over `result.Repositories`, in int64.
unfoldable pub freed_bytes : Map PurgeRepoResult → ℕ → ℕ
freed_bytes [] n = n
freed_bytes ((repo, rr) ∷ m) n = freed_bytes m (add64 n rr.estimated_freed_bytes)

-- The result when the deletions begin.
unfoldable pub planned_result : Env → Bool → ℕ → Scanned → Planned → PurgeRunResult
unfolding initial freed_bytes
planned_result env dry_run repo_count sc p = record (initial env dry_run) {
  success = sc.success;
  errors = sc.errors;
  repo_count = repo_count;
  candidate_tag_count = p.total_candidates;
  estimated_freed_bytes = freed_bytes p.repositories 0;
  repositories = p.repositories;
}

module _ {S : Type 0} (c : PurgeClient S) (env : Env) (dry_run : Bool) where
  unfoldable pub purge_catalog : (Text → List Text) → List Text → S → PurgeRunResult × S
  purge_catalog keep_tags catalog s =
      let (sc, s') = scan_catalog c catalog nothing_scanned s in
      let p = plan env keep_tags sc in
      let (r, s'') =
        delete_planned c dry_run p.purge_tags (planned_result env dry_run (length catalog) sc p)
          s' in
      (record r { finished_at = env.finished }, s'')

  -- `none`: the process has ended by a panic of the scan.
  unfoldable pub purge_unless_panicked :
      (Text → List Text) → List Text → S → Option (PurgeRunResult × S)
  purge_unless_panicked keep_tags catalog s =
      if (scan_catalog c catalog nothing_scanned s).0.panicked
      then none
      else some (purge_catalog keep_tags catalog s)

  -- `RunPurgeOldTags`. `none`: the process has ended, in `RefreshCatalog` or by a panic of the scan.
  unfoldable pub run_purge_old_tags : Text → Text → S → Option (PurgeRunResult × S)
  unfolding keep_file purge_unless_panicked
  run_purge_old_tags include excluded s = elim (keep_file env) [
    | failed e ↦ some (aborted env dry_run e, s)
    | loaded keep_tags ↦ elim (catalog_of c include excluded s) [
      | none ↦ none
      | some (catalog, s') ↦ purge_unless_panicked keep_tags catalog s'
    ]
  ]
