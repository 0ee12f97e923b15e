-- ===== src/Purge/Delete.antt =====
-- registry/tasks.go: the loop that deletes the planned tags, and its counters.
use Prim.Native.Nat.{suc}
use mathlib.Core.Bool.{Bool, true, false}
use mathlib.Core.Option.{Option, none, some}
use mathlib.Core.List.{List, [], ◌∷◌, ◌++◌}
use registry_ui.Base.Text.{Text, codes}
use registry_ui.Base.Map.{Map, lookup, insert, get_or}
use registry_ui.Common.{sorted_map_keys}
use registry_ui.Purge.{PurgeClient, PurgeRepoResult, PurgeRunResult}

-- `fmt.Sprintf("%s:%s delete error: %s", repo, tag, err)`
abbrev pub delete_error : Text → Text → Text → Text
delete_error repo tag e = repo ++ codes ":" ++ tag ++ codes " delete error: " ++ e

-- What is written to the result when `DeleteTag` returns.
unfoldable pub tally : Text → Text → Option Text → PurgeRunResult → PurgeRunResult
tally repo tag (some e) r = record r {
  success = false;
  errors = r.errors ++ delete_error repo tag e ∷ [];
}
tally repo tag none r = record r { deleted_tag_count = suc r.deleted_tag_count }

-- `repoResult.DeletedTagCount++`, unless the call failed.
unfoldable pub tally_repo : Option Text → PurgeRepoResult → PurgeRepoResult
tally_repo (some e) rr = rr
tally_repo none rr = record rr { deleted_tag_count = suc rr.deleted_tag_count }

abbrev pub no_repo_result : PurgeRepoResult
no_repo_result = record {
  candidate_tag_count = 0;
  deleted_tag_count = 0;
  estimated_freed_bytes = 0;
  tags = [];
}

module _ {S : Type 0} (c : PurgeClient S) where
  unfoldable pub delete_tags :
      Text → List Text → PurgeRunResult → PurgeRepoResult → S → PurgeRunResult × PurgeRepoResult × S
  delete_tags repo [] r rr s = (r, rr, s)
  delete_tags repo (tag ∷ tags) r rr s =
      let (e, s') = c.delete_tag repo tag s in
      delete_tags repo tags (tally repo tag e r) (tally_repo e rr) s'

  -- One repository: nothing is done for an empty list, nor in a dry run.
  unfoldable pub delete_repo : Bool → Text → List Text → PurgeRunResult → S → PurgeRunResult × S
  delete_repo dry_run repo [] r s = (r, s)
  delete_repo true repo (tag ∷ tags) r s = (r, s)
  delete_repo false repo (tag ∷ tags) r s =
      let (r', rr, s') =
        delete_tags repo (tag ∷ tags) r (get_or (lookup repo r.repositories) no_repo_result) s in
      (record r' { repositories = insert repo rr r'.repositories }, s')

  unfoldable pub delete_repos :
      Bool → Map (List Text) → List Text → PurgeRunResult → S → PurgeRunResult × S
  delete_repos dry_run purge_tags [] r s = (r, s)
  delete_repos dry_run purge_tags (repo ∷ repos) r s =
      let (r', s') = delete_repo dry_run repo (get_or (lookup repo purge_tags) []) r s in
      delete_repos dry_run purge_tags repos r' s'

  unfoldable pub delete_planned : Bool → Map (List Text) → PurgeRunResult → S → PurgeRunResult × S
  delete_planned dry_run purge_tags r s =
      delete_repos dry_run purge_tags (sorted_map_keys purge_tags) r s
