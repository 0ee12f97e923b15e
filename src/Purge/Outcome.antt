-- ===== src/Purge/Outcome.antt =====
-- registry/tasks.go: the counters in the result of a whole run.
use Prim.Native.Nat.{◌+◌, ◌≤◌}
use mathlib.Core.Path.{◌≡◌, refl}
use mathlib.Core.Bool.{Bool, true, false}
use mathlib.Core.Option.{some}
use mathlib.Core.List.{List}
use native.Mathlib.Omega.{arith}
use registry_ui.Base.Lists.{length}
use registry_ui.Base.Text.{Text}
use registry_ui.Common.{sorted_map_keys}
use registry_ui.Purge.{PurgeClient, PurgeRunResult, Env}
use registry_ui.Purge.Scan.{nothing_scanned, scan_catalog}
use registry_ui.Purge.Plan.{plan}
use registry_ui.Purge.Delete.{delete_planned}
use registry_ui.Purge.Counts.{IsBalanced, delete_repos-IsProgress}
use registry_ui.Purge.Invariant.{delete_repos_dry_run, run_inv}
use registry_ui.Purge.Run.{aborted, planned_result, purge_catalog, run_purge_old_tags}
use registry_ui.Purge.Planning.{
  scan_catalog-IsScan, plan-IsPlan, planned_result-IsBalanced, planned_count,
  nothing_scanned-IsScan, aborted-IsBalanced,
}

-- The counters of a run that deletes.
abbrev IsDone : PurgeRunResult → Type 0
IsDone r =
    (r.deleted_tag_count ≤ r.candidate_tag_count)
    × (r.candidate_tag_count ≤ r.deleted_tag_count + length r.errors)
    × (r.success ≡ true → r.deleted_tag_count ≡ r.candidate_tag_count)

module _ {S : Type 0} (c : PurgeClient S) (env : Env) where
  purge_catalog-IsBalanced :
      (dry_run : Bool) (keep : Text → List Text) (catalog : List Text) (s : S)
      → IsBalanced (purge_catalog c env dry_run keep catalog s).0
  unfolding purge_catalog delete_planned
  purge_catalog-IsBalanced true keep catalog s =
      let h = scan_catalog-IsScan c catalog nothing_scanned s nothing_scanned-IsScan in
      rw (delete_repos_dry_run c _ _ _ _) (
        let b =
          planned_result-IsBalanced env true (length catalog) _ _ h (plan-IsPlan env keep _ h) in
        record {
          candidates = b.candidates;
          deleted = b.deleted;
          no_error = b.no_error;
          some_error = b.some_error;
        })
  purge_catalog-IsBalanced false keep catalog s =
      let h = scan_catalog-IsScan c catalog nothing_scanned s nothing_scanned-IsScan in
      let p = plan-IsPlan env keep _ h in
      let b =
        (delete_repos-IsProgress c _ _ _ _).balanced
          (planned_result-IsBalanced env false (length catalog) _ _ h p) in
      record {
        candidates = b.candidates;
        deleted = b.deleted;
        no_error = b.no_error;
        some_error = b.some_error;
      }

  -- The result of every run adds up, dry or not, also where it stops early or calls fail: the
  -- candidates and the deleted tags are the sums over the repositories, and `success` is true
  -- exactly when no error is listed.
  pub run-IsBalanced :
      (dry_run : Bool) (include excluded : Text) (s : S) (r : PurgeRunResult) (t : S)
      → run_purge_old_tags c env dry_run include excluded s ≡ some (r, t)
      → IsBalanced r
  run-IsBalanced dry_run include excluded s r t e =
      run_inv c env include excluded dry_run (λ r' _. IsBalanced r') s
        (λ msg _. aborted-IsBalanced env dry_run msg)
        (λ keep catalog s' _ _. purge_catalog-IsBalanced dry_run keep catalog s') r t e

  -- The counters of a run that is not dry: no more tags are counted as deleted than are candidates,
  -- these are no more than the deleted tags and the errors together, and with success all candidates
  -- are counted as deleted.
  pub run_deletes_candidates :
      (include excluded : Text) (s : S) (r : PurgeRunResult) (t : S)
      → run_purge_old_tags c env false include excluded s ≡ some (r, t)
      → (r.deleted_tag_count ≤ r.candidate_tag_count)
        × (r.candidate_tag_count ≤ r.deleted_tag_count + length r.errors)
        × (r.success ≡ true → r.deleted_tag_count ≡ r.candidate_tag_count)
  unfolding purge_catalog delete_planned planned_result aborted
  run_deletes_candidates include excluded s r t e =
      run_inv c env include excluded false (λ r' _. IsDone r') s
        (λ msg _. (omega arith, omega arith, λ _. refl))
        (λ keep catalog s' _ _.
          let h = scan_catalog-IsScan c catalog nothing_scanned s' nothing_scanned-IsScan in
          let (sc, s'') = scan_catalog c catalog nothing_scanned s' in
          let p = plan env keep sc in
          let b = purge_catalog-IsBalanced false keep catalog s' in
          let d =
            delete_repos-IsProgress c p.purge_tags (sorted_map_keys p.purge_tags)
              (planned_result env false (length catalog) sc p) s'' in
          let n = planned_count p (plan-IsPlan env keep sc h) in
          (
            omega (arith, d.same_candidates, d.each_counted, d.errors_grow, n),
            omega (arith, d.same_candidates, d.each_counted, d.errors_grow, n),
            λ ok. omega (arith, d.same_candidates, d.each_counted, d.errors_grow, n, b.no_error ok),
          ))
        r t e
