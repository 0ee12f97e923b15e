-- ===== src/Purge/Attempts.antt =====
-- registry/tasks.go: what becomes of the candidates of a run that is not dry.
use mathlib.Core.Path.{◌≡◌, refl, sym, ap, subst, ◌∙◌}
use mathlib.Core.Logic.{inl, inr}
use mathlib.Core.Bool.{true, false}
use mathlib.Core.Option.{Option, none, some}
use mathlib.Core.List.{List, []}
use native.Mathlib.Omega.{arith}
use registry_ui.Base.Tests.{Option-cases}
use registry_ui.Base.Lists.{length, All}
use registry_ui.Base.Text.{Text, text_lt}
use registry_ui.Base.Map.{lookup, get_or, keys}
use registry_ui.Common.{sorted_map_keys}
use registry_ui.Base.Sort.{sort_strings}
use registry_ui.Purge.{PurgeClient, PurgeRunResult, Env}
use registry_ui.Purge.Scan.{nothing_scanned, scan_catalog}
use registry_ui.Purge.Plan.{Planned, plan}
use registry_ui.Purge.Delete.{delete_planned}
use registry_ui.Purge.Run.{aborted, planned_result, purge_catalog, run_purge_old_tags}
use registry_ui.Purge.Invariant.{IsKeptByReading, scan_catalog-keeps, catalog_of-keeps, run_inv}
use registry_ui.Purge.Planning.{
  scan_catalog-IsScan, plan-IsPlan, planned_count, nothing_scanned-IsScan,
}
use registry_ui.Purge.Counts.{delete_repos-IsProgress}
use registry_ui.Purge.Outcome.{run_deletes_candidates}
use registry_ui.Purge.Calls.{Deletion, noted, noting, successes, IsListed, tags_of}
use registry_ui.Purge.Carried.{
  AreTried, delete_repos-IsTried, All-sort_by_inv, All-lookup, plan-IsListing,
}

-- The calls carry the result out: each tag that it lists for a repository has had a call, there are
-- no more calls than candidates, the count of deleted tags is that of the calls that returned no
-- error, the error of each other call is listed, and success means that there is no such call.
pub record IsCarriedOut (r : PurgeRunResult) (calls : List Deletion) : Type 0 where
  pub each_candidate : (repo : Text) → AreTried repo calls (tags_of r.repositories repo)
  pub no_other : length calls ≡ r.candidate_tag_count
  pub deleted : r.deleted_tag_count ≡ successes calls
  pub failures_listed : All (IsListed r.errors) calls
  pub all_succeed : r.success ≡ true → successes calls ≡ length calls

-- The same but for the success.
record IsAttempted (r : PurgeRunResult) (calls : List Deletion) : Type 0 where
  each_candidate : (repo : Text) → AreTried repo calls (tags_of r.repositories repo)
  no_other : length calls ≡ r.candidate_tag_count
  deleted : r.deleted_tag_count ≡ successes calls
  failures_listed : All (IsListed r.errors) calls

module _ {S : Type 0} (c : PurgeClient S) (env : Env) where
  -- Reading notes no call.
  reads_only : IsKeptByReading (noting c) (λ w. w.1 ≡ [])
  reads_only = record {
    refresh = λ w w' e h. refreshed (c.refresh_catalog w.0) w w' e h;
    fetch = λ repo w h. h;
    info = λ ref w h. h;
  }
    where
      refreshed :
          (o : Option S) (w w' : S × List Deletion) → noted o w.1 ≡ some w' → w.1 ≡ [] → w'.1 ≡ []
      refreshed none w w' e h = absurd (ground arith)
      refreshed (some s) w w' e h = sym (ap (λ o. (get_or o w').1) e) ∙ h

  planned_tags :
      (p : Planned) (calls : List Deletion) (repo : Text)
      → All
          (λ j. AreTried j calls (get_or (lookup j p.purge_tags) []))
          (sorted_map_keys p.purge_tags)
      → AreTried repo calls (get_or (lookup repo p.purge_tags) [])
  unfolding sorted_map_keys sort_strings
  planned_tags p calls repo h = elim (Option-cases (lookup repo p.purge_tags)) [
    | inl missing ↦ rw missing tt
    | inr (tags, found) ↦
        All-lookup (λ j. AreTried j calls (get_or (lookup j p.purge_tags) [])) p.purge_tags repo
          tags
          (All-sort_by_inv text_lt (λ j. AreTried j calls (get_or (lookup j p.purge_tags) []))
            (keys p.purge_tags) h)
          found
  ]

  purge_catalog-IsAttempted :
      (keep : Text → List Text) (catalog : List Text) (w : S × List Deletion)
      → w.1 ≡ []
      → IsAttempted
          (purge_catalog (noting c) env false keep catalog w).0
          (purge_catalog (noting c) env false keep catalog w).1.1
  unfolding purge_catalog delete_planned planned_result
  purge_catalog-IsAttempted keep catalog w fresh =
      let scan = scan_catalog (noting c) catalog nothing_scanned w in
      let sc = scan.0 in
      let p = plan env keep sc in
      let start = planned_result env false (length catalog) sc p in
      let none_yet : scan.1.1 ≡ [] =
        scan_catalog-keeps (noting c) (λ u. u.1 ≡ []) reads_only catalog nothing_scanned w fresh in
      let h = scan_catalog-IsScan (noting c) catalog nothing_scanned w nothing_scanned-IsScan in
      let n = planned_count p (plan-IsPlan env keep sc h) in
      let (t, each) =
        delete_repos-IsTried c p.purge_tags (sorted_map_keys p.purge_tags) start scan.1.0
          scan.1.1 in
      let d =
        delete_repos-IsProgress (noting c) p.purge_tags (sorted_map_keys p.purge_tags) start
          scan.1 in
      let nothing : length scan.1.1 ≡ 0 = ap length none_yet in
      let no_success : successes scan.1.1 ≡ 0 = ap successes none_yet in
      record {
        each_candidate = λ repo.
            rw (t.same_tags repo ∙ plan-IsListing env keep sc repo) (planned_tags p _ repo each);
        no_other = omega (arith, t.count, nothing, n, d.same_candidates);
        deleted = omega (arith, t.deleted, no_success);
        failures_listed = t.listed (subst (All (IsListed start.errors)) (sym none_yet) tt);
      }

  -- A run that is not dry carries its result out: for each tag that the result lists for a repository
  -- it has called `DeleteTag`, there are no more calls than candidates, as many tags are counted as
  -- deleted as calls returned no error, the error of each other call is in the result, and a run
  -- that reports success has had no such call.
  pub run-IsCarriedOut :
      (include excluded : Text) (s : S) (r : PurgeRunResult) (t : S) (calls : List Deletion)
      → run_purge_old_tags (noting c) env false include excluded (s, []) ≡ some (r, (t, calls))
      → IsCarriedOut r calls
  unfolding aborted lookup
  run-IsCarriedOut include excluded s r t calls e =
      let a =
        run_inv (noting c) env include excluded false (λ r' w. IsAttempted r' w.1) (s, [])
          (λ msg _. record {
            each_candidate = λ repo. tt;
            no_other = refl;
            deleted = refl;
            failures_listed = tt;
          })
          (λ keep catalog w _ found. purge_catalog-IsAttempted keep catalog w (
            catalog_of-keeps (noting c) env include excluded (λ u. u.1 ≡ []) reads_only (s, [])
              catalog w found refl))
          r (t, calls) e in
      let (_, _, all_of_them) =
        run_deletes_candidates (noting c) env include excluded (s, []) r (t, calls) e in
      record {
        each_candidate = a.each_candidate;
        no_other = a.no_other;
        deleted = a.deleted;
        failures_listed = a.failures_listed;
        all_succeed = λ ok. omega (arith, a.no_other, a.deleted, all_of_them ok);
      }
