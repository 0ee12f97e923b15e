-- ===== src/Purge/Safety.antt =====
-- registry/tasks.go: what a whole run may do to the registry. A property of the client's state that
-- reading keeps, and that deleting an allowed tag keeps, holds when the run is over: so no other
-- tag is ever deleted.
use mathlib.Core.Path.{◌≡◌, refl, sym, ap, subst}
use mathlib.Core.Bool.{Bool, true}
use mathlib.Core.Option.{some}
use mathlib.Core.List.{List, []}
use registry_ui.Base.Text.{Text}
use registry_ui.Common.{sorted_map_keys}
use registry_ui.Purge.{PurgeClient, PurgeRunResult, Env}
use registry_ui.Purge.Catalog.{IsChosen, IsChosen-prop, catalog_of_sound}
use registry_ui.Purge.Condemned.{
  Each, Each-nil, Dated, scan_catalog-Dated, Condemned, plan-Condemned,
}
use registry_ui.Purge.Scan.{nothing_scanned, scan_catalog}
use registry_ui.Purge.Plan.{plan}
use registry_ui.Purge.Delete.{delete_planned}
use registry_ui.Purge.Run.{
  KeepFile, failed, loaded, keep_file, aborted, planned_result, purge_catalog, run_purge_old_tags,
}
use registry_ui.Purge.Invariant.{
  IsKeptByReading, scan_catalog-keeps, delete_repos-keeps, delete_repos_dry_run, catalog_of-keeps,
  run_inv,
}

-- The tags that are found in the file at the name of a repository, taken as a path; none where it
-- cannot be read.
abbrev pub names_in : KeepFile → Text → List Text
names_in (failed e) repo = []
names_in (loaded keep) repo = keep repo

abbrev pub file_keeps : Env → Text → List Text
file_keeps env = names_in (keep_file env)

module _ {S : Type 0} (c : PurgeClient S) (env : Env) (include excluded : Text) where
  -- The deletion of `tag` from `repo` is justified: `repo` is chosen by the command line, the client
  -- reported a creation time for the tag, the tag is older than `keep_days`, and it neither matches
  -- `keep_regexp` nor is among the tags found in the file at the name of `repo`, taken as a path.
  abbrev pub IsJustified : Text → Text → Type 0
  IsJustified =
      Condemned c (IsChosen include excluded) (IsChosen-prop include excluded) env (file_keeps env)

  module _ (P : S → Type 0) (reads : IsKeptByReading c P) (s : S) (r : PurgeRunResult) (t : S) where
    -- Every `DeleteTag` that a run makes is for a tag of a chosen repository that the client reported
    -- with a creation time, that is older than `keep_days`, and that neither matches `keep_regexp` nor
    -- is found in the file at the name of the repository, taken as a path: a property of the client's
    -- state that the reading calls keep, and that the deletion of any such tag keeps, still holds of the
    -- state in which the run ends. The run may end early, and the client may fail at any call.
    pub run-IsJustified :
        (dry_run : Bool)
        → ((repo tag : Text) (u : S) → IsJustified repo tag → P u → P (c.delete_tag repo tag u).1)
        → run_purge_old_tags c env dry_run include excluded s ≡ some (r, t)
        → P s
        → P t
    unfolding purge_catalog delete_planned
    run-IsJustified dry_run deletes e p =
        run_inv c env include excluded dry_run (λ _ u. P u) s (λ _ _. p)
          (λ keep catalog s' loaded_keep found.
            let sc = (scan_catalog c catalog nothing_scanned s').0 in
            let m = (plan env keep sc).purge_tags in
            delete_repos-keeps c P reads IsJustified deletes dry_run m (sorted_map_keys m) _ _
              (subst
                (λ k.
                  Each
                    (Condemned c (IsChosen include excluded) (IsChosen-prop include excluded) env k)
                    m)
                (sym (ap names_in loaded_keep))
                (plan-Condemned c (IsChosen include excluded) (IsChosen-prop include excluded) env
                  keep sc
                  (scan_catalog-Dated c (IsChosen include excluded) (IsChosen-prop include excluded)
                    catalog nothing_scanned s'
                    (catalog_of_sound c include excluded s catalog s' found)
                    (Each-nil
                      (Dated c (IsChosen include excluded) (IsChosen-prop include excluded))))))
              (scan_catalog-keeps c P reads catalog nothing_scanned s'
                (catalog_of-keeps c env include excluded P reads s catalog s' found p)))
          r t e

    -- A dry run deletes nothing: a property of the client's state that the reading calls keep holds
    -- at its end, whatever `DeleteTag` does, and its result counts no deleted tag.
    pub run_dry_run :
        run_purge_old_tags c env true include excluded s ≡ some (r, t)
        → P s
        → P t × (r.deleted_tag_count ≡ 0)
    unfolding purge_catalog delete_planned planned_result aborted
    run_dry_run e p =
        run_inv c env include excluded true (λ r' u. P u × (r'.deleted_tag_count ≡ 0)) s
          (λ _ _. (p, refl))
          (λ keep catalog s' loaded_keep found. rw (delete_repos_dry_run c _ _ _ _) (
            scan_catalog-keeps c P reads catalog nothing_scanned s'
                (catalog_of-keeps c env include excluded P reads s catalog s' found p),
            refl,
          ))
          r t e
