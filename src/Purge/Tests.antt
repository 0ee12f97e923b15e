-- ===== src/Purge/Tests.antt =====
-- Runs of the purge on a small registry, and each theorem at a concrete input.
use Prim.Native.Nat.{ℕ, ◌+◌, ◌*◌}
use mathlib.Core.Path.{◌≡◌, refl, subst}
use mathlib.Core.Logic.{◌≢◌, ∥∥₁_elim}
use mathlib.Core.Bool.{true, false}
use mathlib.Core.Option.{none, some}
use mathlib.Core.List.{List, [], ◌∷◌, ◌++◌, Perm}
use native.Mathlib.Omega.{arith}
use registry_ui.Base.Tests.{if◌then◌else◌}
use registry_ui.Base.Lists.{All}
use registry_ui.Base.Int.{◌<ℤ◌, pos}
use registry_ui.Base.Text.{Text, codes, text_eq, split}
use registry_ui.Base.TextLaws.{text_eq_refl}
use registry_ui.Base.Sort.{sort_strings}
use registry_ui.Base.Map.{insert, lookup}
use registry_ui.Image.{ok, ImageInfo}
use registry_ui.Common.{sorted_map_keys, item_in_slice}
use registry_ui.Purge.{PurgeClient, TagData, PurgeRunResult, Settings, missing, Env}
use registry_ui.Purge.Select.{
  days_old, day, less, match_by_regexp, is_purgeable, filter_tags, keep_min_count, select_tags,
}
use registry_ui.Purge.Scan.{
  exclude, image_ref, choose_catalog, scan_tags, scan_catalog, catalog_of, record_info,
}
use registry_ui.Purge.Plan.{purge_size, plan}
use registry_ui.Purge.Delete.{
  delete_planned, tally, tally_repo, delete_tags, delete_repo, delete_repos,
}
use registry_ui.Purge.Run.{aborted, run_purge_old_tags, purge_catalog, planned_result}
use registry_ui.Purge.Keeping.{names}
use registry_ui.Purge.Retention.{
  IsExpired, IsDivision, select-perm, select-IsExpired, select-IsDivision,
}
use registry_ui.Purge.Invariant.{IsKeptByReading}
use registry_ui.Purge.Safety.{IsJustified, run-IsJustified, run_dry_run}
use registry_ui.Purge.Counts.{IsBalanced}
use registry_ui.Purge.Calls.{Deletion, noting}
use registry_ui.Purge.Attempts.{IsCarriedOut, run-IsCarriedOut}
use registry_ui.Purge.Outcome.{run-IsBalanced}

abbrev settings : Settings
settings = record {
  keep_days = pos 30;
  keep_count = pos 1;
  keep_regexp = [];
  keep_from_file = [];
  cron = [];
}

-- The clock stands at day 100.
abbrev pub env : Env
env = record {
  settings = settings;
  read_file = λ path. missing path;
  gjson_array = λ doc repo. [];
  match_string = λ pattern name. none;
  started = 100 * day;
  now = 100 * day;
  finished = 100 * day + 5;
}

abbrev created_of : Text → ℕ
created_of ref = if text_eq ref (codes "app:new") then 90 * day else 40 * day

abbrev info_of : Text → ImageInfo
info_of ref = record {
  is_image_index = false;
  is_image = true;
  image_ref_repo = [];
  image_ref_tag = [];
  image_ref_digest = [];
  media_type = [];
  platforms = [];
  manifest = none;
  image_size = 512;
  created = created_of ref;
  config_image_id = [];
  config_file = none;
}

-- The state is the list of the references that were deleted.
abbrev pub client : PurgeClient (List Text)
client = record {
  refresh_catalog = λ s. some s;
  get_repos = λ s. codes "app" ∷ [];
  fetch_and_cache_tags_for_repo = λ repo s. (some (codes "new" ∷ codes "old" ∷ []), s);
  get_image_info = λ ref s. (some (ok (info_of ref)), s);
  delete_tag = λ repo tag s. (none, image_ref repo tag ∷ s);
}

-- Everything that a run computes with.
whole_run : Unit {0}
unfolding run_purge_old_tags choose_catalog catalog_of purge_catalog scan_tags scan_catalog
    record_info plan purge_size filter_tags is_purgeable keep_min_count select_tags days_old less
    match_by_regexp item_in_slice planned_result delete_planned delete_repos delete_repo delete_tags
    sorted_map_keys sort_strings insert lookup tally tally_repo text_eq exclude aborted split
whole_run = tt

abbrev pub deleted_old : PurgeRunResult
deleted_old = record {
  started_at = 100 * day;
  finished_at = 100 * day + 5;
  success = true;
  dry_run = false;
  cron_expr = [];
  repo_count = 1;
  candidate_tag_count = 1;
  deleted_tag_count = 1;
  estimated_freed_bytes = 512;
  errors = [];
  repositories =
      (
        codes "app",
        record {
          candidate_tag_count = 1;
          deleted_tag_count = 1;
          estimated_freed_bytes = 512;
          tags = codes "old" ∷ [];
        },
      )
      ∷ [];
}

-- The second run of the source's own tests: one tag is deleted.
pub run_deletes :
    run_purge_old_tags client env false [] [] [] ≡ some (deleted_old, codes "app:old" ∷ [])
unfolding whole_run
run_deletes = refl

abbrev planned_old : PurgeRunResult
planned_old = record deleted_old {
  dry_run = true;
  deleted_tag_count = 0;
  repositories =
      (
        codes "app",
        record {
          candidate_tag_count = 1;
          deleted_tag_count = 0;
          estimated_freed_bytes = 512;
          tags = codes "old" ∷ [];
        },
      )
      ∷ [];
}

-- The first run of the source's own tests: a dry run counts the tag and leaves it.
run_dry : run_purge_old_tags client env true [] [] [] ≡ some (planned_old, [])
unfolding whole_run
run_dry = refl

-- An unreadable file ends the run before any call of the client.
run_aborts :
    run_purge_old_tags client
      (record env { settings = record settings { keep_from_file = codes "keep.json" } })
      false
      []
      []
      []
    ≡ some (
      record deleted_old {
        success = false;
        repo_count = 0;
        candidate_tag_count = 0;
        deleted_tag_count = 0;
        estimated_freed_bytes = 0;
        errors = codes "keep.json" ∷ [];
        repositories = [];
      },
      [],
    )
unfolding whole_run
run_aborts = refl

abbrev scanned : List TagData
scanned =
    (record { name = codes "old"; created = 40 * day })
    ∷ (record { name = codes "new"; created = 90 * day })
    ∷ (record { name = codes "ancient"; created = day })
    ∷ []

abbrev selected : List Text × List Text
selected = select_tags env (codes "ancient" ∷ []) scanned

select-perm_example : Perm (selected.0 ++ selected.1) (names scanned)
select-perm_example = select-perm env (codes "ancient" ∷ []) scanned

select-IsExpired_example : All (IsExpired env (codes "ancient" ∷ []) scanned) selected.1
select-IsExpired_example = select-IsExpired env (codes "ancient" ∷ []) scanned

select-IsDivision_example :
    (spared : List TagData) × (old : List TagData) × IsDivision env
      (codes "ancient" ∷ [])
      scanned
      selected.0
      selected.1
      spared
      old
select-IsDivision_example = select-IsDivision env (codes "ancient" ∷ []) scanned

-- The tag that is 10 days old is still there.
abbrev SparesNew : List Text → Type 0
SparesNew s = All (λ ref. ref ≢ codes "app:new") s

SparesNew-reads : IsKeptByReading client SparesNew
SparesNew-reads = record {
  refresh = λ s s' e p. let same : s ≡ s' = ground arith in subst SparesNew same p;
  fetch = λ repo s p. p;
  info = λ ref s p. p;
}

young : ¬ (pos 30 <ℤ days_old (100 * day) (90 * day))
unfolding days_old
young h = omega arith

not_justified :
    (repo tag : Text) → IsJustified client env [] [] repo tag → image_ref repo tag ≢ codes "app:new"
not_justified repo tag (created, _, _, reported, old, _, _) e =
    ∥∥₁_elim reported (λ x y. absurd x)
      λ (s, info, q, r).
        let here : created_of (image_ref repo tag) ≡ 90 * day =
          rw (e, text_eq_refl (codes "app:new")) in
        let same : created ≡ 90 * day = ground arith in
        young (subst (λ n. pos 30 <ℤ days_old (100 * day) n) same old)

SparesNew-deletes :
    (repo tag : Text) (u : List Text)
    → IsJustified client env [] [] repo tag
    → SparesNew u
    → SparesNew (client.delete_tag repo tag u).1
SparesNew-deletes repo tag u j p = (not_justified repo tag j, p)

run-IsJustified_example : SparesNew (codes "app:old" ∷ [])
run-IsJustified_example =
    run-IsJustified client env [] [] SparesNew SparesNew-reads [] deleted_old (codes "app:old" ∷ [])
      false SparesNew-deletes run_deletes tt

run_dry_run_example : SparesNew [] × (planned_old.deleted_tag_count ≡ 0)
run_dry_run_example =
    run_dry_run client env [] [] SparesNew SparesNew-reads [] planned_old [] run_dry tt

run-IsBalanced_example : IsBalanced deleted_old
run-IsBalanced_example =
    run-IsBalanced client env false [] [] [] deleted_old (codes "app:old" ∷ []) run_deletes

abbrev pub one_call : List Deletion
one_call = (record { repo = codes "app"; tag = codes "old"; error = none }) ∷ []

pub run_notes :
    run_purge_old_tags (noting client) env false [] [] ([], [])
    ≡ some (deleted_old, (codes "app:old" ∷ [], one_call))
unfolding whole_run
run_notes = refl

run-IsCarriedOut_example : IsCarriedOut deleted_old one_call
run-IsCarriedOut_example =
    run-IsCarriedOut client env [] [] [] deleted_old (codes "app:old" ∷ []) one_call run_notes
