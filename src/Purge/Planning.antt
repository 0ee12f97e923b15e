-- ===== src/Purge/Planning.antt =====
-- registry/tasks.go: the plan's counters, and a run's result as a whole.
use Prim.Native.Nat.{ℕ, ◌≤◌}
use mathlib.Core.Path.{◌≡◌, refl, sym, ◌∙◌}
use mathlib.Core.Logic.{◌≢◌, inl, inr}
use mathlib.Core.Bool.{Bool, true, false}
use mathlib.Core.Option.{Option, none, some}
use mathlib.Core.List.{List, [], ◌∷◌}
use native.Mathlib.Omega.{arith}
use registry_ui.Base.Tests.{◌==◌, Bool-cases}
use registry_ui.Base.Lists.{length, length-append, All, All-imp₂, All-of_forall, sum_by}
use registry_ui.Base.Text.{Text, text_eq, text_lt}
use registry_ui.Base.TextLaws.{text_eq_iff}
use registry_ui.Base.Sort.{sort_strings}
use registry_ui.Base.Map.{lookup, keys, get_or, lookup-insert}
use registry_ui.Base.Map.Totals.{
  IsDistinct, total, measure, total-insert_new, keys-insert-IsDistinct, sum_by-keys, sum_by-sort_by,
  sort_by-IsDistinct,
}
use registry_ui.Common.{sorted_map_keys}
use registry_ui.Image.{Result, ok, err, ImageInfo}
use registry_ui.Purge.{PurgeClient, PurgeRepoResult, Env}
use registry_ui.Purge.Select.{select_tags}
use registry_ui.Purge.Scan.{
  Scanned, nothing_scanned, info_error, record_info, scan_tags, scan_catalog,
}
use registry_ui.Purge.Plan.{Planned, nothing_planned, purge_size, plan_repo, plan_repos, plan}
use registry_ui.Purge.Counts.{candidate_count, deleted_count, IsBalanced}
use registry_ui.Purge.Run.{aborted, planned_result}

-- What the scan keeps: distinct repositories, and `success` exactly while there is no error.
pub record IsScan (sc : Scanned) : Type 0 where
  pub distinct : IsDistinct (keys sc.repos)
  pub no_error : sc.success ≡ true → length sc.errors ≡ 0
  pub some_error : sc.success ≡ false → 1 ≤ length sc.errors

record_info-IsScan :
    (repo tag : Text) (r : Option (Result ImageInfo)) (sc : Scanned)
    → IsScan sc
    → IsScan (record_info repo tag r sc)
unfolding record_info
record_info-IsScan repo tag none sc h = record {
  distinct = h.distinct;
  no_error = h.no_error;
  some_error = h.some_error;
}
record_info-IsScan repo tag (some (err e)) sc h = record {
  distinct = h.distinct;
  no_error = λ q. absurd (ground arith);
  some_error = λ q. omega (arith, length-append sc.errors (info_error repo tag e ∷ []));
}
record_info-IsScan repo tag (some (ok info)) sc h = elim (Bool-cases (info.created == 0)) [
  | inl e ↦
      rw e (record { distinct = h.distinct; no_error = h.no_error; some_error = h.some_error })
  | inr e ↦ rw e (record {
    distinct = keys-insert-IsDistinct repo _ sc.repos h.distinct;
    no_error = h.no_error;
    some_error = h.some_error;
  })
]

module _ {S : Type 0} (c : PurgeClient S) where
  scan_tags-IsScan :
      (repo : Text) (tags : List Text) (sc : Scanned) (s : S)
      → IsScan sc
      → IsScan (scan_tags c repo tags sc s).0
  unfolding scan_tags
  scan_tags-IsScan repo [] sc s h = h
  scan_tags-IsScan repo (tag ∷ tags) sc s h =
      scan_tags-IsScan repo tags _ _ (record_info-IsScan repo tag _ sc h)

  pub scan_catalog-IsScan :
      (catalog : List Text) (sc : Scanned) (s : S)
      → IsScan sc
      → IsScan (scan_catalog c catalog sc s).0
  unfolding scan_catalog
  scan_catalog-IsScan [] sc s h = h
  scan_catalog-IsScan (repo ∷ catalog) sc s h =
      scan_catalog-IsScan catalog _ _ (scan_tags-IsScan repo _ sc _ h)

-- What the plan keeps: the counter is the sum over both maps, and no key repeats.
pub record IsPlan (p : Planned) : Type 0 where
  pub distinct : IsDistinct (keys p.purge_tags)
  pub purge_total : total length p.purge_tags ≡ p.total_candidates
  pub repo_total : total candidate_count p.repositories ≡ p.total_candidates
  pub none_deleted : total deleted_count p.repositories ≡ 0

-- The repository has not been planned yet.
abbrev IsFresh : Planned → Text → Type 0
IsFresh p repo = (lookup repo p.purge_tags ≡ none) × (lookup repo p.repositories ≡ none)

module _ (env : Env) (file_tags : Text → List Text) (sc : Scanned) where
  plan_repo-IsFresh :
      (repo j : Text) (p : Planned)
      → repo ≢ j
      → IsFresh p j
      → IsFresh (plan_repo env file_tags sc repo p) j
  unfolding plan_repo
  plan_repo-IsFresh repo j p n (a, b) = elim (Bool-cases (text_eq repo j)) [
    | inl e ↦ absurd (n ((text_eq_iff repo j).0 e))
    | inr e ↦ (rw (lookup-insert, e) a, rw (lookup-insert, e) b)
  ]

  plan_repo-IsPlan :
      (repo : Text) (p : Planned)
      → IsFresh p repo
      → IsPlan p
      → IsPlan (plan_repo env file_tags sc repo p)
  unfolding plan_repo
  plan_repo-IsPlan repo p (a, b) h =
      let purge = (select_tags env (file_tags repo) (get_or (lookup repo sc.repos) [])).1 in
      let rr : PurgeRepoResult = record {
        candidate_tag_count = length purge;
        deleted_tag_count = 0;
        estimated_freed_bytes = purge_size sc.image_sizes repo purge 0;
        tags = purge;
      } in
      record {
        distinct = keys-insert-IsDistinct repo _ p.purge_tags h.distinct;
        purge_total =
            omega (arith, total-insert_new {V = List Text} length repo purge p.purge_tags a);
        repo_total = omega (arith, total-insert_new candidate_count repo rr p.repositories b);
        none_deleted = omega (arith, total-insert_new deleted_count repo rr p.repositories b);
      }

  plan_repos-IsPlan :
      (repos : List Text) (p : Planned)
      → IsDistinct repos
      → All (IsFresh p) repos
      → IsPlan p
      → IsPlan (plan_repos env file_tags sc repos p)
  unfolding plan_repos
  plan_repos-IsPlan [] p d f h = h
  plan_repos-IsPlan (repo ∷ repos) p (n, d) (f, fs) h =
      plan_repos-IsPlan repos _ d
        (All-imp₂ (λ j. repo ≢ j) (IsFresh p) (IsFresh (plan_repo env file_tags sc repo p))
          (λ j. plan_repo-IsFresh repo j p) repos n fs)
        (plan_repo-IsPlan repo p f h)

  pub plan-IsPlan : IsScan sc → IsPlan (plan env file_tags sc)
  unfolding plan sorted_map_keys sort_strings lookup
  plan-IsPlan h =
      plan_repos-IsPlan (sorted_map_keys sc.repos) nothing_planned
        (sort_by-IsDistinct text_lt (keys sc.repos) h.distinct)
        (All-of_forall (IsFresh nothing_planned) (λ repo. (refl, refl)) (sorted_map_keys sc.repos))
        (record { distinct = tt; purge_total = refl; repo_total = refl; none_deleted = refl })

pub planned_result-IsBalanced :
    (env : Env) (dry_run : Bool) (n : ℕ) (sc : Scanned) (p : Planned)
    → IsScan sc
    → IsPlan p
    → IsBalanced (planned_result env dry_run n sc p)
unfolding planned_result
planned_result-IsBalanced env dry_run n sc p h k = record {
  candidates = sym k.repo_total;
  deleted = sym k.none_deleted;
  no_error = h.no_error;
  some_error = h.some_error;
}

-- The deletions try as many tags as the plan counts.
pub planned_count :
    (p : Planned)
    → IsPlan p
    → sum_by (λ repo. measure length (lookup repo p.purge_tags)) (sorted_map_keys p.purge_tags)
      ≡ p.total_candidates
unfolding sorted_map_keys sort_strings
planned_count p h =
    sum_by-sort_by text_lt (λ repo. measure length (lookup repo p.purge_tags)) (keys p.purge_tags)
    ∙ sum_by-keys length p.purge_tags h.distinct
    ∙ h.purge_total

pub nothing_scanned-IsScan : IsScan nothing_scanned
nothing_scanned-IsScan = record {
  distinct = tt;
  no_error = λ _. refl;
  some_error = λ e. absurd (ground arith);
}

pub aborted-IsBalanced :
    (env : Env) (dry_run : Bool) (e : Text) → IsBalanced (aborted env dry_run e)
unfolding aborted
aborted-IsBalanced env dry_run e = ground arith
