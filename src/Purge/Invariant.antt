-- ===== src/Purge/Invariant.antt =====
-- registry/tasks.go: what the loops of a run keep of the client's state.
use mathlib.Core.Path.{◌≡◌, refl, subst}
use mathlib.Core.Logic.{◌⊎◌, inl, inr}
use mathlib.Core.Bool.{Bool, true, false}
use mathlib.Core.Option.{some}
use mathlib.Core.List.{List, [], ◌∷◌}
use native.Mathlib.Omega.{arith}
use registry_ui.Base.Tests.{Bool-cases, Option-cases}
use registry_ui.Base.Lists.{All}
use registry_ui.Base.Text.{Text, is_empty}
use registry_ui.Base.Map.{Map, lookup, get_or}
use registry_ui.Purge.{PurgeClient, PurgeRunResult, PurgeRepoResult, Env}
use registry_ui.Purge.Condemned.{Each, Each-get_or}
use registry_ui.Purge.Scan.{
  image_ref, Scanned, nothing_scanned, choose_catalog, catalog_of, scan_tags, scan_catalog,
}
use registry_ui.Purge.Delete.{delete_tags, delete_repo, delete_repos}
use registry_ui.Purge.Run.{
  KeepFile, failed, loaded, keep_file, aborted, purge_catalog, purge_unless_panicked,
  run_purge_old_tags,
}

module _ {S : Type 0} (c : PurgeClient S) where
  -- The calls that only read keep a property of the client's state.
  pub record IsKeptByReading (P : S → Type 0) : Type 0 where
    pub refresh : (s s' : S) → c.refresh_catalog s ≡ some s' → P s → P s'
    pub fetch : (repo : Text) (s : S) → P s → P (c.fetch_and_cache_tags_for_repo repo s).1
    pub info : (ref : Text) (s : S) → P s → P (c.get_image_info ref s).1

  module _ (P : S → Type 0) (reads : IsKeptByReading P) where
    scan_tags-keeps :
        (repo : Text) (tags : List Text) (sc : Scanned) (s : S)
        → P s
        → P (scan_tags c repo tags sc s).1
    unfolding scan_tags
    scan_tags-keeps repo [] sc s p = p
    scan_tags-keeps repo (tag ∷ tags) sc s p =
        scan_tags-keeps repo tags _ _ (reads.info (image_ref repo tag) s p)

    pub scan_catalog-keeps :
        (catalog : List Text) (sc : Scanned) (s : S) → P s → P (scan_catalog c catalog sc s).1
    unfolding scan_catalog
    scan_catalog-keeps [] sc s p = p
    scan_catalog-keeps (repo ∷ catalog) sc s p =
        scan_catalog-keeps catalog _ _ (scan_tags-keeps repo _ sc _ (reads.fetch repo s p))

    module _ (Allowed : Text → Text → Type 0)
        (deletes : (repo tag : Text) (s : S)
          → Allowed repo tag
          → P s
          → P (c.delete_tag repo tag s).1) where
      delete_tags-keeps :
          (repo : Text) (tags : List Text) (r : PurgeRunResult) (rr : PurgeRepoResult) (s : S)
          → All (Allowed repo) tags
          → P s
          → P (delete_tags c repo tags r rr s).2
      unfolding delete_tags
      delete_tags-keeps repo [] r rr s _ p = p
      delete_tags-keeps repo (tag ∷ tags) r rr s (a, h) p =
          delete_tags-keeps repo tags _ _ _ h (deletes repo tag s a p)

      delete_repo-keeps :
          (dry_run : Bool) (repo : Text) (tags : List Text) (r : PurgeRunResult) (s : S)
          → All (Allowed repo) tags
          → P s
          → P (delete_repo c dry_run repo tags r s).1
      unfolding delete_repo
      delete_repo-keeps dry_run repo [] r s h p = p
      delete_repo-keeps true repo (tag ∷ tags) r s h p = p
      delete_repo-keeps false repo (tag ∷ tags) r s h p =
          delete_tags-keeps repo (tag ∷ tags) r _ s h p

      pub delete_repos-keeps :
          (dry_run : Bool) (m : Map (List Text)) (repos : List Text) (r : PurgeRunResult) (s : S)
          → Each Allowed m
          → P s
          → P (delete_repos c dry_run m repos r s).1
      unfolding delete_repos
      delete_repos-keeps dry_run m [] r s h p = p
      delete_repos-keeps dry_run m (repo ∷ repos) r s h p =
          delete_repos-keeps dry_run m repos _ _ h
            (delete_repo-keeps dry_run repo _ r s (Each-get_or Allowed repo m h) p)

  -- In a dry run the deleting loop does nothing.
  pub delete_repos_dry_run :
      (m : Map (List Text)) (repos : List Text) (r : PurgeRunResult) (s : S)
      → delete_repos c true m repos r s ≡ (r, s)
  unfolding delete_repos delete_repo
  delete_repos_dry_run m [] r s = refl
  delete_repos_dry_run m (repo ∷ repos) r s =
      rw (nothing (get_or (lookup repo m) [])) (delete_repos_dry_run m repos r s)
    where
      nothing : (tags : List Text) → delete_repo c true repo tags r s ≡ (r, s)
      nothing [] = refl
      nothing (tag ∷ tags) = refl

pub KeepFile-cases :
    (k : KeepFile) → ((e : Text) × (k ≡ failed e)) ⊎ ((keep : Text → List Text) × (k ≡ loaded keep))
KeepFile-cases (failed e) = inl (e, refl)
KeepFile-cases (loaded keep) = inr (keep, refl)

module _ {S : Type 0} (c : PurgeClient S) (env : Env) (include excluded : Text) where
  pub catalog_of-keeps :
      (P : S → Type 0)
      → IsKeptByReading c P
      → (s : S) (catalog : List Text) (s' : S)
      → catalog_of c include excluded s ≡ some (catalog, s')
      → P s
      → P s'
  unfolding catalog_of choose_catalog
  catalog_of-keeps P reads s catalog s' e p = elim (Bool-cases (is_empty include)) [
    | inr given ↦ let same : s ≡ s' = ground arith in subst P same p
    | inl all ↦ elim (Option-cases (c.refresh_catalog s)) [
      | inl ended ↦ absurd (ground arith)
      | inr (s1, done) ↦
          let same : s1 ≡ s' = ground arith in subst P same (reads.refresh s s1 done p)
    ]
  ]

  -- A run with a result has been left by no panic.
  purged :
      (dry_run : Bool) (keep : Text → List Text) (catalog : List Text) (s : S) (r : PurgeRunResult)
      → (t : S) → purge_unless_panicked c env dry_run keep catalog s ≡ some (r, t)
      → (purge_catalog c env dry_run keep catalog s ≡ (r, t))
        × ((scan_catalog c catalog nothing_scanned s).0.panicked ≡ false)
  unfolding purge_unless_panicked
  purged dry_run keep catalog s r t e =
      elim (Bool-cases (scan_catalog c catalog nothing_scanned s).0.panicked) [
        | inl panic ↦ absurd (ground arith)
        | inr calm ↦ (ground arith, calm)
      ]

  -- A run either stops at the file or works through a catalog.
  pub run_inv :
      (dry_run : Bool) (R : PurgeRunResult → S → Type 0) (s : S)
      → ((e : Text) → keep_file env ≡ failed e → R (aborted env dry_run e) s)
      → ((keep : Text → List Text) (catalog : List Text) (s' : S)
          → keep_file env ≡ loaded keep
          → catalog_of c include excluded s ≡ some (catalog, s')
          → R
              (purge_catalog c env dry_run keep catalog s').0
              (purge_catalog c env dry_run keep catalog s').1)
      → (r : PurgeRunResult) (t : S)
      → run_purge_old_tags c env dry_run include excluded s ≡ some (r, t)
      → R r t
  unfolding run_purge_old_tags
  run_inv dry_run R s on_fail on_run r t e = elim (KeepFile-cases (keep_file env)) [
    | inl (msg, bad) ↦
        let same : ◌≡◌ {A = PurgeRunResult × S} (aborted env dry_run msg, s) (r, t) =
          ground arith in
        subst (λ x. R x.0 x.1) same (on_fail msg bad)
    | inr (keep, good) ↦ elim (Option-cases (catalog_of c include excluded s)) [
      | inl ended ↦ absurd (ground arith)
      | inr ((catalog, s'), found) ↦
          let (same, _) = purged dry_run keep catalog s' r t (ground arith) in
          subst (λ x. R x.0 x.1) same (on_run keep catalog s' good found)
    ]
  ]
