-- ===== src/Purge/Condemned.antt =====
-- registry/tasks.go: what a run knows of each tag that it scans, and of each that it plans to purge.
use Prim.Native.Nat.{ℕ}
use mathlib.Core.Path.{◌≡◌, refl, sym, subst}
use mathlib.Core.Logic.{◌≢◌, inl, inr}
use mathlib.Core.Logic.Or
use mathlib.Core.Bool.{false}
use mathlib.Core.Option.{Option, none, some}
use mathlib.Core.List.{List, [], ◌∷◌, Mem, mem-cons, not-mem-nil}
use native.Mathlib.Omega.{arith}
use registry_ui.Base.Tests.{Bool-cases, Option-cases, ◌==◌}
use registry_ui.Base.Lists.{All, All-append, All-imp}
use registry_ui.Base.Int.{◌<ℤ◌}
use registry_ui.Base.Text.{Text, text_eq}
use registry_ui.Base.TextLaws.{text_eq_iff}
use registry_ui.Base.Map.{Map, lookup, insert, get_or, lookup-insert}
use registry_ui.Common.{sorted_map_keys}
use registry_ui.Image.{Result, ok, err, ImageInfo}
use registry_ui.Purge.{PurgeClient, TagData, Env}
use registry_ui.Purge.Select.{days_old, match_by_regexp}
use registry_ui.Purge.Retention.{IsExpired, select-IsExpired}
use registry_ui.Purge.Scan.{image_ref, Scanned, record_info, scan_tags, scan_catalog}
use registry_ui.Purge.Plan.{Planned, nothing_planned, plan_repo, plan_repos, plan}

-- An element that a list holds satisfies a proposition that all of the list satisfies.
all_of_mem :
    {A : Type 0} (P : A → Type 0)
    → ((x : A) → IsProp (P x))
    → (x : A) (xs : List A) → Mem x xs
    → All P xs
    → P x
all_of_mem P pP x [] m h = absurd (not-mem-nil m)
all_of_mem P pP x (y ∷ xs) m (p, h) =
    Or.elim (pP x) (mem-cons.0 m) (λ e. subst P (sym e) p) (λ n. all_of_mem P pP x xs n h)

-- What holds of each list of a map, entry by entry.
abbrev pub Each {ℓ} : {A : Type 0} → (Text → A → Type ℓ) → Map (List A) → Type ℓ
Each Q m = (k : Text) (v : _) → lookup k m ≡ some v → All (Q k) v

pub Each-insert :
    {A : Type 0} (Q : Text → A → Type 0) (k : Text) (v : List A) (m : Map (List A))
    → All (Q k) v
    → Each Q m
    → Each Q (insert k v m)
Each-insert Q k v m new old j w e = elim (Bool-cases (text_eq k j)) [
  | inl same ↦
      let e' : v ≡ w = ground (arith, lookup-insert k j v m) in
      subst (λ i. All (Q i) w) ((text_eq_iff k j).0 same) (subst (All (Q k)) e' new)
  | inr other ↦ old j w (ground (arith, lookup-insert k j v m))
]

pub Each-get_or :
    {A : Type 0} (Q : Text → A → Type 0) (k : Text) (m : Map (List A))
    → Each Q m
    → All (Q k) (get_or (lookup k m) [])
Each-get_or Q k m h = elim (Option-cases (lookup k m)) [
  | inl e ↦ rw e tt
  | inr (v, e) ↦ rw e (h k v e)
]

pub Each-nil : {A : Type 0} (Q : Text → A → Type 0) → Each Q []
unfolding lookup
Each-nil Q k v e = absurd (ground arith)

module _ {S : Type 0} (c : PurgeClient S) where
  -- The client reported this creation time, at some moment.
  abbrev pub Reported : Text → Text → ℕ → Type 0
  Reported repo tag created = ∥ (
      (s : S) × (info : ImageInfo) × ((c.get_image_info (image_ref repo tag) s).0 ≡ some (ok info))
      × (info.created ≡ created)) ∥₁

module _ {S : Type 0} (c : PurgeClient S) (Chosen : Text → Type 0)
    (Chosen-prop : (repo : Text) → IsProp (Chosen repo)) where
  -- What is known of a scanned tag; a repository is chosen before it is scanned.
  abbrev pub Dated : Text → TagData → Type 0
  Dated repo t = Chosen repo × (t.created ≢ 0) × Reported c repo t.name t.created

  Dated-prop : (repo : Text) (t : TagData) → IsProp (Dated repo t)
  Dated-prop repo t = hlevel (Chosen-prop repo)

  record_info-Dated :
      (repo tag : Text) (s : S) (r : Option (Result ImageInfo)) (sc : Scanned)
      → Chosen repo
      → (c.get_image_info (image_ref repo tag) s).0 ≡ r
      → Each Dated sc.repos
      → Each Dated (record_info repo tag r sc).repos
  unfolding record_info
  record_info-Dated repo tag s none sc chosen q h = h
  record_info-Dated repo tag s (some (err e)) sc chosen q h = h
  record_info-Dated repo tag s (some (ok info)) sc chosen q h =
      elim (Bool-cases (info.created == 0)) [
        | inl zero_date ↦ rw zero_date h
        | inr dated ↦ rw dated (
            Each-insert Dated repo _ sc.repos
              (All-append (Dated repo) (get_or (lookup repo sc.repos) []) _
                (Each-get_or Dated repo sc.repos h)
                ((chosen, (λ e. ground arith), ∣ (s, info, q, refl) ∣₁), tt))
              h)
      ]

  scan_tags-Dated :
      (repo : Text) (tags : List Text) (sc : Scanned) (s : S)
      → Chosen repo
      → Each Dated sc.repos
      → Each Dated (scan_tags c repo tags sc s).0.repos
  unfolding scan_tags
  scan_tags-Dated repo [] sc s chosen h = h
  scan_tags-Dated repo (tag ∷ tags) sc s chosen h =
      scan_tags-Dated repo tags _ _ chosen
        (record_info-Dated repo tag s (c.get_image_info (image_ref repo tag) s).0 sc chosen refl h)

  pub scan_catalog-Dated :
      (catalog : List Text) (sc : Scanned) (s : S)
      → All Chosen catalog
      → Each Dated sc.repos
      → Each Dated (scan_catalog c catalog sc s).0.repos
  unfolding scan_catalog
  scan_catalog-Dated [] sc s _ h = h
  scan_catalog-Dated (repo ∷ catalog) sc s (chosen, all) h =
      scan_catalog-Dated catalog _ _ all (scan_tags-Dated repo _ sc _ chosen h)

  module _ (env : Env) (file_tags : Text → List Text) where
    -- What must be known of a tag before it may be deleted: its repository is chosen, a creation time was reported for it, it
    -- is older than `keep_days`, and neither `keep_regexp` nor the file keeps it.
    abbrev pub Condemned : Text → Text → Type 0
    Condemned repo tag =
        (created : ℕ) × Chosen repo
        × (created ≢ 0)
        × Reported c repo tag created
        × (env.settings.keep_days <ℤ days_old env.now created)
        × (match_by_regexp env tag ≡ false)
        × (¬ Mem tag (file_tags repo))

    Condemned-of_IsExpired :
        (repo : Text) (tags : List TagData) (tag : Text)
        → All (Dated repo) tags
        → IsExpired env (file_tags repo) tags tag
        → Condemned repo tag
    Condemned-of_IsExpired repo tags tag h (t, m, e, old, unmatched, unlisted) =
        let (chosen, dated, reported) = all_of_mem (Dated repo) (Dated-prop repo) t tags m h in
        (
          t.created,
          chosen,
          dated,
          subst (λ n. Reported c repo n t.created) e reported,
          old,
          unmatched,
          unlisted,
        )

    plan_repo-Condemned :
        (sc : Scanned) (repo : Text) (p : Planned)
        → Each Dated sc.repos
        → Each Condemned p.purge_tags
        → Each Condemned (plan_repo env file_tags sc repo p).purge_tags
    unfolding plan_repo
    plan_repo-Condemned sc repo p dated h =
        let tags = get_or (lookup repo sc.repos) [] in
        Each-insert Condemned repo _ p.purge_tags
          (All-imp (IsExpired env (file_tags repo) tags) (Condemned repo)
            (λ tag. Condemned-of_IsExpired repo tags tag (Each-get_or Dated repo sc.repos dated)) _
            (select-IsExpired env (file_tags repo) tags))
          h

    pub plan_repos-Condemned :
        (sc : Scanned) (repos : List Text) (p : Planned)
        → Each Dated sc.repos
        → Each Condemned p.purge_tags
        → Each Condemned (plan_repos env file_tags sc repos p).purge_tags
    unfolding plan_repos
    plan_repos-Condemned sc [] p dated h = h
    plan_repos-Condemned sc (repo ∷ repos) p dated h =
        plan_repos-Condemned sc repos _ dated (plan_repo-Condemned sc repo p dated h)

    pub plan-Condemned :
        (sc : Scanned) → Each Dated sc.repos → Each Condemned (plan env file_tags sc).purge_tags
    unfolding plan
    plan-Condemned sc dated =
        plan_repos-Condemned sc (sorted_map_keys sc.repos) nothing_planned dated
          (Each-nil Condemned)
