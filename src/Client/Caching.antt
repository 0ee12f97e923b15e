-- ===== src/Client/Caching.antt =====
-- registry/client.go: what refreshing the catalog and listing tags do to the client.
use mathlib.Core.Path.{◌≡◌, refl, ap, sym, ◌∙◌}
use mathlib.Core.Logic.{◌≢◌, ◌⊎◌, inl, inr}
use mathlib.Core.Bool.{Bool, true}
use mathlib.Core.Option.{Option, none, some}
use mathlib.Core.List.{List, [], ◌∷◌, ◌++◌}
use native.Mathlib.Omega.{arith}
use registry_ui.Base.Tests.{if◌then◌else◌, Bool-cases}
use registry_ui.Base.Lists.{All}
use registry_ui.Base.Text.{Text, codes, text_eq}
use registry_ui.Base.TextLaws.{text_eq_iff, text_eq_refl}
use registry_ui.Base.Map.{lookup, lookup-insert}
use registry_ui.Image.{Result, ok, err}
use registry_ui.Client.{JobInfo, Client, ClientConfig, Remote}
use registry_ui.Client.Cache.{
  page_repos, show_pages, store_repos, refresh_catalog, cache_tags, fetch_and_cache_tags_for_repo,
  is_online, tags_or_none, list_tags, fetch_all,
}

pub Result-cases {ℓ} :
    {A : Type ℓ} (r : Result A) → ((a : A) × (r ≡ ok a)) ⊎ ((e : Text) × (r ≡ err e))
Result-cases (ok a) = inl (a, refl)
Result-cases (err e) = inr (e, refl)

-- The repositories that a stored list leaves: the old ones, or a list that is not empty.
store_repos-repos :
    (repos : List Text) (pages : List (Option (List Text))) (c : Client)
    → c.is_catalog_ready ≡ true
    → ((store_repos repos (show_pages pages c)).repos ≡ c.repos)
      ⊎ ((store_repos repos (show_pages pages c)).repos ≢ [])
unfolding store_repos show_pages
store_repos-repos [] pages c h = inl (rw h refl)
store_repos-repos (repo ∷ repos) pages c h = inr (λ e. ground arith)

module _ {R : Type 0} (remote : Remote R) where
  refresh_failed :
      (job : JobInfo) (c : Client) (s : R) (x : Text)
      → (remote.catalogger s).0 ≡ err x
      → c.is_catalog_ready ≡ true
      → refresh_catalog remote job (c, s) ≡ some (c, (remote.catalogger s).1)
  unfolding refresh_catalog
  refresh_failed job c s x e h =
      rw (e, refresh_catalog) (ap (λ b. if b then some (c, (remote.catalogger s).1) else none) h)

  -- A client that has its catalog once never ends the process by a refresh, stays ready, and
  -- keeps its repositories unless the refresh has found some.
  pub refresh_catalog_ready :
      (job : JobInfo) (c : Client) (s : R)
      → c.is_catalog_ready ≡ true
      → (w : Client × R) × (refresh_catalog remote job (c, s) ≡ some w)
        × (w.0.is_catalog_ready ≡ true)
        × ((w.0.repos ≡ c.repos) ⊎ (w.0.repos ≢ []))
  unfolding refresh_catalog
  refresh_catalog_ready job c s h = elim (Result-cases (remote.catalogger s).0) [
    | inl (pages, e) ↦
        rw (e, refresh_catalog) (_, refl, refl, store_repos-repos (page_repos pages) pages c h)
    | inr (x, e) ↦ ((c, (remote.catalogger s).1), refresh_failed job c s x e h, h, inl refl)
  ]

module _ {R : Type 0} (remote : Remote R) (config : ClientConfig) where
  -- The cache of `r` behind a call for `repo`.
  abbrev pub entry_behind : Text → Text → Option (List Text) → Client → Option (List Text)
  entry_behind repo r none c = lookup r c.tags_cache
  entry_behind repo r (some tags) c = if text_eq repo r then some tags else lookup r c.tags_cache

  cache_tags-lookup :
      (repo r : Text) (tags : Result (List Text)) (c : Client)
      → lookup r (cache_tags repo tags c).1.tags_cache
        ≡ entry_behind repo r (cache_tags repo tags c).0 c
  unfolding cache_tags
  cache_tags-lookup repo r (err e) c = refl
  cache_tags-lookup repo r (ok tags) c = lookup-insert repo r tags c.tags_cache

  -- Fetching the tags of a repository caches what it returns, and where it fails, or for
  -- another repository, the cache stays as it was.
  pub fetch-lookup :
      (repo r : Text) (c : Client) (s : R)
      → lookup r (fetch_and_cache_tags_for_repo remote config repo (c, s)).1.0.tags_cache
        ≡ entry_behind repo r (fetch_and_cache_tags_for_repo remote config repo (c, s)).0 c
  unfolding fetch_and_cache_tags_for_repo
  fetch-lookup repo r c s =
      elim (Result-cases (remote.new_repository (config.hostname ++ codes "/" ++ repo))) [
        | inl (x, e) ↦
            rw (e, fetch_and_cache_tags_for_repo) (cache_tags-lookup repo r (remote.list x s).0 c)
        | inr (x, e) ↦ rw (e, fetch_and_cache_tags_for_repo) refl
      ]

  tags_or_none-some :
      (found : Option (List Text)) (tags : List Text)
      → tags_or_none found ≡ (tags, true)
      → found ≡ some tags
  unfolding tags_or_none
  tags_or_none-some none tags h = absurd (ground (arith, ap (λ p. p.1) h))
  tags_or_none-some (some found) tags h = ap (λ (p : List Text × Bool). some p.0) h

  entry_behind_same :
      (repo : Text) (found : Option (List Text)) (tags : List Text) (c : Client)
      → found ≡ some tags
      → entry_behind repo repo found c ≡ some tags
  entry_behind_same repo found tags c h = rw (h, text_eq_refl repo) refl

  entry_behind_other :
      (repo r : Text) (found : Option (List Text)) (c : Client)
      → repo ≢ r
      → entry_behind repo r found c ≡ lookup r c.tags_cache
  entry_behind_other repo r none c n = refl
  entry_behind_other repo r (some tags) c n = ground (arith, text_eq_iff repo r)

  -- Tags that are listed as there are the ones that are cached when the call returns, whether the
  -- call has asked the registry or not.
  pub list_tags_cached :
      (repo : Text) (c : Client) (s : R) (tags : List Text) (w : Client × R)
      → list_tags remote config repo (c, s) ≡ ((tags, true), w)
      → lookup repo w.0.tags_cache ≡ some tags
  unfolding list_tags
  list_tags_cached repo c s tags w h =
      elim (Bool-cases (is_online remote config (lookup repo c.tags_cache))) [
        | inl e ↦
            let f = fetch_and_cache_tags_for_repo remote config repo (c, s) in
            let opened : ◌≡◌ {A = (List Text × Bool) × (Client × R)}
                (list_tags remote config repo (c, s)) (tags_or_none f.0, f.1) =
              rw (e, list_tags) refl in
            let same : ◌≡◌ {A = (List Text × Bool) × (Client × R)} (tags_or_none f.0, f.1)
                ((tags, true), w) =
              sym opened ∙ h in
            rw (← (ap (λ p. p.1) same)) (
              fetch-lookup repo repo c s
              ∙ entry_behind_same repo f.0 tags c (tags_or_none-some f.0 tags (ap (λ p. p.0) same)))
        | inr e ↦
            let found = lookup repo c.tags_cache in
            let opened : ◌≡◌ {A = (List Text × Bool) × (Client × R)}
                (list_tags remote config repo (c, s)) (tags_or_none found, (c, s)) =
              rw (e, list_tags) refl in
            let same : ◌≡◌ {A = (List Text × Bool) × (Client × R)} (tags_or_none found, (c, s))
                ((tags, true), w) =
              sym opened ∙ h in
            rw (← (ap (λ p. p.1) same)) (tags_or_none-some found tags (ap (λ p. p.0) same))
      ]

  -- Fetching the tags of a list of repositories leaves the cache of every other one alone.
  pub fetch_all-lookup :
      (r : Text) (repos : List Text) (c : Client) (s : R)
      → All (λ repo. repo ≢ r) repos
      → lookup r (fetch_all remote config repos (c, s)).0.tags_cache ≡ lookup r c.tags_cache
  unfolding fetch_all
  fetch_all-lookup r [] c s h = refl
  fetch_all-lookup r (repo ∷ repos) c s (n, h) =
      let f = fetch_and_cache_tags_for_repo remote config repo (c, s) in
      fetch_all-lookup r repos f.1.0 f.1.1 h
      ∙ (fetch-lookup repo r c s ∙ entry_behind_other repo r f.0 c n)
