-- ===== src/Main/Serving/Reported.antt =====
-- main.go, registry/client.go: what the pages list has been reported by the registry.
use mathlib.Core.Path.{◌≡◌, refl, sym, subst}
use mathlib.Core.Logic.{inl, inr}
use mathlib.Core.Bool.{Bool, true, false}
use mathlib.Core.Option.{Option, none, some}
use mathlib.Core.List.{List, [], ◌∷◌, ◌++◌, Mem}
use registry_ui.Base.Tests.{if◌then◌else◌, Bool-cases, Option-cases}
use registry_ui.Base.Lists.{All, All-append}
use registry_ui.Base.Text.{Text, codes, text_eq}
use registry_ui.Base.Map.{lookup}
use registry_ui.Image.{Result, ok, err}
use registry_ui.Common.Unique.{All-forall_mem}
use registry_ui.Purge.Condemned.{Each, Each-insert, Each-nil}
use registry_ui.Client.{Client, JobInfo}
use registry_ui.Client.Cache.{
  page_repos, show_pages, store_repos, refresh_catalog, cache_tags, fetch_and_cache_tags_for_repo,
}
use registry_ui.Client.History.{new_client}
use registry_ui.Client.Sound.{stored-tags_cache, delete_tag-client}
use registry_ui.Client.Caching.{Result-cases}
use registry_ui.Client.Delete.{without_tag, store_updated, uncache_tag, delete_tag}
use registry_ui.Main.Requests.{App, Server}
use registry_ui.Main.Serving.{Happening, history}
use registry_ui.Main.Serving.Kept.{IsKeptByCalls}
use registry_ui.Main.Serving.Purged.{history-IsLicensed}

module _ {R D J V X : Type 0} (app : App R D J V X) where
  -- The library has given this tag for the repository, at some moment.
  abbrev pub WasListed : Text → Text → Type 0
  WasListed repo tag = ∥ (
      (s : R) × (x : Text) × (tags : List Text) × (app.remote.new_repository
          (app.client_config.hostname ++ codes "/" ++ repo)
        ≡ ok x)
      × ((app.remote.list x s).0 ≡ ok tags)
      × Mem tag tags) ∥₁

  -- The library has given this repository in a catalog, at some moment.
  abbrev pub WasCatalogued : Text → Type 0
  WasCatalogued repo = ∥ (
      (s : R) × (pages : List (Option (List Text))) × ((app.remote.catalogger s).0 ≡ ok pages)
      × Mem repo (page_repos pages)) ∥₁

  -- All that the client holds has been reported.
  abbrev pub IsReported : Client → Type 0
  IsReported c = All WasCatalogued c.repos × Each WasListed c.tags_cache

  without_tag-All :
      (P : Text → Type 0) (tag : Text) (tags : List Text)
      → All P tags
      → All P (without_tag tag tags)
  unfolding without_tag
  without_tag-All P tag [] h = tt
  without_tag-All P tag (t ∷ tags) (p, h) = elim (Bool-cases (text_eq t tag)) [
    | inl e ↦ rw (e, without_tag) (without_tag-All P tag tags h)
    | inr e ↦ rw (e, without_tag) (p, without_tag-All P tag tags h)
  ]

  cache_tags-IsReported :
      (repo x : Text) (s : R) (tags : Result (List Text)) (c : Client)
      → app.remote.new_repository (app.client_config.hostname ++ codes "/" ++ repo) ≡ ok x
      → (app.remote.list x s).0 ≡ tags
      → IsReported c
      → IsReported (cache_tags repo tags c).1
  unfolding cache_tags
  cache_tags-IsReported repo x s (err e) c named listed h = h
  cache_tags-IsReported repo x s (ok tags) c named listed (h, k) = (
    h,
    Each-insert WasListed repo tags c.tags_cache
        (All-forall_mem (WasListed repo) tags (λ tag m. ∣ (s, x, tags, named, listed, m) ∣₁)) k,
  )

  fetch-IsReported :
      (repo : Text) (w : Client × R)
      → IsReported w.0
      → IsReported (fetch_and_cache_tags_for_repo app.remote app.client_config repo w).1.0
  unfolding fetch_and_cache_tags_for_repo
  fetch-IsReported repo (c, s) h =
      elim (Result-cases
        (app.remote.new_repository (app.client_config.hostname ++ codes "/" ++ repo))) [
          | inr (x, e) ↦ rw (e, fetch_and_cache_tags_for_repo) h
          | inl (x, e) ↦
              rw (e, fetch_and_cache_tags_for_repo)
                (cache_tags-IsReported repo x s (app.remote.list x s).0 c e refl h)
        ]

  uncache_tag-IsReported :
      (repo tag : Text) (e : Option Text) (c : Client)
      → IsReported c
      → IsReported (uncache_tag repo tag e c)
  unfolding uncache_tag store_updated
  uncache_tag-IsReported repo tag (some e) c h = h
  uncache_tag-IsReported repo tag none c (h, k) = elim (Option-cases (lookup repo c.tags_cache)) [
    | inl n ↦ rw (n, uncache_tag, store_updated) (h, k)
    | inr (tags, n) ↦
        rw (n, uncache_tag, store_updated)
          (
            h,
            Each-insert WasListed repo (without_tag tag tags) c.tags_cache
                (without_tag-All (WasListed repo) tag tags (k repo tags n)) k,
          )
  ]

  delete_tag-IsReported :
      (repo tag : Text) (w : Client × R)
      → IsReported w.0
      → IsReported (delete_tag app.remote app.client_config repo tag w).1.0
  delete_tag-IsReported repo tag w h =
      let (e, same) = delete_tag-client app.remote app.client_config repo tag w in
      subst IsReported (sym same) (uncache_tag-IsReported repo tag e w.0 h)

  show_pages-All :
      (P : Text → Type 0) (pages : List (Option (List Text))) (c : Client)
      → All P (page_repos pages)
      → All P c.repos
      → All P (show_pages pages c).repos
  unfolding show_pages
  show_pages-All P pages c new old = elim (Bool-cases c.is_catalog_ready) [
    | inl e ↦ rw (e, show_pages) old
    | inr e ↦ rw (e, show_pages) (All-append P c.repos (page_repos pages) old new)
  ]

  store_repos-All :
      (P : Text → Type 0) (repos : List Text) (c : Client)
      → All P repos
      → All P c.repos
      → All P (store_repos repos c).repos
  unfolding store_repos
  store_repos-All P [] c new old = old
  store_repos-All P (repo ∷ repos) c new old = new

  IsReportedIfAny : Option (Client × R) → Type 0
  IsReportedIfAny none = Unit
  IsReportedIfAny (some w) = IsReported w.0

  refresh_failed-IsReported :
      (c : Client) (s : R) (b : Bool)
      → IsReported c
      → IsReportedIfAny (if b then some (c, s) else none)
  unfolding IsReportedIfAny
  refresh_failed-IsReported c s true h = h
  refresh_failed-IsReported c s false h = tt

  refresh_catalog-IsReported :
      (job : JobInfo) (w : Client × R)
      → IsReported w.0
      → IsReportedIfAny (refresh_catalog app.remote job w)
  unfolding refresh_catalog IsReportedIfAny
  refresh_catalog-IsReported job (c, s) (h, k) = elim (Result-cases (app.remote.catalogger s).0) [
    | inl (pages, e) ↦
        let new =
          All-forall_mem WasCatalogued (page_repos pages) (λ repo m. ∣ (s, pages, e, m) ∣₁) in
        rw (e, refresh_catalog)
          (
            store_repos-All WasCatalogued (page_repos pages) (show_pages pages c) new
                (show_pages-All WasCatalogued pages c new h),
            subst (Each WasListed) (sym (stored-tags_cache (page_repos pages) pages c)) k,
          )
    | inr (x, e) ↦
        rw (e, refresh_catalog)
          (refresh_failed-IsReported c (app.remote.catalogger s).1 c.is_catalog_ready (h, k))
  ]

  IsReported-IsKeptByCalls : IsKeptByCalls app (λ w. IsReported w.0)
  unfolding IsReportedIfAny
  IsReported-IsKeptByCalls = record {
    refresh = λ job w w' e h. subst IsReportedIfAny e (refresh_catalog-IsReported job w h);
    fetch = fetch-IsReported;
    info = λ ref w h. h;
    stamp = λ job w h. h;
    others = λ x w h. h;
  }

  -- Whatever happens in the running program, from the client of `NewClient` on, each repository of its
  -- catalog has been in a catalog of the registry, and each tag that is cached for a repository
  -- has been in a list of the registry for that repository.
  pub history-IsReported :
      (events : List (Happening X)) (s : Server R D)
      → s.client ≡ new_client
      → IsReported (history app events s).client
  history-IsReported events s fresh =
      history-IsLicensed app (λ w. IsReported w.0) IsReported-IsKeptByCalls events s
        (λ repo tag w _ h. delete_tag-IsReported repo tag w h)
        (subst IsReported (sym fresh) (tt, Each-nil WasListed))
