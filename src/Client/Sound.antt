-- ===== src/Client/Sound.antt =====
-- registry/client.go: what each operation of a client keeps.
use mathlib.Core.Path.{◌≡◌, refl, ap, sym, subst}
use mathlib.Core.Logic.{inl, inr}
use mathlib.Core.Bool.{Bool, true, false}
use mathlib.Core.Option.{Option, none, some}
use mathlib.Core.List.{List, [], ◌∷◌, ◌++◌}
use registry_ui.Base.Tests.{if◌then◌else◌, Bool-cases, Option-cases}
use registry_ui.Base.Text.{Text, codes}
use registry_ui.Base.Map.{lookup}
use registry_ui.Base.Map.Distinct.{IsDistinct, insert-IsDistinct}
use registry_ui.Image.{Result, ok, err}
use registry_ui.Client.{JobInfo, Client, ClientConfig, Remote, Reference, Descriptor}
use registry_ui.Client.Cache.{
  page_repos, show_pages, store_repos, refresh_catalog, cache_tags, fetch_and_cache_tags_for_repo,
  is_online, list_tags, fetch_all, refresh_tags,
}
use registry_ui.Client.Delete.{
  without_tag, store_updated, uncache_tag, delete_reference, delete_described, delete_tag,
  reference_of,
}
use registry_ui.Client.Caching.{Result-cases}

-- A client whose cache has no repository twice if that of the other has none, and that is ready if
-- the other is.
abbrev pub IsSound : Client → Client → Type 0
IsSound c c' =
    (IsDistinct c.tags_cache → IsDistinct c'.tags_cache)
    × (c.is_catalog_ready ≡ true → c'.is_catalog_ready ≡ true)

-- What a refresh of the catalog gives is sound, where it does not end the process.
abbrev pub IsSoundIfAny : {R : Type 0} → Client → Option (Client × R) → Type 0
IsSoundIfAny c none = Unit
IsSoundIfAny c (some w) = IsSound c w.0

show_pages-tags_cache :
    (pages : List (Option (List Text))) (c : Client)
    → (show_pages pages c).tags_cache ≡ c.tags_cache
unfolding show_pages
show_pages-tags_cache pages c = elim (Bool-cases c.is_catalog_ready) [
  | inl e ↦
      ap (λ b. (if b then c else record c { repos = c.repos ++ page_repos pages }).tags_cache) e
  | inr e ↦
      ap (λ b. (if b then c else record c { repos = c.repos ++ page_repos pages }).tags_cache) e
]

pub stored-tags_cache :
    (repos : List Text) (pages : List (Option (List Text))) (c : Client)
    → (store_repos repos (show_pages pages c)).tags_cache ≡ c.tags_cache
unfolding store_repos
stored-tags_cache [] pages c = show_pages-tags_cache pages c
stored-tags_cache (repo ∷ repos) pages c = show_pages-tags_cache pages c

module _ {R : Type 0} (remote : Remote R) (config : ClientConfig) where
  cache_tags-IsSound :
      (repo : Text) (tags : Result (List Text)) (c : Client) → IsSound c (cache_tags repo tags c).1
  unfolding cache_tags
  cache_tags-IsSound repo (err e) c = ((λ h. h), (λ h. h))
  cache_tags-IsSound repo (ok tags) c = (insert-IsDistinct repo tags c.tags_cache, (λ h. h))

  pub fetch-IsSound :
      (repo : Text) (w : Client × R)
      → IsSound w.0 (fetch_and_cache_tags_for_repo remote config repo w).1.0
  unfolding fetch_and_cache_tags_for_repo
  fetch-IsSound repo (c, s) =
      elim (Result-cases (remote.new_repository (config.hostname ++ codes "/" ++ repo))) [
        | inr (x, e) ↦ rw (e, fetch_and_cache_tags_for_repo) ((λ h. h), (λ h. h))
        | inl (x, e) ↦
            rw (e, fetch_and_cache_tags_for_repo) (cache_tags-IsSound repo (remote.list x s).0 c)
      ]

  pub list_tags-IsSound :
      (repo : Text) (w : Client × R) → IsSound w.0 (list_tags remote config repo w).1.0
  unfolding list_tags
  list_tags-IsSound repo (c, s) =
      elim (Bool-cases (is_online remote config (lookup repo c.tags_cache))) [
        | inl e ↦ rw (e, list_tags) (fetch-IsSound repo (c, s))
        | inr e ↦ rw (e, list_tags) ((λ h. h), (λ h. h))
      ]

  fetch_all-IsSound :
      (repos : List Text) (w : Client × R) → IsSound w.0 (fetch_all remote config repos w).0
  unfolding fetch_all
  fetch_all-IsSound [] w = ((λ h. h), (λ h. h))
  fetch_all-IsSound (repo ∷ repos) w =
      let one = fetch-IsSound repo w in
      let more = fetch_all-IsSound repos (fetch_and_cache_tags_for_repo remote config repo w).1 in
      ((λ h. more.0 (one.0 h)), (λ h. more.1 (one.1 h)))

  uncache_tag-IsSound :
      (repo tag : Text) (e : Option Text) (c : Client) → IsSound c (uncache_tag repo tag e c)
  unfolding uncache_tag store_updated
  uncache_tag-IsSound repo tag (some e) c = ((λ h. h), (λ h. h))
  uncache_tag-IsSound repo tag none c = elim (Option-cases (lookup repo c.tags_cache)) [
    | inl n ↦ rw (n, uncache_tag, store_updated) ((λ h. h), (λ h. h))
    | inr (tags, n) ↦
        rw (n, uncache_tag, store_updated)
          (insert-IsDistinct repo (without_tag tag tags) c.tags_cache, (λ h. h))
  ]

  delete_reference-client :
      (repo tag : Text) (ref : Result Reference) (w : Client × R)
      → (e : Option Text) × ((delete_reference remote config repo tag ref w).1.0
          ≡ uncache_tag repo tag e w.0)
  unfolding delete_reference uncache_tag
  delete_reference-client repo tag (err e) w = (some e, refl)
  delete_reference-client repo tag (ok ref) (c, s) = ((remote.delete ref s).0, refl)

  delete_described-client :
      (repo tag : Text) (ref : Reference) (descr : Result Descriptor) (w : Client × R)
      → (e : Option Text) × ((delete_described remote config repo tag ref descr w).1.0
          ≡ uncache_tag repo tag e w.0)
  unfolding delete_described uncache_tag
  delete_described-client repo tag ref (err e) w = (some e, refl)
  delete_described-client repo tag ref (ok descr) w =
      delete_reference-client repo tag
        (reference_of remote config (ref.repository_str ++ codes "@" ++ descr.digest)) w

  -- The client behind a deletion is that of the removal from the cache, for some error or none.
  pub delete_tag-client :
      (repo tag : Text) (w : Client × R)
      → (e : Option Text) × ((delete_tag remote config repo tag w).1.0 ≡ uncache_tag repo tag e w.0)
  unfolding delete_tag uncache_tag
  delete_tag-client repo tag (c, s) =
      elim (Result-cases (reference_of remote config (repo ++ codes ":" ++ tag))) [
        | inr (x, e) ↦ rw (e, delete_tag) (some x, refl)
        | inl (ref, e) ↦
            rw (e, delete_tag)
              (delete_described-client repo tag ref (remote.get ref s).0 (c, (remote.get ref s).1))
      ]

  pub delete_tag-IsSound :
      (repo tag : Text) (w : Client × R) → IsSound w.0 (delete_tag remote config repo tag w).1.0
  delete_tag-IsSound repo tag w =
      let (e, same) = delete_tag-client repo tag w in
      subst (IsSound w.0) (sym same) (uncache_tag-IsSound repo tag e w.0)

  refresh_failed-IsSound :
      (c : Client) (s : R) (b : Bool) → IsSoundIfAny c (if b then some (c, s) else none)
  refresh_failed-IsSound c s true = ((λ h. h), (λ h. h))
  refresh_failed-IsSound c s false = tt

  pub refresh_catalog-IsSound :
      (job : JobInfo) (w : Client × R) → IsSoundIfAny w.0 (refresh_catalog remote job w)
  unfolding refresh_catalog
  refresh_catalog-IsSound job (c, s) = elim (Result-cases (remote.catalogger s).0) [
    | inl (pages, e) ↦
        rw (e, refresh_catalog)
          (subst IsDistinct (sym (stored-tags_cache (page_repos pages) pages c)), (λ h. refl))
    | inr (x, e) ↦
        rw (e, refresh_catalog)
          (refresh_failed-IsSound c (remote.catalogger s).1 c.is_catalog_ready)
  ]

  pub refresh_tags-IsSound :
      (job : JobInfo) (w : Client × R) → IsSound w.0 (refresh_tags remote config job w).0
  unfolding refresh_tags
  refresh_tags-IsSound job (c, s) = fetch_all-IsSound c.repos (c, s)
