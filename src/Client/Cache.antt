-- ===== src/Client/Cache.antt =====
-- registry/client.go: the catalog and the cache of tags.
use mathlib.Core.Bool.{Bool, true, false, ◌&&◌, ◌||◌}
use mathlib.Core.Option.{Option, none, some}
use mathlib.Core.List.{List, [], ◌∷◌, ◌++◌}
use registry_ui.Base.Tests.{◌==◌, if◌then◌else◌}
use registry_ui.Base.Lists.{length}
use registry_ui.Base.Int.{ℤ, pos, negsuc, ltz, lez}
use registry_ui.Base.Text.{Text, codes}
use registry_ui.Base.Map.{lookup, insert}
use registry_ui.Image.{Result, ok, err}
use registry_ui.Client.{JobInfo, Client, ClientConfig, Remote}

-- `repos` at the end of the loop over the pages.
unfoldable pub page_repos : List (Option (List Text)) → List Text
page_repos [] = []
page_repos (none ∷ pages) = page_repos pages
page_repos (some batch ∷ pages) = batch ++ page_repos pages

-- The client at the end of that loop: a client that is not ready yet shows each page at once.
unfoldable pub show_pages : List (Option (List Text)) → Client → Client
unfolding page_repos
show_pages pages c =
    if c.is_catalog_ready then c else record c { repos = c.repos ++ page_repos pages }

-- The list of repositories is replaced, unless the catalog looks empty.
unfoldable pub store_repos : List Text → Client → Client
store_repos [] c = c
store_repos (repo ∷ repos) c = record c { repos = repo ∷ repos }

abbrev pub is_zero : ℤ → Bool
is_zero (pos n) = n == 0
is_zero (negsuc n) = false

module _ {R : Type 0} (remote : Remote R) where
  -- `RefreshCatalog`. `none`: the process ends, for lack of a first catalog.
  unfoldable pub refresh_catalog : JobInfo → Client × R → Option (Client × R)
  refresh_catalog job (c, s) =
      let (cat, s') = remote.catalogger s in
      elim cat [
        | err e ↦ if c.is_catalog_ready then some (c, s') else none
        | ok pages ↦ some (
          record (store_repos (page_repos pages) (show_pages pages c)) {
            catalog_job_info = job;
            is_catalog_ready = true;
          },
          s',
        )
      ]

-- What the library's `List` gives is written to the cache.
unfoldable pub cache_tags : Text → Result (List Text) → Client → Option (List Text) × Client
cache_tags repo_name (err e) c = (none, c)
cache_tags repo_name (ok tags) c =
    (some tags, record c { tags_cache = insert repo_name tags c.tags_cache })

-- The tags with the flag that says they are there.
unfoldable pub tags_or_none : Option (List Text) → List Text × Bool
tags_or_none none = ([], false)
tags_or_none (some tags) = (tags, true)

module _ {R : Type 0} (remote : Remote R) (config : ClientConfig) where
  -- `FetchAndCacheTagsForRepo`, with `none` for `nil`.
  unfoldable pub fetch_and_cache_tags_for_repo :
      Text → Client × R → Option (List Text) × (Client × R)
  unfolding cache_tags
  fetch_and_cache_tags_for_repo repo_name (c, s) =
      elim (remote.new_repository (config.hostname ++ codes "/" ++ repo_name)) [
        | err e ↦ (none, (c, s))
        | ok repo ↦
            let (tags, s') = remote.list repo s in
            let (fetched, c') = cache_tags repo_name tags c in (fetched, (c', s'))
      ]

  -- Whether `ListTags` asks the registry.
  unfoldable pub is_online : Option (List Text) → Bool
  is_online none = is_zero config.tags_async_refresh_interval
  is_online (some tags) =
      is_zero config.tags_async_refresh_interval
      || (ltz (pos 0) config.tags_online_refresh_max_count
          && lez (pos (length tags)) config.tags_online_refresh_max_count)

  -- `ListTags`
  unfoldable pub list_tags : Text → Client × R → (List Text × Bool) × (Client × R)
  list_tags repo_name (c, s) = elim (is_online (lookup repo_name c.tags_cache)) [
    | true ↦
        let (tags, w) = fetch_and_cache_tags_for_repo repo_name (c, s) in (tags_or_none tags, w)
    | false ↦ (tags_or_none (lookup repo_name c.tags_cache), (c, s))
  ]

  unfoldable pub fetch_all : List Text → Client × R → Client × R
  fetch_all [] w = w
  fetch_all (repo ∷ repos) w =
      let (tags, w') = fetch_and_cache_tags_for_repo repo w in fetch_all repos w'

  -- One round of `RefreshTags`.
  unfoldable pub refresh_tags : JobInfo → Client × R → Client × R
  unfolding fetch_all
  refresh_tags job (c, s) =
      let (c', s') = fetch_all c.repos (c, s) in (record c' { tags_job_info = job }, s')
