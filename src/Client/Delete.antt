-- ===== src/Client/Delete.antt =====
-- registry/client.go: `DeleteTag`, and the client as the `PurgeClient` of a purge run.
use mathlib.Core.Option.{Option, none, some}
use mathlib.Core.List.{List, [], ◌∷◌, ◌++◌}
use registry_ui.Base.Tests.{if◌then◌else◌}
use registry_ui.Base.Text.{Text, codes, text_eq}
use registry_ui.Base.Map.{lookup, insert}
use registry_ui.Image.{Result, ok, err}
use registry_ui.Client.{JobInfo, Client, ClientConfig, Remote, Reference, Descriptor}
use registry_ui.Client.Cache.{refresh_catalog, fetch_and_cache_tags_for_repo}
use registry_ui.Client.Inspect.{get_image_info}
use registry_ui.Purge.{PurgeClient}

-- `updatedTags`
unfoldable pub without_tag : Text → List Text → List Text
without_tag tag [] = []
without_tag tag (t ∷ tags) =
    let rest = without_tag tag tags in if text_eq t tag then rest else t ∷ rest

-- The cached tags of one repository are replaced, where it is cached.
unfoldable pub store_updated : Text → Text → Option (List Text) → Client → Client
store_updated repo_path tag none c = c
store_updated repo_path tag (some cached_tags) c = record c {
  tags_cache = insert repo_path (without_tag tag cached_tags) c.tags_cache;
}

-- "Remove tag from cache", when the library's `Delete` has no error.
unfoldable pub uncache_tag : Text → Text → Option Text → Client → Client
uncache_tag repo_path tag (some e) c = c
uncache_tag repo_path tag none c = store_updated repo_path tag (lookup repo_path c.tags_cache) c

module _ {R : Type 0} (remote : Remote R) (config : ClientConfig) where
  -- `name.ParseReference` with the registry's host in front.
  abbrev pub reference_of : Text → Result Reference
  reference_of image_ref = remote.parse_reference (config.hostname ++ codes "/" ++ image_ref)

  -- The second half of `DeleteTag`, for the reference by digest.
  unfoldable pub delete_reference :
      Text → Text → Result Reference → Client × R → Option Text × (Client × R)
  delete_reference repo_path tag (err e) w = (some e, w)
  delete_reference repo_path tag (ok ref) (c, s) =
      let (e, s') = remote.delete ref s in (e, (uncache_tag repo_path tag e c, s'))

  -- The digest that the tag's manifest has.
  unfoldable pub delete_described :
      Text → Text → Reference → Result Descriptor → Client × R → Option Text × (Client × R)
  unfolding delete_reference
  delete_described repo_path tag ref (err e) w = (some e, w)
  delete_described repo_path tag ref (ok descr) w =
      delete_reference repo_path tag
        (reference_of (ref.repository_str ++ codes "@" ++ descr.digest)) w

  -- `DeleteTag`
  unfoldable pub delete_tag : Text → Text → Client × R → Option Text × (Client × R)
  unfolding delete_described
  delete_tag repo_path tag (c, s) = elim (reference_of (repo_path ++ codes ":" ++ tag)) [
    | err e ↦ (some e, (c, s))
    | ok ref ↦
        let (descr, s') = remote.get ref s in delete_described repo_path tag ref descr (c, s')
  ]

  -- The client of a run: `job` is what the refresh of the catalog writes of its own time.
  unfoldable pub purge_client : JobInfo → PurgeClient (Client × R)
  purge_client job = record {
    refresh_catalog = refresh_catalog remote job;
    get_repos = λ w. w.0.repos;
    fetch_and_cache_tags_for_repo = fetch_and_cache_tags_for_repo remote config;
    get_image_info = λ image_ref w.
        let (info, s') = get_image_info remote config image_ref w.1 in (info, (w.0, s'));
    delete_tag = delete_tag;
  }
