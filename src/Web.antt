-- ===== src/Web.antt =====
-- web.go: the permissions of a user, the catalog page, and the deletion of a tag.
pub mod Pages
pub mod Site
pub mod Options
pub mod Masking
mod Tests
use Prim.Native.Nat.{ℕ}
use mathlib.Core.Bool.{Bool, true, false, ◌&&◌, ◌||◌, not}
use mathlib.Core.Option.{Option, none, some}
use mathlib.Core.List.{List, [], ◌∷◌, ◌++◌}
use registry_ui.Base.Tests.{◌==◌, if◌then◌else◌}
use registry_ui.Base.Lists.{length, drop}
use registry_ui.Base.Int.{ℤ, pos, lez}
use registry_ui.Base.Text.{Text, codes, text_eq, is_empty, has_prefix, contains, split}
use registry_ui.Base.Map.{Map}
use registry_ui.Common.{item_in_slice, unique_sorted_slice}
use registry_ui.Image.{Result, ok, err, ImageInfo}
use registry_ui.Auth.{trim_right_slashes}
use registry_ui.Events.{EventListener, EventRow, Database, Format}
use registry_ui.Events.Receive.{get_events}
use registry_ui.Client.{Client, ClientConfig, Remote}
use registry_ui.Client.Cache.{is_zero, list_tags}
use registry_ui.Client.Inspect.{get_image_info}
use registry_ui.Client.Delete.{delete_tag}
use registry_ui.Client.Counts.{sub_repo_tag_counts}

-- The values of `access_control` in the configuration, and the base path.
pub record WebConfig : Type 0 where
  pub admins : List Text
  pub anyone_can_view_events : Bool
  pub anyone_can_delete_tags : Bool
  pub uri_base_path : Text

-- What `setUserPermissions` writes for the templates.
pub record Permissions : Type 0 where
  pub user : Text
  pub events_allowed : Bool
  pub delete_allowed : Bool

-- `setUserPermissions`, for the user's name in the header.
unfoldable pub set_user_permissions : WebConfig → Text → Permissions
set_user_permissions config user = record {
  user = user;
  events_allowed = config.anyone_can_view_events || item_in_slice user config.admins;
  delete_allowed = config.anyone_can_delete_tags || item_in_slice user config.admins;
}

-- `strings.Trim(s, "/")`
unfoldable pub trim_slashes : Text → Text
trim_slashes [] = []
trim_slashes (c ∷ s) =
    let rest = trim_slashes s in if c == b'/' then rest else trim_right_slashes (c ∷ s)

first_of : List Text → Text
first_of [] = []
first_of (p ∷ ps) = p

-- `strings.Split(r, "/")[0]`
unfoldable pub first_segment : Text → Text
unfolding first_of
first_segment r = first_of (split r b'/')

-- The loop of the root page.
unfoldable pub root_repos : List Text → List Text
root_repos [] = []
root_repos (r ∷ repos) = first_segment r ∷ root_repos repos

-- The loop of the page of a path: the repositories below it.
unfoldable pub repos_below : Text → List Text → List Text
repos_below repo_path [] = []
repos_below repo_path (r ∷ repos) =
    let rest = repos_below repo_path repos in
    let prefix = repo_path ++ codes "/" in
    if has_prefix r prefix then first_segment (drop (length prefix) r) ∷ rest else rest

-- Which of the pages a path asks for: `repos` before `UniqueSortedSlice`, and `showTags`.
pub data Navigation : Type 0 where
  show_image : Navigation
  show_repos : List Text → Bool → Navigation

unfoldable pub navigate : Text → List Text → Navigation
navigate repo_path all_repo_paths =
    if is_empty repo_path
    then show_repos (root_repos all_repo_paths) false
    else if contains repo_path b':'
    then show_image
    else show_repos (repos_below repo_path all_repo_paths) (item_in_slice repo_path all_repo_paths)

-- `tagsRefreshInfo`, by the sentence that it is and the numbers in it.
pub data RefreshInfo : Type 0 where
  no_refresh_info : RefreshInfo
  online : RefreshInfo
  background : ℤ → RefreshInfo
  background_and_online : ℤ → RefreshInfo
  online_disabled : ℤ → ℤ → RefreshInfo

unfoldable pub tags_refresh_info : ClientConfig → ℕ → RefreshInfo
tags_refresh_info config count =
    if is_zero config.tags_async_refresh_interval
    then online
    else if is_zero config.tags_online_refresh_max_count
    then background config.tags_async_refresh_interval
    else if lez (pos count) config.tags_online_refresh_max_count
    then background_and_online config.tags_async_refresh_interval
    else online_disabled config.tags_async_refresh_interval config.tags_online_refresh_max_count

-- What is written for `catalog.html`; `events` is set only where `GetEvents` is asked.
pub record CatalogPage : Type 0 where
  pub repo_path : Text
  pub repos : List Text
  pub show_tags : Bool
  pub is_catalog_ready : Bool
  pub are_tags_ready : Bool
  pub refresh_info : RefreshInfo
  pub tag_counts : Map ℕ
  pub tags : List Text
  pub events : Option (List EventRow)

-- The answer of a handler; after a panic it has written none.
pub data View : Type 0 where
  not_found : View
  to_base : Text → View
  image_page : Permissions → ImageInfo → View
  catalog_page : Permissions → CatalogPage → View
  panicked : View

module _ {R : Type 0} (remote : Remote R) (config : ClientConfig) (web : WebConfig) where
  -- The tags of the page, when it shows them.
  unfoldable pub page_tags :
      Bool → Text → Client × R → ((List Text × Bool) × RefreshInfo) × (Client × R)
  page_tags false repo_path w = ((([], false), no_refresh_info), w)
  page_tags true repo_path w =
      let (listed, w') = list_tags remote config repo_path w in
      ((listed, tags_refresh_info config (length listed.0)), w')

  image_view : Permissions → Option (Result ImageInfo) → View
  image_view permissions none = panicked
  image_view permissions (some (err e)) = to_base web.uri_base_path
  image_view permissions (some (ok ii)) = image_page permissions ii

  module _ {D J : Type 0} (db : Database D) (f : Format J) (e : EventListener) where
    -- The events of the page, when it has any.
    unfoldable pub page_events : Bool → Text → D → Option (List EventRow) × D
    page_events false repo_path d = (none, d)
    page_events true repo_path d =
        let (events, d') = get_events db f e repo_path d in (some events, d')

    -- The page with repositories, tags or both.
    unfoldable pub catalog_view :
        Permissions → Text → List Text → Bool → (Client × R) × D → View × ((Client × R) × D)
    unfolding page_events
    catalog_view permissions repo_path found show_tags (w, d) =
        let repos = unique_sorted_slice found in
        let (((tags, are_tags_ready), refresh_info), w') = page_tags show_tags repo_path w in
        let with_events =
          not (is_empty repo_path) && (not (length repos == 0) || not (length tags == 0)) in
        let (events, d') = page_events with_events repo_path d in
        (
          catalog_page permissions (record {
            repo_path = repo_path;
            repos = repos;
            show_tags = show_tags;
            is_catalog_ready = w'.0.is_catalog_ready;
            are_tags_ready = are_tags_ready;
            refresh_info = refresh_info;
            tag_counts = sub_repo_tag_counts repo_path repos w'.0.tags_cache;
            tags = tags;
            events = events;
          }),
          (w', d'),
        )

    -- `viewCatalog`
    unfoldable pub view_catalog : Text → Text → (Client × R) × D → View × ((Client × R) × D)
    unfolding image_view
    view_catalog user param (w, d) =
        let repo_path = trim_slashes param in
        let permissions = set_user_permissions web user in
        if text_eq repo_path (codes "__event-log")
        then (not_found, (w, d))
        else elim (navigate repo_path w.0.repos) [
          | show_image ↦
              let (info, s') = get_image_info remote config repo_path w.1 in
              (image_view permissions info, ((w.0, s'), d))
          | show_repos found show_tags ↦ catalog_view permissions repo_path found show_tags (w, d)
        ]

  -- `deleteTag`: the place to go to.
  unfoldable pub delete_tag_page : Text → Text → Text → Client × R → Text × (Client × R)
  delete_tag_page user repo_path tag w =
      let (e, w') = delete_tag remote config repo_path tag w in
      if (set_user_permissions web user).delete_allowed
      then (web.uri_base_path ++ repo_path, w')
      else (web.uri_base_path ++ repo_path, w)
