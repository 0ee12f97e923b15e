-- ===== src/Client/History.antt =====
-- registry/client.go: what holds of a client through every sequence of its operations.
use mathlib.Core.Path.{◌≡◌, subst}
use mathlib.Core.Bool.{true, false}
use mathlib.Core.Option.{some}
use mathlib.Core.List.{[]}
use registry_ui.Base.Text.{Text}
use registry_ui.Base.Map.Distinct.{IsDistinct}
use registry_ui.Client.{JobInfo, Client, ClientConfig, Remote}
use registry_ui.Client.Cache.{
  refresh_catalog, fetch_and_cache_tags_for_repo, list_tags, refresh_tags,
}
use registry_ui.Client.Delete.{delete_tag}
use registry_ui.Client.Sound.{
  IsSound, IsSoundIfAny, fetch-IsSound, list_tags-IsSound, delete_tag-IsSound,
  refresh_catalog-IsSound, refresh_tags-IsSound,
}

-- The client of `NewClient`.
abbrev pub new_client : Client
new_client = record {
  repos = [];
  tags_cache = [];
  is_catalog_ready = false;
  catalog_job_info = record { last_run = 0; duration = 0 };
  tags_job_info = record { last_run = 0; duration = 0 };
}

-- One operation of the program on its client, or a change of the registry by others. A refresh of
-- the catalog that ends the process has no step.
pub data Move {R : Type 0} (remote : Remote R) (config : ClientConfig)
    : Client × R → Client × R → Type 0 where
  refresh :
      {w w' : Client × R} (job : JobInfo)
      → refresh_catalog remote job w ≡ some w'
      → Move remote config w w'
  fetch :
      {w : Client × R} (repo : Text)
      → Move remote config w (fetch_and_cache_tags_for_repo remote config repo w).1
  list : {w : Client × R} (repo : Text) → Move remote config w (list_tags remote config repo w).1
  round : {w : Client × R} (job : JobInfo) → Move remote config w (refresh_tags remote config job w)
  delete :
      {w : Client × R} (repo tag : Text)
      → Move remote config w (delete_tag remote config repo tag w).1
  elsewhere : {c : Client} {s : R} (s' : R) → Move remote config (c, s) (c, s')

pub data Moves {R : Type 0} (remote : Remote R) (config : ClientConfig) (w : Client × R)
    : Client × R → Type 0 where
  here : Moves remote config w w
  onward :
      {u v : Client × R}
      → Moves remote config w u
      → Move remote config u v
      → Moves remote config w v

module _ {R : Type 0} (remote : Remote R) (config : ClientConfig) where
  Move-IsSound : {w w' : Client × R} → Move remote config w w' → IsSound w.0 w'.0
  Move-IsSound {w} (refresh job e) =
      subst (IsSoundIfAny w.0) e (refresh_catalog-IsSound remote config job w)
  Move-IsSound {w} (fetch repo) = fetch-IsSound remote config repo w
  Move-IsSound {w} (list repo) = list_tags-IsSound remote config repo w
  Move-IsSound {w} (round job) = refresh_tags-IsSound remote config job w
  Move-IsSound {w} (delete repo tag) = delete_tag-IsSound remote config repo tag w
  Move-IsSound (elsewhere s') = ((λ h. h), (λ h. h))

  Moves-IsSound : {w w' : Client × R} → Moves remote config w w' → IsSound w.0 w'.0
  Moves-IsSound here = ((λ h. h), (λ h. h))
  Moves-IsSound (onward ms m) =
      let before = Moves-IsSound ms in
      let last = Move-IsSound m in ((λ h. last.0 (before.0 h)), (λ h. last.1 (before.1 h)))

  -- Through every sequence of refreshes, listings and deletions from a new client on, in any order and
  -- whatever the registry answers, the cache holds no repository twice.
  pub Moves-IsDistinct :
      {s : R} {w : Client × R} → Moves remote config (new_client, s) w → IsDistinct w.0.tags_cache
  Moves-IsDistinct ms = (Moves-IsSound ms).0 tt

  -- A client that is ready stays ready through every such sequence.
  pub Moves-ready :
      {w w' : Client × R}
      → Moves remote config w w'
      → w.0.is_catalog_ready ≡ true
      → w'.0.is_catalog_ready ≡ true
  Moves-ready ms h = (Moves-IsSound ms).1 h
