-- ===== src/Client.antt =====
-- registry/client.go: the state of the registry client, its configuration, and the library
-- `go-containerregistry` that it works through.
pub mod Cache
pub mod Inspect
pub mod Delete
pub mod Counts
pub mod Caching
pub mod Deletion
pub mod Totals
pub mod SubRepos
pub mod Agreement
pub mod Start
pub mod Sound
pub mod Digest
pub mod History
mod Tests
use Prim.Native.Nat.{ℕ}
use mathlib.Core.Bool.{Bool}
use mathlib.Core.Option.{Option}
use mathlib.Core.List.{List}
use registry_ui.Base.Int.{ℤ}
use registry_ui.Base.Text.{Text}
use registry_ui.Base.Map.{Map}
use registry_ui.Image.{Result}

-- `JobInfo`
pub record JobInfo : Type 0 where
  pub last_run : ℕ
  pub duration : ℕ

-- `Client`, less its handles on the library and its lock.
pub record Client : Type 0 where
  pub repos : List Text
  pub tags_cache : Map (List Text)
  pub is_catalog_ready : Bool
  pub catalog_job_info : JobInfo
  pub tags_job_info : JobInfo

-- The values of the configuration.
pub record ClientConfig : Type 0 where
  pub hostname : Text
  pub tags_online_refresh_max_count : ℤ
  pub tags_async_refresh_interval : ℤ

-- `name.Reference`: `Context().RepositoryStr()` and `Identifier()`.
pub record Reference : Type 0 where
  pub repository_str : Text
  pub identifier : Text

-- `v1.Manifest`: the sizes of the layers, the annotations, and its JSON text.
pub record Manifest : Type 0 where
  pub layers : List ℕ
  pub annotations : Option (Map Text)
  pub json : Text

-- `v1.ConfigFile`
pub record ConfigFile : Type 0 where
  pub created : ℕ
  pub platform : Option Text
  pub json : Text

-- `v1.Image`. The library reads the manifest before it asks for the configuration, so the manifest
-- is there where the configuration is.
pub record ImageHandle : Type 0 where
  pub config_name : Text
  pub config_file : Result ConfigFile
  pub manifest : Manifest

-- `v1.IndexManifest`: the platforms of its entries, and its JSON text.
pub record IndexManifest : Type 0 where
  pub platforms : List (Option Text)
  pub json : Text

-- `remote.Descriptor`. An index whose manifest does not parse is `ok none`.
pub record Descriptor : Type 0 where
  pub digest : Text
  pub media_type : Text
  pub is_index : Bool
  pub is_image : Bool
  pub image : Result ImageHandle
  pub image_index : Result (Option IndexManifest)

-- The calls of the library, over the state `R` of the registry. `catalogger` gives the data of each
-- page, which is missing where reading the page failed; `parse_time` is
-- `time.Parse(time.RFC3339, ...)`.
pub record Remote (R : Type 0) : Type 0 where
  pub catalogger : R → Result (List (Option (List Text))) × R
  pub new_repository : Text → Result Text
  pub list : Text → R → Result (List Text) × R
  pub parse_reference : Text → Result Reference
  pub get : Reference → R → Result Descriptor × R
  pub delete : Reference → R → Option Text × R
  pub parse_time : Text → Option ℕ
