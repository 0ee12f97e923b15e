-- ===== src/Client/Inspect.antt =====
-- registry/client.go: what is read of one image.
use Prim.Native.Nat.{ℕ}
use mathlib.Core.Bool.{true, false}
use mathlib.Core.Option.{Option, none, some}
use mathlib.Core.List.{List, [], ◌∷◌, ◌++◌, map}
use registry_ui.Base.Tests.{ltb, ◌==◌, if◌then◌else◌}
use registry_ui.Base.Lists.{length, take, drop}
use registry_ui.Base.Text.{Text, codes, join}
use registry_ui.Base.Map.{Map, lookup}
use registry_ui.Common.{unique_sorted_slice}
use registry_ui.Image.{Result, ok, err, add64, ImageInfo}
use registry_ui.Client.{
  ClientConfig, Remote, Reference, Descriptor, ImageHandle, IndexManifest, ConfigFile,
}

-- `ImageInfo{}`
abbrev pub no_info : ImageInfo
no_info = record {
  is_image_index = false;
  is_image = false;
  image_ref_repo = [];
  image_ref_tag = [];
  image_ref_digest = [];
  media_type = [];
  platforms = [];
  manifest = none;
  image_size = 0;
  created = 0;
  config_image_id = [];
  config_file = none;
}

-- `getPlatform`
unfoldable pub get_platform : Option Text → Text
get_platform none = []
get_platform (some p) = p

-- The loop over `mf.Layers`.
unfoldable pub layers_size : List ℕ → ℕ → ℕ
layers_size [] n = n
layers_size (l ∷ layers) n = layers_size layers (add64 n l)

-- `x.String()[7:19]`, for a name that is long enough.
unfoldable pub image_id : Text → Text
image_id config_name = if ltb 19 (length config_name) then take 12 (drop 7 config_name) else []

-- The fields that an image and an index share.
unfoldable pub described : Reference → Descriptor → ImageInfo
described ref descr = record no_info {
  image_ref_repo = ref.repository_str;
  image_ref_tag = ref.identifier;
  image_ref_digest = descr.digest;
  media_type = descr.media_type;
}

created_annotation : Option (Map Text) → Option Text
created_annotation none = none
created_annotation (some annotations) =
    lookup (codes "org.opencontainers.image.created") annotations

parsed_or_zero : Option ℕ → ℕ
parsed_or_zero none = 0
parsed_or_zero (some t) = t

module _ {R : Type 0} (remote : Remote R) where
  -- `extractCreatedFromAnnotations`
  unfoldable pub extract_created_from_annotations : ImageHandle → ℕ
  unfolding created_annotation parsed_or_zero
  extract_created_from_annotations img = elim (created_annotation img.manifest.annotations) [
    | none ↦ 0
    | some created_str ↦ parsed_or_zero (remote.parse_time created_str)
  ]

  -- The creation time of an image whose configuration is read.
  unfoldable pub created_of : ImageHandle → ConfigFile → ℕ
  created_of img cfg =
      if cfg.created == 0 then extract_created_from_annotations img else cfg.created

  -- The branch of an image.
  unfoldable pub image_details : Result ImageHandle → ImageInfo → Result ImageInfo
  unfolding layers_size
  image_details (err e) ii = err e
  image_details (ok img) ii = elim img.config_file [
    | err e ↦ err e
    | ok cfg ↦ ok (record ii {
      is_image = true;
      created = created_of img cfg;
      platforms = get_platform cfg.platform;
      config_file = some cfg.json;
      config_image_id = image_id img.config_name;
      image_size = layers_size img.manifest.layers 0;
      manifest = some img.manifest.json;
    })
  ]

-- The branch of an index. The error of `IndexManifest` is dropped, and where there is no manifest,
-- its use is a panic: `none`.
unfoldable pub index_details : Result (Option IndexManifest) → ImageInfo → Option (Result ImageInfo)
index_details (err e) ii = some (err e)
index_details (ok none) ii = none
index_details (ok (some idx)) ii = some (
    ok (record ii {
      is_image_index = true;
      platforms = join (unique_sorted_slice (map get_platform idx.platforms)) (codes ", ");
      manifest = some idx.json;
    }))

module _ {R : Type 0} (remote : Remote R) (config : ClientConfig) where
  -- `GetImageInfo`, `none` where it panics, behind `puller.Get`. For another media type it returns an empty value and
  -- the error of that call, which is `nil`.
  unfoldable pub details : Reference → Result Descriptor → Option (Result ImageInfo)
  details ref (err e) = some (err e)
  details ref (ok descr) =
      if descr.is_index
      then index_details descr.image_index (described ref descr)
      else if descr.is_image
      then some (image_details remote descr.image (described ref descr))
      else some (ok no_info)

  unfoldable pub get_image_info : Text → R → Option (Result ImageInfo) × R
  unfolding details
  get_image_info image_ref s =
      elim (remote.parse_reference (config.hostname ++ codes "/" ++ image_ref)) [
        | err e ↦ (some (err e), s)
        | ok ref ↦ let (descr, s') = remote.get ref s in (details ref descr, s')
      ]

  unfoldable pub created_in : Result ConfigFile → ImageHandle → ℕ
  created_in (err e) img = 0
  created_in (ok cfg) img = created_of remote img cfg

  unfoldable pub created_by : Result Descriptor → ℕ
  unfolding created_in
  created_by (err e) = 0
  created_by (ok descr) = elim descr.image [ err e ↦ 0 | ok img ↦ created_in img.config_file img ]

  -- `GetImageCreated`
  unfoldable pub get_image_created : Text → R → ℕ × R
  unfolding created_by
  get_image_created image_ref s =
      elim (remote.parse_reference (config.hostname ++ codes "/" ++ image_ref)) [
        | err e ↦ (0, s)
        | ok ref ↦ let (descr, s') = remote.get ref s in (created_by descr, s')
      ]
