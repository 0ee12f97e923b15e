-- ===== src/Purge/Scan.antt =====
-- registry/tasks.go: choosing the repositories, and reading the tags of each.
use Prim.Native.Nat.{ℕ}
use mathlib.Core.Bool.{Bool, true, false}
use mathlib.Core.Option.{Option, none, some}
use mathlib.Core.List.{List, [], ◌∷◌, ◌++◌}
use registry_ui.Base.Tests.{◌==◌, if◌then◌else◌}
use registry_ui.Base.Text.{Text, codes, is_empty, split}
use registry_ui.Base.Map.{Map, lookup, insert, get_or}
use registry_ui.Common.{item_in_slice}
use registry_ui.Image.{Result, ok, err, ImageInfo}
use registry_ui.Purge.{PurgeClient, TagData}

-- `tmpCatalog`: the catalog without the excluded repositories.
unfoldable pub exclude : List Text → List Text → List Text
exclude excluded [] = []
exclude excluded (repo ∷ catalog) =
    let rest = exclude excluded catalog in if item_in_slice repo excluded then rest else repo ∷ rest

-- `repo + ":" + tag`
abbrev pub image_ref : Text → Text → Text
image_ref repo tag = repo ++ codes ":" ++ tag

-- The variables of the scanning loop, and whether it has been left by a panic.
pub record Scanned : Type 0 where
  pub success : Bool
  pub errors : List Text
  pub repos : Map (List TagData)
  pub image_sizes : Map ℕ
  pub panicked : Bool

abbrev pub nothing_scanned : Scanned
nothing_scanned = record {
  success = true;
  errors = [];
  repos = [];
  image_sizes = [];
  panicked = false;
}

-- `fmt.Sprintf("%s:%s image info error: %s", repo, tag, err)`
abbrev pub info_error : Text → Text → Text → Text
info_error repo tag e = repo ++ codes ":" ++ tag ++ codes " image info error: " ++ e

-- The rest of the loop's body, behind the call of `GetImageInfo`. A panic of that call ends the
-- process: the run then has no result, and what the loop still gathers is dropped.
unfoldable pub record_info : Text → Text → Option (Result ImageInfo) → Scanned → Scanned
record_info repo tag none sc = record sc { panicked = true }
record_info repo tag (some (err e)) sc = record sc {
  success = false;
  errors = sc.errors ++ info_error repo tag e ∷ [];
}
record_info repo tag (some (ok info)) sc =
    let sizes = insert (image_ref repo tag) info.image_size sc.image_sizes in
    let tags =
      get_or (lookup repo sc.repos) [] ++ (record { name = tag; created = info.created }) ∷ [] in
    if info.created == 0
    then record sc { image_sizes = sizes }
    else record sc { image_sizes = sizes; repos = insert repo tags sc.repos }

module _ {S : Type 0} (c : PurgeClient S) where
  -- The catalog before the exclusions. `none`: the process has ended.
  unfoldable pub choose_catalog : Text → S → Option (List Text × S)
  choose_catalog include s =
      if is_empty include
      then elim (c.refresh_catalog s) [ none ↦ none | some s' ↦ some (c.get_repos s', s') ]
      else some (split include b',', s)

  unfoldable pub catalog_of : Text → Text → S → Option (List Text × S)
  catalog_of include excluded s = elim (choose_catalog include s) [
    | none ↦ none
    | some (catalog, s') ↦
        some
          (if is_empty excluded then (catalog, s') else (exclude (split excluded b',') catalog, s'))
  ]

  unfoldable pub scan_tags : Text → List Text → Scanned → S → Scanned × S
  scan_tags repo [] sc s = (sc, s)
  scan_tags repo (tag ∷ tags) sc s =
      let (info, s') = c.get_image_info (image_ref repo tag) s in
      scan_tags repo tags (record_info repo tag info sc) s'

  unfoldable pub scan_catalog : List Text → Scanned → S → Scanned × S
  scan_catalog [] sc s = (sc, s)
  scan_catalog (repo ∷ catalog) sc s =
      let (tags, s') = c.fetch_and_cache_tags_for_repo repo s in
      let (sc', s'') = scan_tags repo (get_or tags []) sc s' in scan_catalog catalog sc' s''
