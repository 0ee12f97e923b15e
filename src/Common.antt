-- ===== src/Common.antt =====
-- registry/common.go: the helpers that the other files call.
pub mod Laws
pub mod Unique
pub mod Size
mod Tests
use Prim.Native.Nat.{ℕ}
use mathlib.Core.Bool.{Bool, true, false}
use mathlib.Core.List.{List, [], ◌∷◌, ◌++◌}
use registry_ui.Base.Tests.{if◌then◌else◌}
use registry_ui.Base.Text.{Text, text_eq}
use registry_ui.Base.Sort.{sort_strings}
use registry_ui.Base.Map.{Map, keys}

-- `ItemInSlice`
unfoldable pub item_in_slice : Text → List Text → Bool
item_in_slice item [] = false
item_in_slice item (i ∷ slice) = if text_eq i item then true else item_in_slice item slice

-- `SortedMapKeys`
unfoldable pub sorted_map_keys {ℓ} : {V : Type ℓ} → Map V → List Text
sorted_map_keys m = sort_strings (keys m)

-- The loop of `UniqueSortedSlice`: `seen` holds the items that are written already, `out` is
-- `slice[:j]`.
unfoldable pub unique_loop : List Text → List Text → List Text → List Text
unique_loop [] seen out = out
unique_loop (i ∷ slice) seen out = elim (item_in_slice i seen) [
  | true ↦ unique_loop slice seen out
  | false ↦ unique_loop slice (i ∷ seen) (out ++ i ∷ [])
]

-- `UniqueSortedSlice`
unfoldable pub unique_sorted_slice : List Text → List Text
unfolding unique_loop
unique_sorted_slice slice = unique_loop (sort_strings slice) [] []
