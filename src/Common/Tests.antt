-- ===== src/Common/Tests.antt =====
-- `UniqueSortedSlice` and `PrettySize` on small inputs, and their theorems there.
use Prim.Native.Nat.{◌*◌, ◌^◌}
use mathlib.Core.Path.{◌≡◌, refl}
use mathlib.Core.Logic.{◌↔◌}
use mathlib.Core.Option.{some}
use mathlib.Core.List.{List, [], ◌∷◌, Mem}
use registry_ui.Base.Text.{Text, codes, text_eq, text_lt}
use registry_ui.Base.Sort.{sort_strings}
use registry_ui.Common.{item_in_slice, unique_loop, unique_sorted_slice}
use registry_ui.Common.Size.{get_elem?, unit_loop, pretty_unit}
use registry_ui.Common.Unique.{IsAscending, unique_sorted_slice_lem}

abbrev names : List Text
names = codes "web" ∷ codes "app" ∷ codes "web" ∷ []

sorts_names : unique_sorted_slice names ≡ codes "app" ∷ codes "web" ∷ []
unfolding unique_sorted_slice unique_loop sort_strings item_in_slice text_eq text_lt
sorts_names = refl

unique_sorted_slice_lem_example :
    IsAscending (unique_sorted_slice names)
    × ((x : Text) → Mem x (unique_sorted_slice names) ↔ Mem x names)
unique_sorted_slice_lem_example = unique_sorted_slice_lem names

prints_gigabytes : pretty_unit (3 * 1024 ^ 3) ≡ some (2, codes "GB")
unfolding pretty_unit unit_loop get_elem?
prints_gigabytes = refl
