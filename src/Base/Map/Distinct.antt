-- ===== src/Base/Map/Distinct.antt =====
-- Maps in which no key stands twice.
use mathlib.Core.Path.{◌≡◌, refl}
use mathlib.Core.Logic.{inl, inr}
use mathlib.Core.Option.{none}
use mathlib.Core.List.{[], ◌∷◌}
use native.Mathlib.Omega.{arith}
use registry_ui.Base.Tests.{Bool-cases}
use registry_ui.Base.Text.{Text, text_eq}
use registry_ui.Base.TextLaws.{text_eq_iff}
use registry_ui.Base.Map.{Map, lookup, insert, lookup-insert}

-- No key stands twice in a map.
abbrev pub IsDistinct {ℓ} : {V : Type ℓ} → Map V → Type ℓ
IsDistinct [] = Unit
IsDistinct ((k, v) ∷ m) = (lookup k m ≡ none) × IsDistinct m

pub insert-IsDistinct {ℓ} :
    {V : Type ℓ} (k : Text) (v : V) (m : Map V) → IsDistinct m → IsDistinct (insert k v m)
unfolding insert lookup
insert-IsDistinct k v [] h = (refl, tt)
insert-IsDistinct k v ((j, w) ∷ m) (n, h) = elim (Bool-cases (text_eq j k)) [
  | inl e ↦ rw e (n, h)
  | inr e ↦ rw e (
    ground (arith, lookup-insert k j v m, text_eq_iff j k, text_eq_iff k j, n),
    insert-IsDistinct k v m h,
  )
]
