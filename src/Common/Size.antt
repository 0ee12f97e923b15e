-- ===== src/Common/Size.antt =====
-- registry/common.go: the unit that `PrettySize` chooses. Dividing by 1024 is exact in float64, so
-- the size behind `i` divisions is `n / 1024 ^ i`, and is over 1024 when `n` is over
-- `1024 * 1024 ^ i`. The number itself is printed by `fmt`.
use Prim.Native.Nat.{ℕ, zero, suc, ◌+◌, ◌-◌, ◌*◌, ◌^◌, ◌<◌}
use mathlib.Core.Path.{◌≡◌}
use mathlib.Core.Logic.{◌↔◌}
use mathlib.Core.Bool.{Bool}
use mathlib.Core.Option.{Option, none, some}
use mathlib.Core.List.{List, [], ◌∷◌, ◌++◌}
use native.Mathlib.Omega.{arith}
use registry_ui.Base.Tests.{ltb, if◌then◌else◌}
use registry_ui.Base.Text.{Text, codes}

abbrev pub units : List Text
units = codes "B" ∷ codes "KB" ∷ codes "MB" ∷ codes "GB" ∷ []

-- `units[i]`; `none` is the panic for an index out of range.
unfoldable pub get_elem? : List Text → ℕ → Option Text
get_elem? [] i = none
get_elem? (u ∷ us) zero = some u
get_elem? (u ∷ us) (suc i) = get_elem? us i

-- The loop, with the number of divisions that `i < len(units)` still allows.
unfoldable pub unit_loop : ℕ → ℕ → ℕ → ℕ
unit_loop zero n i = i
unit_loop (suc k) n i =
    let rest = unit_loop k n (i + 1) in if ltb (1024 * 1024 ^ i) n then rest else i

-- The decimals and the unit that `PrettySize` prints a size with.
unfoldable pub pretty_unit : ℕ → Option (ℕ × Text)
pretty_unit n =
    let i = unit_loop 4 n 0 in elim (get_elem? units i) [ none ↦ none | some u ↦ some (i - 1, u) ]

-- What `PrettySize` does with a float64: the test `size > 1024`, the division by 1024, and the
-- printing with so many decimals.
pub record Float (F : Type 0) : Type 0 where
  pub is_over : F → Bool
  pub divide : F → F
  pub print : ℕ → F → Text

module _ {F : Type 0} (float : Float F) where
  -- The loop over the size itself, as in `unit_loop`.
  unfoldable pub size_loop : ℕ → F → ℕ → F × ℕ
  size_loop zero size i = (size, i)
  size_loop (suc k) size i =
      let rest = size_loop k (float.divide size) (i + 1) in
      if float.is_over size then rest else (size, i)

  -- `PrettySize`
  unfoldable pub pretty_size : F → Option Text
  unfolding size_loop
  pretty_size size =
      let (rest, i) = size_loop 4 size 0 in
      elim (get_elem? units i) [
        | none ↦ none
        | some u ↦ some (float.print (i - 1) rest ++ codes " " ++ u)
      ]

-- `PrettySize` panics exactly for a size of more than 1024 GB.
pub pretty_unit_panics : (n : ℕ) → (pretty_unit n ≡ none) ↔ (1024 ^ 4 < n)
unfolding pretty_unit unit_loop get_elem?
pretty_unit_panics n = ground arith
