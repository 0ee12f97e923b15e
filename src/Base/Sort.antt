-- ===== src/Base/Sort.antt =====
-- `sort.Sort`, `sort.Slice` and `sort.Strings`: the list in the order of a strict test `less`. Where
-- `less` is total the result does not depend on the algorithm (`Sort.Laws.IsSorted-unique`), so
-- insertion stands for the library's pattern-defeating quicksort.
pub mod Laws
use Prim.Native.Nat.{ℕ}
use mathlib.Core.Path.{◌≡◌}
use mathlib.Core.Bool.{Bool, true, false}
use mathlib.Core.List.{List, [], ◌∷◌}
use registry_ui.Base.Tests.{if◌then◌else◌}
use registry_ui.Base.Lists.{All}
use registry_ui.Base.Text.{Text, text_lt}

module _ {ℓ} {A : Type ℓ} (less : A → A → Bool) where
  unfoldable pub insert_by : A → List A → List A
  insert_by x [] = x ∷ []
  insert_by x (y ∷ ys) = if less y x then y ∷ insert_by x ys else x ∷ y ∷ ys

  unfoldable pub sort_by : List A → List A
  unfolding insert_by
  sort_by [] = []
  sort_by (x ∷ xs) = insert_by x (sort_by xs)

  -- No later element is less than an earlier one.
  abbrev pub IsSorted : List A → Type ℓ
  IsSorted [] = Unit
  IsSorted (x ∷ xs) = All (λ y. less y x ≡ false) xs × IsSorted xs

-- A strict total order, as a Boolean test.
pub record IsTotal {ℓ} {A : Type ℓ} (less : A → A → Bool) : Type ℓ where
  pub irrefl : (a : A) → less a a ≡ false
  pub trans : (a b c : A) → less a b ≡ true → less b c ≡ true → less a c ≡ true
  pub total : (a b : A) → less a b ≡ false → less b a ≡ false → a ≡ b

-- `sort.Strings`.
unfoldable pub sort_strings : List Text → List Text
unfolding sort_by
sort_strings = sort_by text_lt
