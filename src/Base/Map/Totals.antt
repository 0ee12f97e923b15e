-- ===== src/Base/Map/Totals.antt =====
-- Maps with distinct keys, and sums over them.
use Prim.Native.Nat.{ℕ, ◌+◌}
use mathlib.Core.Path.{◌≡◌, refl, sym, ap}
use mathlib.Core.Logic.{◌≢◌, inl, inr}
use mathlib.Core.Bool.{Bool}
use mathlib.Core.Option.{Option, none, some}
use mathlib.Core.List.{List, [], ◌∷◌}
use native.Mathlib.Omega.{arith}
use registry_ui.Base.Tests.{Bool-cases}
use registry_ui.Base.Lists.{All, sum_by}
use registry_ui.Base.Text.{Text, text_eq}
use registry_ui.Base.TextLaws.{text_eq_iff, text_eq_refl}
use registry_ui.Base.Sort.{insert_by, sort_by}
use registry_ui.Base.Map.{Map, lookup, insert, keys}

abbrev pub IsDistinct : List Text → Type 0
IsDistinct [] = Unit
IsDistinct (x ∷ xs) = All (λ y. x ≢ y) xs × IsDistinct xs

module _ {V : Type 0} where
  -- The sum of a measure of the values.
  abbrev pub total : (V → ℕ) → Map V → ℕ
  total f m = sum_by (λ (e : Text × V). f e.1) m

  abbrev pub measure : (V → ℕ) → Option V → ℕ
  measure f none = 0
  measure f (some v) = f v

  -- A write replaces the measure of the old value by that of the new one.
  pub total-insert :
      (f : V → ℕ) (k : Text) (v : V) (m : Map V)
      → total f (insert k v m) + measure f (lookup k m) ≡ total f m + f v
  unfolding insert lookup
  total-insert f k v [] = omega arith
  total-insert f k v ((j, w) ∷ m) = elim (Bool-cases (text_eq j k)) [
    | inl e ↦ rw e (omega arith)
    | inr e ↦ rw e (omega (arith, total-insert f k v m))
  ]

  pub total-insert_new :
      (f : V → ℕ) (k : Text) (v : V) (m : Map V)
      → lookup k m ≡ none
      → total f (insert k v m) ≡ total f m + f v
  total-insert_new f k v m e =
      let old : measure f (lookup k m) ≡ 0 = rw e in omega (arith, total-insert f k v m)

  All-keys-insert :
      (P : Text → Type 0) (k : Text) (v : V) (m : Map V)
      → P k
      → All P (keys m)
      → All P (keys (insert k v m))
  unfolding insert
  All-keys-insert P k v [] p h = (p, tt)
  All-keys-insert P k v ((j, w) ∷ m) p (q, h) = elim (Bool-cases (text_eq j k)) [
    | inl e ↦ rw e (q, h)
    | inr e ↦ rw e (q, All-keys-insert P k v m p h)
  ]

  pub keys-insert-IsDistinct :
      (k : Text) (v : V) (m : Map V) → IsDistinct (keys m) → IsDistinct (keys (insert k v m))
  unfolding insert
  keys-insert-IsDistinct k v [] h = (tt, tt)
  keys-insert-IsDistinct k v ((j, w) ∷ m) (h, d) = elim (Bool-cases (text_eq j k)) [
    | inl e ↦ rw e (h, d)
    | inr e ↦ rw e (
      All-keys-insert (λ i. j ≢ i) k v m (λ same. ground (arith, text_eq_iff j k)) h,
      keys-insert-IsDistinct k v m d,
    )
  ]

  lookup_past :
      (f : Option V → ℕ) (k : Text) (v : V) (m : Map V) (js : List Text)
      → All (λ j. k ≢ j) js
      → sum_by (λ j. f (lookup j ((k, v) ∷ m))) js ≡ sum_by (λ j. f (lookup j m)) js
  unfolding lookup
  lookup_past f k v m [] h = refl
  lookup_past f k v m (j ∷ js) (n, h) = elim (Bool-cases (text_eq k j)) [
    | inl e ↦ absurd (n ((text_eq_iff k j).0 e))
    | inr e ↦ rw e (ap (λ s. f (lookup j m) + s) (lookup_past f k v m js h))
  ]

  -- Reading every key once reads every entry once.
  pub sum_by-keys :
      (f : V → ℕ) (m : Map V)
      → IsDistinct (keys m)
      → sum_by (λ k. measure f (lookup k m)) (keys m) ≡ total f m
  unfolding lookup
  sum_by-keys f [] h = refl
  sum_by-keys f ((k, v) ∷ m) (h, d) =
      rw (text_eq_refl k)
        (omega (arith, lookup_past (measure f) k v m (keys m) h, sum_by-keys f m d))

module _ {A : Type 0} (less : A → A → Bool) where
  sum_by-insert_by :
      (f : A → ℕ) (x : A) (ys : List A) → sum_by f (insert_by less x ys) ≡ f x + sum_by f ys
  unfolding insert_by
  sum_by-insert_by f x [] = refl
  sum_by-insert_by f x (y ∷ ys) = ground (arith, sum_by-insert_by f x ys)

  -- The order does not matter to a sum.
  pub sum_by-sort_by : (f : A → ℕ) (xs : List A) → sum_by f (sort_by less xs) ≡ sum_by f xs
  unfolding sort_by
  sum_by-sort_by f [] = refl
  sum_by-sort_by f (x ∷ xs) =
      omega (arith, sum_by-insert_by f x (sort_by less xs), sum_by-sort_by f xs)

module _ (less : Text → Text → Bool) where
  All-insert_by :
      (P : Text → Type 0) (x : Text) (ys : List Text) → P x → All P ys → All P (insert_by less x ys)
  unfolding insert_by
  All-insert_by P x [] p h = (p, tt)
  All-insert_by P x (y ∷ ys) p h = elim (Bool-cases (less y x)) [
    | inl e ↦ rw e (h.0, All-insert_by P x ys p h.1)
    | inr e ↦ rw e (p, h)
  ]

  insert_by-IsDistinct :
      (x : Text) (ys : List Text)
      → All (λ y. x ≢ y) ys
      → IsDistinct ys
      → IsDistinct (insert_by less x ys)
  unfolding insert_by
  insert_by-IsDistinct x [] n d = (tt, tt)
  insert_by-IsDistinct x (y ∷ ys) (n, h) (m, d) = elim (Bool-cases (less y x)) [
    | inl e ↦
        rw e (All-insert_by (λ z. y ≢ z) x ys (λ s. n (sym s)) m, insert_by-IsDistinct x ys h d)
    | inr e ↦ rw e ((n, h), (m, d))
  ]

  All-sort_by : (P : Text → Type 0) (xs : List Text) → All P xs → All P (sort_by less xs)
  unfolding sort_by
  All-sort_by P [] h = tt
  All-sort_by P (x ∷ xs) (p, h) = All-insert_by P x (sort_by less xs) p (All-sort_by P xs h)

  pub sort_by-IsDistinct : (xs : List Text) → IsDistinct xs → IsDistinct (sort_by less xs)
  unfolding sort_by
  sort_by-IsDistinct [] d = tt
  sort_by-IsDistinct (x ∷ xs) (n, d) =
      insert_by-IsDistinct x (sort_by less xs) (All-sort_by (λ y. x ≢ y) xs n)
        (sort_by-IsDistinct xs d)
