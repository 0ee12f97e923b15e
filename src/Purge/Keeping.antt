-- ===== src/Purge/Keeping.antt =====
-- registry/tasks.go: what the selection keeps and purges of one repository.
use Prim.Native.Nat.{ℕ, zero, suc, ◌+◌, ◌-◌, min}
use mathlib.Core.Path.{◌≡◌, refl, sym, ap}
use mathlib.Core.Logic.{inl, inr}
use mathlib.Core.Bool.{Bool, true, false, not}
use mathlib.Core.List.{
  List, [], ◌∷◌, ◌++◌, map, Mem, Perm, mem-cons_self, mem-cons_of_mem, append_assoc, append-nil,
  perm_middle,
}
use mathlib.Core.List.Perm
use native.Mathlib.Omega.{arith}
use registry_ui.Base.Tests.{Bool-cases}
use registry_ui.Base.Lists.{filter_by, length, take, drop, All, All-imp}
use registry_ui.Base.Int.{ℤ, pos, negsuc, pos_part, ltz}
use registry_ui.Base.Text.{Text}
use registry_ui.Base.TextLaws.{text_lt_irrefl, text_lt_trans, text_lt_total}
use registry_ui.Base.Sort.{sort_by, IsSorted, IsTotal}
use registry_ui.Base.Sort.Laws.{sort_by-perm}
use registry_ui.Purge.{TagData, Env}
use registry_ui.Purge.Select.{less, is_purgeable, filter_tags, keep_min_count, select_tags}

TagData-path : (p q : TagData) → p.name ≡ q.name → p.created ≡ q.created → p ≡ q
TagData-path p q h k = λ i. record { name = h i; created = k i }

less_total : (p q : TagData) → less p q ≡ false → less q p ≡ false → p ≡ q
unfolding less
less_total p q h k = TagData-path p q (ground (arith, text_lt_total q.name p.name)) (ground arith)

less_trans : (p q r : TagData) → less p q ≡ true → less q r ≡ true → less p r ≡ true
unfolding less
less_trans p q r h k = ground (arith, text_lt_trans r.name q.name p.name)

less_irrefl : (p : TagData) → less p p ≡ false
unfolding less
less_irrefl p = ground (arith, text_lt_irrefl p.name)

-- The order of tags is total, so the sorted list is the same whichever algorithm sorts.
pub less-IsTotal : IsTotal less
less-IsTotal = record { irrefl = less_irrefl; trans = less_trans; total = less_total }

abbrev pub names : List TagData → List Text
names = map (λ t. t.name)

module _ {ℓ} {A : Type ℓ} (p : A → Bool) where
  All-filter_by : (P : A → Type 0) (xs : List A) → All P xs → All P (filter_by p xs)
  unfolding filter_by
  All-filter_by P [] h = tt
  All-filter_by P (x ∷ xs) (q, h) = elim (Bool-cases (p x)) [
    | inl e ↦ rw e (q, All-filter_by P xs h)
    | inr e ↦ rw e (All-filter_by P xs h)
  ]

  pub IsSorted-filter_by :
      (less' : A → A → Bool) (xs : List A) → IsSorted less' xs → IsSorted less' (filter_by p xs)
  unfolding filter_by
  IsSorted-filter_by less' [] h = tt
  IsSorted-filter_by less' (x ∷ xs) (h, s) = elim (Bool-cases (p x)) [
    | inl e ↦ rw e (All-filter_by (λ y. less' y x ≡ false) xs h, IsSorted-filter_by less' xs s)
    | inr e ↦ rw e (IsSorted-filter_by less' xs s)
  ]

  -- What passes is in the list, and passes.
  pub filter_by_sound : (xs : List A) → All (λ x. Mem x xs × (p x ≡ true)) (filter_by p xs)
  unfolding filter_by
  filter_by_sound [] = tt
  filter_by_sound (x ∷ xs) =
      let ih =
        All-imp (λ y. Mem y xs × (p y ≡ true)) (λ y. Mem y (x ∷ xs) × (p y ≡ true))
          (λ y (m, h). (mem-cons_of_mem x m, h)) (filter_by p xs) (filter_by_sound xs) in
      elim (Bool-cases (p x)) [ inl e ↦ rw e ((mem-cons_self, e), ih) | inr e ↦ rw e ih ]

  pub length-filter_by :
      (xs : List A) → length (filter_by (λ x. not (p x)) xs) + length (filter_by p xs) ≡ length xs
  unfolding filter_by
  length-filter_by [] = omega arith
  length-filter_by (x ∷ xs) = ground (arith, length-filter_by xs)

  -- What passes and what fails make up the list.
  filter_by-perm : (xs : List A) → Perm (filter_by (λ x. not (p x)) xs ++ filter_by p xs) xs
  unfolding filter_by
  filter_by-perm [] = Perm.rfl
  filter_by-perm (x ∷ xs) = elim (Bool-cases (p x)) [
    | inl e ↦ rw e (
        Perm.trans (perm_middle (filter_by (λ y. not (p y)) xs) (filter_by p xs))
          (Perm.cons x (filter_by-perm xs)))
    | inr e ↦ rw e (Perm.cons x (filter_by-perm xs))
  ]

module _ {A : Type 0} {B : Type 0} (f : A → B) where
  pub map-take-drop :
      (n : ℕ) (xs : List A)
      → (take n (map f xs) ≡ map f (take n xs)) × (drop n (map f xs) ≡ map f (drop n xs))
  map-take-drop zero xs = (refl, refl)
  map-take-drop (suc n) [] = (refl, refl)
  map-take-drop (suc n) (x ∷ xs) = let (t, d) = map-take-drop n xs in (ap (◌∷◌ (f x)) t, d)

module _ (env : Env) (tags_from_file : List Text) where
  abbrev pub purgeable : TagData → Bool
  purgeable = is_purgeable env tags_from_file

  abbrev pub protected : List TagData → List TagData
  protected tags = filter_by (λ t. not (purgeable t)) (sort_by less tags)

  abbrev pub candidates : List TagData → List TagData
  candidates tags = filter_by purgeable (sort_by less tags)

  filter_tags_lem :
      (tags : List TagData) (keep purge : List Text)
      → filter_tags env tags_from_file tags keep purge ≡ (
        keep ++ names (filter_by (λ t. not (purgeable t)) tags),
        purge ++ names (filter_by purgeable tags),
      )
  unfolding filter_tags filter_by
  filter_tags_lem [] keep purge = λ i. (sym (append-nil keep) i, sym (append-nil purge) i)
  filter_tags_lem (t ∷ tags) keep purge = ground (
    arith,
    filter_tags_lem tags keep (purge ++ t.name ∷ []),
    filter_tags_lem tags (keep ++ t.name ∷ []) purge,
    append_assoc keep (t.name ∷ []) (names (filter_by (λ u. not (purgeable u)) tags)),
    append_assoc purge (t.name ∷ []) (names (filter_by purgeable tags)),
  )

  -- How many purgeable tags are kept to reach the minimal count.
  abbrev pub spared_count : List TagData → ℕ
  spared_count tags =
      min (pos_part env.settings.keep_count - length (names (protected tags)))
        (length (names (candidates tags)))

  none_missing : (n : ℕ) (k : ℤ) → ltz (pos n) k ≡ false → pos_part k - n ≡ 0
  none_missing n (pos k) h = ground arith
  none_missing n (negsuc k) h = omega arith

  keep_min_count_lem :
      (keep purge : List Text)
      → keep_min_count env.settings.keep_count keep purge ≡ (
        keep ++ take (min (pos_part env.settings.keep_count - length keep) (length purge)) purge,
        drop (min (pos_part env.settings.keep_count - length keep) (length purge)) purge,
      )
  unfolding keep_min_count
  keep_min_count_lem keep purge =
      elim (Bool-cases (ltz (pos (length keep)) env.settings.keep_count)) [
        | inl e ↦ rw e
        | inr e ↦
            let z : min (pos_part env.settings.keep_count - length keep) (length purge) ≡ 0 =
              omega (arith, none_missing (length keep) env.settings.keep_count e) in
            rw (e, z) (rw append-nil)
      ]

  -- The two lists, written out.
  pub select_tags_lem :
      (tags : List TagData)
      → select_tags env tags_from_file tags ≡ (
        names (protected tags) ++ take (spared_count tags) (names (candidates tags)),
        drop (spared_count tags) (names (candidates tags)),
      )
  unfolding select_tags
  select_tags_lem tags =
      rw (filter_tags_lem (sort_by less tags) [] [])
        (keep_min_count_lem (names (protected tags)) (names (candidates tags)))

  pub all_tags : (tags : List TagData) → Perm (protected tags ++ candidates tags) tags
  all_tags tags = Perm.trans (filter_by-perm purgeable (sort_by less tags)) (sort_by-perm less tags)
