-- ===== src/Purge/Catalog.antt =====
-- registry/tasks.go: which repositories a run works on.
use mathlib.Core.Path.{◌≡◌, subst}
use mathlib.Core.Logic.{inl, inr}
use mathlib.Core.HLevel.{Π_prop}
use mathlib.Core.Bool.{false}
use mathlib.Core.Option.{some}
use mathlib.Core.List.{List, [], ◌∷◌, Mem, mem-cons_self, mem-cons_of_mem}
use native.Mathlib.Omega.{arith}
use registry_ui.Base.Tests.{Bool-cases, Option-cases}
use registry_ui.Base.Lists.{All, All-imp, All-of_forall}
use registry_ui.Base.Text.{Text, is_empty, split}
use registry_ui.Common.{item_in_slice}
use registry_ui.Common.Laws.{not_mem_of_item_in_slice}
use registry_ui.Purge.{PurgeClient}
use registry_ui.Purge.Scan.{exclude, choose_catalog, catalog_of}

-- The choice of repositories that the command line makes.
pub record IsChosen (include excluded repo : Text) : Type 0 where
  pub included : is_empty include ≡ false → Mem repo (split include b',')
  pub not_excluded : is_empty excluded ≡ false → ¬ Mem repo (split excluded b',')

pub IsChosen-prop : (include excluded repo : Text) → IsProp (IsChosen include excluded repo)
IsChosen-prop include excluded repo p q = λ i. record {
  included = Π_prop (λ _. squash₁) p.included q.included i;
  not_excluded = Π_prop (λ _. Π_prop (λ _. λ x y. absurd x)) p.not_excluded q.not_excluded i;
}

All-mem : (xs : List Text) → All (λ x. Mem x xs) xs
All-mem [] = tt
All-mem (x ∷ xs) = (
  mem-cons_self,
  All-imp (λ y. Mem y xs) (λ y. Mem y (x ∷ xs)) (λ y m. mem-cons_of_mem x m) xs (All-mem xs),
)

-- What is left of a catalog keeps what held of it, and holds no excluded repository.
exclude_sound :
    (P : Text → Type 0) (excluded catalog : List Text)
    → All P catalog
    → All (λ repo. P repo × (¬ Mem repo excluded)) (exclude excluded catalog)
unfolding exclude
exclude_sound P excluded [] h = tt
exclude_sound P excluded (repo ∷ catalog) (p, h) = elim (Bool-cases (item_in_slice repo excluded)) [
  | inl e ↦ rw e (exclude_sound P excluded catalog h)
  | inr e ↦ rw e ((p, not_mem_of_item_in_slice repo excluded e), exclude_sound P excluded catalog h)
]

module _ {S : Type 0} (c : PurgeClient S) (include excluded : Text) where
  choose_catalog_sound :
      (s : S) (catalog : List Text) (s' : S)
      → choose_catalog c include s ≡ some (catalog, s')
      → All (λ repo. is_empty include ≡ false → Mem repo (split include b',')) catalog
  unfolding choose_catalog
  choose_catalog_sound s catalog s' e = elim (Bool-cases (is_empty include)) [
    | inl all ↦
        All-of_forall (λ repo. is_empty include ≡ false → Mem repo (split include b','))
          (λ repo some_given. absurd (ground arith)) catalog
    | inr given ↦
        let same : split include b',' ≡ catalog = ground arith in
        subst (All (λ repo. is_empty include ≡ false → Mem repo (split include b','))) same (
          All-imp (λ repo. Mem repo (split include b','))
            (λ repo. is_empty include ≡ false → Mem repo (split include b',')) (λ repo m _. m)
            (split include b',') (All-mem (split include b',')))
  ]

  pub catalog_of_sound :
      (s : S) (catalog : List Text) (s' : S)
      → catalog_of c include excluded s ≡ some (catalog, s')
      → All (IsChosen include excluded) catalog
  unfolding catalog_of
  catalog_of_sound s catalog s' e = elim (Option-cases (choose_catalog c include s)) [
    | inl ended ↦ absurd (ground arith)
    | inr ((all, s1), chosen) ↦
        let included = choose_catalog_sound s all s1 chosen in
        elim (Bool-cases (is_empty excluded)) [
          | inl none_given ↦
              let same : all ≡ catalog = ground arith in
              subst (All (IsChosen include excluded)) same (
                All-imp (λ repo. is_empty include ≡ false → Mem repo (split include b','))
                  (IsChosen include excluded)
                  (λ repo m. record { included = m; not_excluded = λ given. absurd (ground arith) })
                  all included)
          | inr given ↦
              let same : exclude (split excluded b',') all ≡ catalog = ground arith in
              subst (All (IsChosen include excluded)) same (
                All-imp
                  (λ repo.
                    (is_empty include ≡ false → Mem repo (split include b','))
                    × (¬ Mem repo (split excluded b',')))
                  (IsChosen include excluded)
                  (λ repo (m, n). record { included = m; not_excluded = λ _. n })
                  (exclude (split excluded b',') all)
                  (exclude_sound (λ repo. is_empty include ≡ false → Mem repo (split include b','))
                    (split excluded b',') all included))
        ]
  ]
