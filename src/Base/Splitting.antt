-- ===== src/Base/Splitting.antt =====
-- Texts cut at a separator: what stands in front of the first one and behind the last one.
use Prim.Native.Nat.{ℕ}
use mathlib.Core.Path.{◌≡◌, refl, sym, ap, ◌∙◌}
use mathlib.Core.Logic.{inl, inr}
use mathlib.Core.Bool.{true, false}
use mathlib.Core.List.{List, [], ◌∷◌, ◌++◌, append-nil, append_assoc}
use native.Mathlib.Omega.{arith}
use registry_ui.Base.Tests.{◌==◌, ==_iff, Bool-cases}
use registry_ui.Base.Text.{Text, contains, split_onto, split}

-- The first and the last of the parts; there is always one.
unfoldable pub first_part : List Text → Text
first_part [] = []
first_part (p ∷ ps) = p

unfoldable pub last_part : List Text → Text
last_part [] = []
last_part (p ∷ []) = p
last_part (p ∷ q ∷ ps) = last_part (q ∷ ps)

last_part-split_onto :
    (sep : ℕ) (p cur s : Text)
    → last_part (p ∷ split_onto sep cur s) ≡ last_part (split_onto sep cur s)
unfolding split_onto last_part
last_part-split_onto sep p cur [] = refl
last_part-split_onto sep p cur (c ∷ s) = elim (Bool-cases (c == sep)) [
  | inl e ↦ rw (e, split_onto) refl
  | inr e ↦ rw (e, split_onto) (last_part-split_onto sep p (cur ++ c ∷ []) s)
]

split_onto_whole :
    (sep : ℕ) (cur s : Text) → contains s sep ≡ false → split_onto sep cur s ≡ (cur ++ s) ∷ []
unfolding split_onto contains
split_onto_whole sep cur [] h = ap (λ x. x ∷ []) (sym (append-nil cur))
split_onto_whole sep cur (c ∷ s) h =
    let other : (c == sep) ≡ false = ground arith in
    rw (other, split_onto)
      (split_onto_whole sep (cur ++ c ∷ []) s (ground arith)
        ∙ ap (λ x. x ∷ []) (append_assoc cur (c ∷ []) s))

self_eq : (n : ℕ) → (n == n) ≡ true
self_eq n = (==_iff n n).1 refl

split_onto-append_last :
    (sep : ℕ) (cur x y : Text)
    → contains y sep ≡ false
    → last_part (split_onto sep cur (x ++ sep ∷ y)) ≡ y
unfolding split_onto last_part
split_onto-append_last sep cur [] y h =
    rw (self_eq sep, split_onto, split_onto_whole sep [] y h, last_part) refl
split_onto-append_last sep cur (c ∷ x) y h = elim (Bool-cases (c == sep)) [
  | inl e ↦
      rw (e, split_onto)
        (last_part-split_onto sep cur [] (x ++ sep ∷ y) ∙ split_onto-append_last sep [] x y h)
  | inr e ↦ rw (e, split_onto) (split_onto-append_last sep (cur ++ c ∷ []) x y h)
]

split_onto-append_first :
    (sep : ℕ) (cur x y : Text)
    → contains x sep ≡ false
    → first_part (split_onto sep cur (x ++ sep ∷ y)) ≡ cur ++ x
unfolding split_onto contains first_part
split_onto-append_first sep cur [] y h = rw (self_eq sep, split_onto) (sym (append-nil cur))
split_onto-append_first sep cur (c ∷ x) y h =
    let other : (c == sep) ≡ false = ground arith in
    rw (other, split_onto)
      (split_onto-append_first sep (cur ++ c ∷ []) x y (ground arith) ∙ append_assoc cur (c ∷ []) x)

-- Behind the last separator, and in front of the first one.
pub split-append_last :
    (sep : ℕ) (x y : Text) → contains y sep ≡ false → last_part (split (x ++ sep ∷ y) sep) ≡ y
unfolding split
split-append_last sep x y h = split_onto-append_last sep [] x y h

pub split-append_first :
    (sep : ℕ) (x y : Text) → contains x sep ≡ false → first_part (split (x ++ sep ∷ y) sep) ≡ x
unfolding split
split-append_first sep x y h = split_onto-append_first sep [] x y h
