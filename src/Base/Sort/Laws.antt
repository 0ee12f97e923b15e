-- ===== src/Base/Sort/Laws.antt =====
-- Sorting keeps the elements, puts them in order, and has only one possible result.
use Prim.Native.Nat.{suc}
use mathlib.Core.Path.{◌≡◌, refl, ap₂}
use mathlib.Core.Logic.{inl, inr}
use mathlib.Core.Logic.Or
use mathlib.Core.Bool.{Bool, true, false, Bool-set}
use mathlib.Core.List.{List, [], ◌∷◌, Mem, Perm, mem-cons, not-mem-nil, mem-cons_self}
use mathlib.Core.List.Perm
use native.Mathlib.Omega.{arith}
use registry_ui.Base.Tests.{Bool-cases}
use registry_ui.Base.Lists.{length, All, All-imp}
use registry_ui.Base.Text.{text_lt}
use registry_ui.Base.TextLaws.{text_lt_irrefl, text_lt_trans, text_lt_total}
use registry_ui.Base.Sort.{insert_by, sort_by, IsSorted, IsTotal}

module _ {ℓ} {A : Type ℓ} (less : A → A → Bool) where
  insert_by-perm : (x : A) (ys : List A) → Perm (insert_by less x ys) (x ∷ ys)
  unfolding insert_by
  insert_by-perm x [] = Perm.rfl
  insert_by-perm x (y ∷ ys) = elim (Bool-cases (less y x)) [
    | inl e ↦ rw e (Perm.trans (Perm.cons y (insert_by-perm x ys)) (Perm.swap x y ys))
    | inr e ↦ rw e Perm.rfl
  ]

  -- Sorting keeps every element, as often as it occurs.
  pub sort_by-perm : (xs : List A) → Perm (sort_by less xs) xs
  unfolding sort_by
  sort_by-perm [] = Perm.rfl
  sort_by-perm (x ∷ xs) =
      Perm.trans (insert_by-perm x (sort_by less xs)) (Perm.cons x (sort_by-perm xs))

  length-insert_by : (x : A) (ys : List A) → length (insert_by less x ys) ≡ suc (length ys)
  unfolding insert_by
  length-insert_by x [] = refl
  length-insert_by x (y ∷ ys) = ground (arith, length-insert_by x ys)

  pub length-sort_by : (xs : List A) → length (sort_by less xs) ≡ length xs
  unfolding sort_by
  length-sort_by [] = refl
  length-sort_by (x ∷ xs) = omega (arith, length-insert_by x (sort_by less xs), length-sort_by xs)

  pub All-mem :
      (x : A) (ys : List A) → All (λ y. less y x ≡ false) ys → (z : A) → Mem z ys → less z x ≡ false
  All-mem x [] h z m = absurd (not-mem-nil m)
  All-mem x (y ∷ ys) (p, h) z m =
      Or.elim (Bool-set _ _) (mem-cons.0 m) (λ e. rw e p) (All-mem x ys h z)

module _ {ℓ} {A : Type ℓ} (less : A → A → Bool) (o : IsTotal less) where
  asymm : (a b : A) → less a b ≡ true → less b a ≡ false
  asymm a b h = elim (Bool-cases (less b a)) [
    | inl e ↦ absurd (ground (arith, o.trans a b a, o.irrefl a))
    | inr e ↦ e
  ]

  -- "Not less" is transitive.
  not_less_trans : (a b c : A) → less b a ≡ false → less c b ≡ false → less c a ≡ false
  not_less_trans a b c h k = elim (Bool-cases (less c a)) [
    | inr e ↦ e
    | inl e ↦ elim (Bool-cases (less b c)) [
      | inl f ↦ ground (arith, o.trans b c a)
      | inr f ↦ let same : b ≡ c = o.total b c f k in rw (← same) h
    ]
  ]

  All-insert_by :
      (P : A → Type 0) (x : A) (ys : List A) → P x → All P ys → All P (insert_by less x ys)
  unfolding insert_by
  All-insert_by P x [] p h = (p, tt)
  All-insert_by P x (y ∷ ys) p h = elim (Bool-cases (less y x)) [
    | inl e ↦ rw e (h.0, All-insert_by P x ys p h.1)
    | inr e ↦ rw e (p, h)
  ]

  insert_by-IsSorted :
      (x : A) (ys : List A) → IsSorted less ys → IsSorted less (insert_by less x ys)
  unfolding insert_by
  insert_by-IsSorted x [] h = (tt, tt)
  insert_by-IsSorted x (y ∷ ys) (h, s) = elim (Bool-cases (less y x)) [
    | inl e ↦
        rw e (All-insert_by (λ z. less z y ≡ false) x ys (asymm y x e) h, insert_by-IsSorted x ys s)
    | inr e ↦ rw e (
      (
        e,
        All-imp (λ z. less z y ≡ false) (λ z. less z x ≡ false) (λ z. not_less_trans x y z e) ys h,
      ),
      (h, s),
    )
  ]

  -- Sorting puts the elements in order.
  pub sort_by-IsSorted : (xs : List A) → IsSorted less (sort_by less xs)
  unfolding sort_by
  sort_by-IsSorted [] = tt
  sort_by-IsSorted (x ∷ xs) = insert_by-IsSorted x (sort_by less xs) (sort_by-IsSorted xs)

  heads_not_less :
      (a b : A) (l r : List A) → IsSorted less (a ∷ l) → Mem b (a ∷ l) → less b a ≡ false
  heads_not_less a b l r (h, s) m =
      Or.elim (Bool-set _ _) (mem-cons.0 m) (λ e. rw e (o.irrefl a)) (All-mem less a l h b)

  -- A list has only one sorted permutation, whichever algorithm finds it.
  pub IsSorted-unique : (l r : List A) → IsSorted less l → IsSorted less r → Perm l r → l ≡ r
  IsSorted-unique [] r sl sr p = Perm.nil-eq p
  IsSorted-unique (a ∷ l) [] sl sr p = Perm.eq-nil p
  IsSorted-unique (a ∷ l) (b ∷ r) sl sr p =
      let heads : a ≡ b =
        o.total a b (heads_not_less b a r l sr ((Perm.mem_iff p).0 mem-cons_self))
          (heads_not_less a b l r sl ((Perm.mem_iff p).1 mem-cons_self)) in
      let tails = Perm.cons_inv (Perm.trans p (Perm.symm (Perm.cons' heads Perm.rfl))) in
      ap₂ ◌∷◌ heads (IsSorted-unique l r sl.1 sr.1 tails)

pub text_lt-IsTotal : IsTotal text_lt
text_lt-IsTotal = record { irrefl = text_lt_irrefl; trans = text_lt_trans; total = text_lt_total }
