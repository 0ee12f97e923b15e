-- ===== src/Common/Unique.antt =====
-- registry/common.go: `UniqueSortedSlice` keeps the members, in ascending order and once each.
use mathlib.Core.Path.{◌≡◌, sym, subst}
use mathlib.Core.Logic.{◌↔◌, inl, inr}
use mathlib.Core.Logic.Or
use mathlib.Core.Bool.{true, false}
use mathlib.Core.List.{
  List, [], ◌∷◌, ◌++◌, Mem, mem-cons, not-mem-nil, mem-cons_self, mem-cons_of_mem,
}
use mathlib.Core.List.Perm
use native.Mathlib.Omega.{arith}
use registry_ui.Base.Tests.{Bool-cases}
use registry_ui.Base.Lists.{All, All-append}
use registry_ui.Base.Text.{Text, text_eq, text_lt}
use registry_ui.Base.TextLaws.{text_eq_iff, text_lt_total}
use registry_ui.Base.Sort.{sort_by, sort_strings, IsSorted}
use registry_ui.Base.Sort.Laws.{All-mem, sort_by-perm, sort_by-IsSorted, text_lt-IsTotal}
use registry_ui.Common.{item_in_slice, unique_loop, unique_sorted_slice}
use registry_ui.Common.Laws.{item_in_slice_iff}

-- Each later text is greater.
abbrev pub IsAscending : List Text → Type 0
IsAscending [] = Unit
IsAscending (x ∷ xs) = All (λ y. text_lt x y ≡ true) xs × IsAscending xs

pub All-forall_mem : (P : Text → Type 0) (xs : List Text) → ((x : Text) → Mem x xs → P x) → All P xs
All-forall_mem P [] h = tt
All-forall_mem P (x ∷ xs) h =
    (h x mem-cons_self, All-forall_mem P xs (λ y m. h y (mem-cons_of_mem x m)))

unique_loop-All :
    (P : Text → Type 0) (slice seen out : List Text)
    → All P slice
    → All P out
    → All P (unique_loop slice seen out)
unfolding unique_loop
unique_loop-All P [] seen out h k = k
unique_loop-All P (i ∷ slice) seen out (p, h) k = elim (Bool-cases (item_in_slice i seen)) [
  | inl e ↦ rw (e, unique_loop) (unique_loop-All P slice seen out h k)
  | inr e ↦
      rw (e, unique_loop)
        (unique_loop-All P slice (i ∷ seen) (out ++ i ∷ []) h (All-append P out (i ∷ []) k (p, tt)))
]

-- What is written stays, and what is seen is written.
unique_loop_keeps :
    (P : List Text → Type 0)
    → ((xs ys : List Text) → P xs → P (xs ++ ys))
    → (slice seen out : List Text) → P out
    → P (unique_loop slice seen out)
unfolding unique_loop
unique_loop_keeps P grows [] seen out h = h
unique_loop_keeps P grows (i ∷ slice) seen out h = elim (Bool-cases (item_in_slice i seen)) [
  | inl e ↦ rw (e, unique_loop) (unique_loop_keeps P grows slice seen out h)
  | inr e ↦
      rw (e, unique_loop)
        (unique_loop_keeps P grows slice (i ∷ seen) (out ++ i ∷ []) (grows out (i ∷ []) h))
]

mem-append_left : (x : Text) (xs ys : List Text) → Mem x xs → Mem x (xs ++ ys)
mem-append_left x [] ys m = absurd (not-mem-nil m)
mem-append_left x (z ∷ xs) ys m =
    Or.elim (hlevel) (mem-cons.0 m) (λ s. rw s mem-cons_self)
      (λ n. mem-cons_of_mem z (mem-append_left x xs ys n))

mem-append_last : (x : Text) (xs : List Text) → Mem x (xs ++ x ∷ [])
mem-append_last x [] = mem-cons_self
mem-append_last x (z ∷ xs) = mem-cons_of_mem z (mem-append_last x xs)

seen_out :
    (i : Text) (seen out : List Text)
    → ((y : Text) → Mem y seen → Mem y out)
    → (y : Text) → Mem y (i ∷ seen)
    → Mem y (out ++ i ∷ [])
seen_out i seen out h y m =
    Or.elim (hlevel) (mem-cons.0 m) (λ s. rw s (mem-append_last i out))
      (λ n. mem-append_left y out (i ∷ []) (h y n))

unique_loop-mem :
    (x : Text) (slice seen out : List Text)
    → ((y : Text) → Mem y seen → Mem y out)
    → Mem x slice
    → Mem x (unique_loop slice seen out)
unfolding unique_loop
unique_loop-mem x [] seen out h m = absurd (not-mem-nil m)
unique_loop-mem x (i ∷ slice) seen out h m = elim (Bool-cases (item_in_slice i seen)) [
  | inl e ↦
      rw (e, unique_loop)
        (Or.elim (hlevel) (mem-cons.0 m)
          (λ s.
            unique_loop_keeps (Mem x) (mem-append_left x) slice seen out
              (h x (subst (λ j. Mem j seen) (sym s) ((item_in_slice_iff i seen).0 e))))
          (unique_loop-mem x slice seen out h))
  | inr e ↦
      rw (e, unique_loop)
        (Or.elim (hlevel) (mem-cons.0 m)
          (λ s.
            unique_loop_keeps (Mem x) (mem-append_left x) slice (i ∷ seen) (out ++ i ∷ [])
              (rw s (mem-append_last i out)))
          (unique_loop-mem x slice (i ∷ seen) (out ++ i ∷ []) (seen_out i seen out h)))
]

not_last : (y i : Text) (xs : List Text) → text_eq y i ≡ false → Mem y (xs ++ i ∷ []) → Mem y xs
not_last y i [] e m =
    Or.elim (hlevel) (mem-cons.0 m) (λ s. absurd (ground (arith, text_eq_iff y i))) (λ n. n)
not_last y i (x ∷ xs) e m =
    Or.elim (hlevel) (mem-cons.0 m) (λ s. rw s mem-cons_self)
      (λ n. mem-cons_of_mem x (not_last y i xs e n))

IsAscending-snoc :
    (xs : List Text) (i : Text)
    → IsAscending xs
    → All (λ y. text_lt y i ≡ true) xs
    → IsAscending (xs ++ i ∷ [])
IsAscending-snoc [] i a h = (tt, tt)
IsAscending-snoc (x ∷ xs) i (b, a) (p, h) =
    (All-append (λ y. text_lt x y ≡ true) xs (i ∷ []) b (p, tt), IsAscending-snoc xs i a h)

-- A text that is not written yet and not below the written ones is above them.
above :
    (i : Text) (seen out : List Text)
    → item_in_slice i seen ≡ false
    → ((y : Text) → Mem y out → Mem y seen)
    → ((y : Text) → Mem y out → text_lt i y ≡ false)
    → (y : Text) → Mem y out
    → text_lt y i ≡ true
above i seen out e h low y m = elim (Bool-cases (text_lt y i)) [
  | inl f ↦ f
  | inr f ↦
      let same : y ≡ i = text_lt_total y i f (low y m) in
      let known : item_in_slice i seen ≡ true =
        (item_in_slice_iff i seen).1 (subst (λ j. Mem j seen) same (h y m)) in
      absurd (ground arith)
]

out_seen :
    (i : Text) (seen out : List Text)
    → ((y : Text) → Mem y out → Mem y seen)
    → (y : Text) → Mem y (out ++ i ∷ [])
    → Mem y (i ∷ seen)
out_seen i seen out h y m = elim (Bool-cases (text_eq y i)) [
  | inl e ↦ rw ((text_eq_iff y i).0 e) mem-cons_self
  | inr e ↦ mem-cons_of_mem i (h y (not_last y i out e m))
]

low_last :
    (i : Text) (slice out : List Text)
    → All (λ z. text_lt z i ≡ false) slice
    → ((y z : Text) → Mem y out → Mem z (i ∷ slice) → text_lt z y ≡ false)
    → (y z : Text) → Mem y (out ++ i ∷ [])
    → Mem z slice
    → text_lt z y ≡ false
low_last i slice out b low y z m n = elim (Bool-cases (text_eq y i)) [
  | inl e ↦ rw ((text_eq_iff y i).0 e) (All-mem text_lt i slice b z n)
  | inr e ↦ low y z (not_last y i out e m) (mem-cons_of_mem i n)
]

unique_loop-IsAscending :
    (slice seen out : List Text)
    → IsSorted text_lt slice
    → IsAscending out
    → ((y : Text) → Mem y out → Mem y seen)
    → ((y z : Text) → Mem y out → Mem z slice → text_lt z y ≡ false)
    → IsAscending (unique_loop slice seen out)
unfolding unique_loop
unique_loop-IsAscending [] seen out s a h low = a
unique_loop-IsAscending (i ∷ slice) seen out (b, s) a h low =
    elim (Bool-cases (item_in_slice i seen)) [
      | inl e ↦
          rw (e, unique_loop)
            (unique_loop-IsAscending slice seen out s a h
              (λ y z m n. low y z m (mem-cons_of_mem i n)))
      | inr e ↦
          let low_i = λ (y : Text) (m : Mem y out). low y i m mem-cons_self in
          rw (e, unique_loop)
            (unique_loop-IsAscending slice (i ∷ seen) (out ++ i ∷ []) s
              (IsAscending-snoc out i a
                (All-forall_mem (λ y. text_lt y i ≡ true) out (above i seen out e h low_i)))
              (out_seen i seen out h) (low_last i slice out b low))
    ]

all_of_list :
    (xs slice : List Text) → All (λ y. Mem y slice) xs → (x : Text) → Mem x xs → Mem x slice
all_of_list [] slice h x m = absurd (not-mem-nil m)
all_of_list (y ∷ xs) slice (p, h) x m =
    Or.elim (hlevel) (mem-cons.0 m) (λ s. rw s p) (all_of_list xs slice h x)

member : (x : Text) (slice : List Text) → Mem x (unique_loop slice [] []) → Mem x slice
member x slice =
    all_of_list (unique_loop slice [] []) slice
      (unique_loop-All (λ y. Mem y slice) slice [] []
        (All-forall_mem (λ y. Mem y slice) slice (λ y m. m)) tt)
      x

-- `UniqueSortedSlice` has exactly the members of the slice, in strictly ascending order, so none
-- of them twice.
pub unique_sorted_slice_lem :
    (slice : List Text)
    → IsAscending (unique_sorted_slice slice)
      × ((x : Text) → Mem x (unique_sorted_slice slice) ↔ Mem x slice)
unfolding unique_sorted_slice sort_strings
unique_sorted_slice_lem slice =
    let sorted = sort_by text_lt slice in
    let same = sort_by-perm text_lt slice in
    (
      unique_loop-IsAscending sorted [] [] (sort_by-IsSorted text_lt text_lt-IsTotal slice) tt
          (λ y m. m) (λ y z m n. absurd (not-mem-nil m)),
      λ x. (
        λ m. (Perm.mem_iff same).0 (member x sorted m),
        λ m. unique_loop-mem x sorted [] [] (λ y n. n) ((Perm.mem_iff same).1 m),
      ),
    )
