-- ===== src/Client/SubRepos.antt =====
-- registry/client.go: `SubRepoTagCounts` as a sum over the repositories at or below each path.
use Prim.Native.Nat.{ℕ, ◌+◌}
use mathlib.Core.Path.{◌≡◌, refl}
use mathlib.Core.Logic.{inl, inr}
use mathlib.Core.Bool.{false}
use mathlib.Core.List.{List, [], ◌∷◌}
use native.Mathlib.Omega.{arith}
use registry_ui.Base.Tests.{if◌then◌else◌, Bool-cases}
use registry_ui.Base.Lists.{length, sum_by}
use registry_ui.Base.Text.{Text, text_eq}
use registry_ui.Base.TextLaws.{text_eq_iff, text_eq_refl}
use registry_ui.Base.Map.{Map, lookup, insert, get_or, lookup-insert}
use registry_ui.Client.Counts.{
  sub_repo_of, is_below, count_below, sub_repo_loop, sub_repo_tag_counts,
}

-- The number of tags that are cached for a repository and all below it.
abbrev pub tags_below : Text → Map (List Text) → ℕ
tags_below k cache =
    sum_by (λ (e : Text × List Text). if is_below k e.0 then length e.1 else 0) cache

counted : Text → Text → List Text → Map ℕ → Map ℕ
counted sub j v counts =
    if is_below sub j then insert sub (get_or (lookup sub counts) 0 + length v) counts else counts

count_below_step :
    (sub j : Text) (v : List Text) (cache : Map (List Text)) (counts : Map ℕ)
    → count_below sub ((j, v) ∷ cache) counts ≡ count_below sub cache (counted sub j v counts)
unfolding count_below counted
count_below_step sub j v cache counts = elim (Bool-cases (is_below sub j)) [
  | inl e ↦ rw (e, count_below) refl
  | inr e ↦ rw (e, count_below) refl
]

counted_same :
    (k j : Text) (v : List Text) (counts : Map ℕ)
    → get_or (lookup k (counted k j v counts)) 0
      ≡ get_or (lookup k counts) 0 + (if is_below k j then length v else 0)
unfolding counted
counted_same k j v counts = elim (Bool-cases (is_below k j)) [
  | inl e ↦
      rw (e, lookup-insert k k (get_or (lookup k counts) 0 + length v) counts, text_eq_refl k) refl
  | inr e ↦ rw e (omega arith)
]

counted_other :
    (sub k j : Text) (v : List Text) (counts : Map ℕ)
    → text_eq sub k ≡ false
    → lookup k (counted sub j v counts) ≡ lookup k counts
unfolding counted
counted_other sub k j v counts h = elim (Bool-cases (is_below sub j)) [
  | inl e ↦ rw (e, lookup-insert sub k (get_or (lookup sub counts) 0 + length v) counts, h) refl
  | inr e ↦ rw e refl
]

count_below_same :
    (k : Text) (cache : Map (List Text)) (counts : Map ℕ)
    → get_or (lookup k (count_below k cache counts)) 0
      ≡ get_or (lookup k counts) 0 + tags_below k cache
unfolding count_below
count_below_same k [] counts = omega arith
count_below_same k ((j, v) ∷ cache) counts =
    rw (count_below_step k j v cache counts)
      (omega (arith, count_below_same k cache (counted k j v counts), counted_same k j v counts))

count_below_other :
    (sub k : Text) (cache : Map (List Text)) (counts : Map ℕ)
    → text_eq sub k ≡ false
    → lookup k (count_below sub cache counts) ≡ lookup k counts
unfolding count_below
count_below_other sub k [] counts h = refl
count_below_other sub k ((j, v) ∷ cache) counts h =
    rw
      (
        count_below_step sub j v cache counts,
        count_below_other sub k cache (counted sub j v counts) h,
      )
      (counted_other sub k j v counts h)

count_below-lookup :
    (sub k : Text) (cache : Map (List Text)) (counts : Map ℕ)
    → get_or (lookup k (count_below sub cache counts)) 0
      ≡ get_or (lookup k counts) 0 + (if text_eq sub k then tags_below k cache else 0)
count_below-lookup sub k cache counts = elim (Bool-cases (text_eq sub k)) [
  | inl e ↦ rw (e, (text_eq_iff sub k).0 e) (count_below_same k cache counts)
  | inr e ↦ rw (e, count_below_other sub k cache counts e) (omega arith)
]

sub_repo_loop-lookup :
    (path k : Text) (repos : List Text) (cache : Map (List Text)) (counts : Map ℕ)
    → get_or (lookup k (sub_repo_loop path repos cache counts)) 0
      ≡ get_or (lookup k counts) 0
        + sum_by (λ r. if text_eq (sub_repo_of path r) k then tags_below k cache else 0) repos
unfolding sub_repo_loop
sub_repo_loop-lookup path k [] cache counts = omega arith
sub_repo_loop-lookup path k (r ∷ repos) cache counts = omega (
  arith,
  sub_repo_loop-lookup path k repos cache (count_below (sub_repo_of path r) cache counts),
  count_below-lookup (sub_repo_of path r) k cache counts,
)

-- `SubRepoTagCounts` gives each sub-repository the number of tags that are cached for it and for all
-- repositories below it, once for each time that it is in the list.
pub sub_repo_tag_counts-lookup :
    (path k : Text) (repos : List Text) (cache : Map (List Text))
    → get_or (lookup k (sub_repo_tag_counts path repos cache)) 0
      ≡ sum_by (λ r. if text_eq (sub_repo_of path r) k then tags_below k cache else 0) repos
unfolding sub_repo_tag_counts lookup
sub_repo_tag_counts-lookup path k repos cache =
    omega (arith, sub_repo_loop-lookup path k repos cache [])
