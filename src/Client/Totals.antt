-- ===== src/Client/Totals.antt =====
-- registry/client.go: the numbers of cached tags are sums over the cache.
use Prim.Native.Nat.{ℕ, ◌+◌, ◌≤◌, min}
use mathlib.Core.Path.{◌≡◌, refl, sym, subst}
use mathlib.Core.Logic.{inl, inr}
use mathlib.Core.List.{List, [], ◌∷◌, ◌++◌, Perm}
use native.Mathlib.Omega.{arith}
use registry_ui.Base.Tests.{ltb, Bool-cases}
use registry_ui.Base.Lists.{
  length, take, drop, All, All-imp, All-append_inv, take-append-drop, take_all, length-take,
}
use registry_ui.Base.Text.{Text}
use registry_ui.Base.Sort.{insert_by, sort_by}
use registry_ui.Base.Sort.Laws.{sort_by-perm, length-sort_by}
use registry_ui.Base.Map.{Map, lookup, insert}
use registry_ui.Base.Map.Totals.{total, measure, total-insert}
use registry_ui.Client.Counts.{
  count_loop, get_total_tag_count, RepoTagCount, repo_tag_counts, more_tags,
  get_top_repos_by_tag_count,
}

count_loop_lem : (cache : Map (List Text)) (n : ℕ) → count_loop cache n ≡ n + total length cache
unfolding count_loop
count_loop_lem [] n = omega arith
count_loop_lem ((repo, tags) ∷ cache) n = omega (arith, count_loop_lem cache (n + length tags))

-- `GetTotalTagCount` is the sum of the lengths of the cached lists.
pub get_total_tag_count_lem :
    (cache : Map (List Text)) → get_total_tag_count cache ≡ total length cache
unfolding get_total_tag_count
get_total_tag_count_lem cache = omega (arith, count_loop_lem cache 0)

-- When the list of one repository is replaced in the cache, the total loses the old number of
-- its tags and gains the new one.
pub get_total_tag_count-insert :
    (repo : Text) (tags : List Text) (cache : Map (List Text))
    → get_total_tag_count (insert repo tags cache) + measure length (lookup repo cache)
      ≡ get_total_tag_count cache + length tags
get_total_tag_count-insert repo tags cache = omega (
  arith,
  get_total_tag_count_lem (insert repo tags cache),
  get_total_tag_count_lem cache,
  total-insert length repo tags cache,
)

length-repo_tag_counts : (cache : Map (List Text)) → length (repo_tag_counts cache) ≡ length cache
unfolding repo_tag_counts
length-repo_tag_counts [] = refl
length-repo_tag_counts ((repo, tags) ∷ cache) = omega (arith, length-repo_tag_counts cache)

-- No later count is greater than an earlier one.
abbrev pub IsDescending : List RepoTagCount → Type 0
IsDescending [] = Unit
IsDescending (x ∷ xs) = All (λ (y : RepoTagCount). y.count ≤ x.count) xs × IsDescending xs

All-insert_by :
    (x : RepoTagCount) (ys : List RepoTagCount) (n : ℕ)
    → x.count ≤ n
    → All (λ (y : RepoTagCount). y.count ≤ n) ys
    → All (λ (y : RepoTagCount). y.count ≤ n) (insert_by more_tags x ys)
unfolding insert_by
All-insert_by x [] n h t = (h, tt)
All-insert_by x (y ∷ ys) n h (p, t) = elim (Bool-cases (more_tags y x)) [
  | inl e ↦ rw e (p, All-insert_by x ys n h t)
  | inr e ↦ rw e (h, (p, t))
]

insert_by-IsDescending :
    (x : RepoTagCount) (ys : List RepoTagCount)
    → IsDescending ys
    → IsDescending (insert_by more_tags x ys)
unfolding insert_by more_tags
insert_by-IsDescending x [] h = (tt, tt)
insert_by-IsDescending x (y ∷ ys) (h, d) = elim (Bool-cases (ltb x.count y.count)) [
  | inl e ↦ rw e (All-insert_by x ys y.count (ground arith) h, insert_by-IsDescending x ys d)
  | inr e ↦ rw e (
    (
      (ground arith),
      All-imp (λ (z : RepoTagCount). z.count ≤ y.count) (λ (z : RepoTagCount). z.count ≤ x.count)
          (λ z k. ground arith) ys h,
    ),
    (h, d),
  )
]

sort_by-IsDescending : (xs : List RepoTagCount) → IsDescending (sort_by more_tags xs)
unfolding sort_by
sort_by-IsDescending [] = tt
sort_by-IsDescending (x ∷ xs) =
    insert_by-IsDescending x (sort_by more_tags xs) (sort_by-IsDescending xs)

IsDescending-append :
    (xs ys : List RepoTagCount)
    → IsDescending (xs ++ ys)
    → IsDescending xs
      × All (λ (x : RepoTagCount). All (λ (y : RepoTagCount). y.count ≤ x.count) ys) xs
IsDescending-append [] ys h = (tt, tt)
IsDescending-append (x ∷ xs) ys (h, d) =
    let (k, l) = IsDescending-append xs ys d in
    let (hx, hy) = All-append_inv (λ (y : RepoTagCount). y.count ≤ x.count) xs ys h in
    ((hx, k), (hy, l))

get_top_lem :
    (n : ℕ) (cache : Map (List Text))
    → get_top_repos_by_tag_count n cache ≡ take n (sort_by more_tags (repo_tag_counts cache))
unfolding get_top_repos_by_tag_count
get_top_lem n cache =
    let sorted = sort_by more_tags (repo_tag_counts cache) in
    elim (Bool-cases (ltb n (length sorted))) [
      | inl e ↦ rw e refl
      | inr e ↦ rw e (sym (take_all n sorted (ground arith)))
    ]

-- `GetTopReposByTagCount` returns as many cached repositories as asked for, or all, in descending
-- order of their numbers of tags, and the ones it leaves out have no more tags than any that
-- it returns.
pub get_top-IsTop :
    (n : ℕ) (cache : Map (List Text))
    → (length (get_top_repos_by_tag_count n cache) ≡ min n (length cache))
      × IsDescending (get_top_repos_by_tag_count n cache)
      × (rest : List RepoTagCount) × Perm
          (get_top_repos_by_tag_count n cache ++ rest)
          (repo_tag_counts cache)
      × All
          (λ (x : RepoTagCount). All (λ (y : RepoTagCount). y.count ≤ x.count) rest)
          (get_top_repos_by_tag_count n cache)
get_top-IsTop n cache =
    let sorted = sort_by more_tags (repo_tag_counts cache) in
    let (d, o) = IsDescending-append (take n sorted) (drop n sorted) (
      subst IsDescending (sym (take-append-drop n sorted))
        (sort_by-IsDescending (repo_tag_counts cache))) in
    rw (get_top_lem n cache) (
      omega (
        arith,
        length-take n sorted,
        length-sort_by more_tags (repo_tag_counts cache),
        length-repo_tag_counts cache,
      ),
      d,
      drop n sorted,
      rw (take-append-drop n sorted) (sort_by-perm more_tags (repo_tag_counts cache)),
      o,
    )
