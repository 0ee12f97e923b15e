-- ===== src/Client/Counts.antt =====
-- registry/client.go: the numbers of tags that are cached. The program iterates over the map in a random
-- order; here it is the order of insertion, which the sums do not depend on. In
-- `GetTopReposByTagCount` it decides among equal counts only.
use Prim.Native.Nat.{ℕ, ◌+◌}
use mathlib.Core.Bool.{Bool, true, false, ◌||◌}
use mathlib.Core.List.{List, [], ◌∷◌, ◌++◌}
use registry_ui.Base.Tests.{ltb, if◌then◌else◌}
use registry_ui.Base.Lists.{length, take}
use registry_ui.Base.Text.{Text, codes, text_eq, is_empty, has_prefix}
use registry_ui.Base.Sort.{sort_by}
use registry_ui.Base.Map.{Map, lookup, insert, get_or}

-- `total += len(tags)`, over the cache.
unfoldable pub count_loop : Map (List Text) → ℕ → ℕ
count_loop [] total = total
count_loop ((repo, tags) ∷ cache) total = count_loop cache (total + length tags)

-- `GetTotalTagCount`
unfoldable pub get_total_tag_count : Map (List Text) → ℕ
unfolding count_loop
get_total_tag_count cache = count_loop cache 0

-- `RepoTagCount`
pub record RepoTagCount : Type 0 where
  pub repo : Text
  pub count : ℕ

unfoldable pub repo_tag_counts : Map (List Text) → List RepoTagCount
repo_tag_counts [] = []
repo_tag_counts ((repo, tags) ∷ cache) =
    record { repo = repo; count = length tags } ∷ repo_tag_counts cache

-- "sorted by tag count descending"
unfoldable pub more_tags : RepoTagCount → RepoTagCount → Bool
more_tags a b = ltb b.count a.count

-- `GetTopReposByTagCount`
unfoldable pub get_top_repos_by_tag_count : ℕ → Map (List Text) → List RepoTagCount
get_top_repos_by_tag_count n cache =
    let result = sort_by more_tags (repo_tag_counts cache) in
    if ltb n (length result) then take n result else result

-- `subRepo`
unfoldable pub sub_repo_of : Text → Text → Text
sub_repo_of repo_path r = if is_empty repo_path then r else repo_path ++ codes "/" ++ r

-- Whether a cached repository is the sub-repository or stands below it.
unfoldable pub is_below : Text → Text → Bool
is_below sub_repo k = text_eq k sub_repo || has_prefix k (sub_repo ++ codes "/")

-- The loop over the cache for one sub-repository.
unfoldable pub count_below : Text → Map (List Text) → Map ℕ → Map ℕ
count_below sub_repo [] counts = counts
count_below sub_repo ((k, v) ∷ cache) counts = elim (is_below sub_repo k) [
  | true ↦
      count_below sub_repo cache
        (insert sub_repo (get_or (lookup sub_repo counts) 0 + length v) counts)
  | false ↦ count_below sub_repo cache counts
]

unfoldable pub sub_repo_loop : Text → List Text → Map (List Text) → Map ℕ → Map ℕ
sub_repo_loop repo_path [] cache counts = counts
sub_repo_loop repo_path (r ∷ repos) cache counts =
    sub_repo_loop repo_path repos cache (count_below (sub_repo_of repo_path r) cache counts)

-- `SubRepoTagCounts`
unfoldable pub sub_repo_tag_counts : Text → List Text → Map (List Text) → Map ℕ
unfolding sub_repo_loop
sub_repo_tag_counts repo_path repos cache = sub_repo_loop repo_path repos cache []
