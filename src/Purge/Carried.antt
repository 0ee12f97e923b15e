-- ===== src/Purge/Carried.antt =====
-- registry/tasks.go: a run that is not dry calls `DeleteTag` for each of its candidates.
use mathlib.Core.Path.{◌≡◌, refl, sym, ap, subst, ◌∙◌}
use mathlib.Core.Logic.{inl, inr}
use mathlib.Core.Bool.{Bool, true, false}
use mathlib.Core.Option.{Option, none, some}
use mathlib.Core.List.{List, [], ◌∷◌}
use native.Mathlib.Omega.{arith}
use registry_ui.Base.Tests.{if◌then◌else◌, Bool-cases}
use registry_ui.Base.Lists.{length, sum_by, All, All-imp}
use registry_ui.Base.Text.{Text, text_eq}
use registry_ui.Base.TextLaws.{text_eq_iff}
use registry_ui.Base.Map.{Map, lookup, insert, get_or, keys, lookup-insert}
use registry_ui.Base.Sort.{insert_by, sort_by}
use registry_ui.Base.Map.Totals.{measure}
use registry_ui.Common.{sorted_map_keys}
use registry_ui.Purge.{PurgeClient, PurgeRepoResult, PurgeRunResult, Env}
use registry_ui.Purge.Scan.{Scanned}
use registry_ui.Purge.Plan.{Planned, nothing_planned, plan_repo, plan_repos, plan}
use registry_ui.Purge.Delete.{
  tally, tally_repo, no_repo_result, delete_tags, delete_repo, delete_repos,
}
use registry_ui.Purge.Counts.{delete_tags-IsTallied}
use registry_ui.Purge.Calls.{
  Deletion, noting, is_tried, tags_of, IsTried, IsTried-refl, IsTried-trans, tally-IsTried,
  is_tried_self,
}

-- Each of the tags has had a call.
abbrev pub AreTried : Text → List Deletion → List Text → Type 0
AreTried repo calls = All (λ tag. is_tried repo tag calls ≡ true)

module _ {S : Type 0} (c : PurgeClient S) where
  delete_tags-tags :
      (repo : Text) (tags : List Text) (r : PurgeRunResult) (rr : PurgeRepoResult) (s : S)
      → (delete_tags c repo tags r rr s).1.tags ≡ rr.tags
  unfolding delete_tags tally_repo
  delete_tags-tags repo [] r rr s = refl
  delete_tags-tags repo (tag ∷ tags) r rr s =
      delete_tags-tags repo tags _ _ _ ∙ same (c.delete_tag repo tag s).0
    where
      same : (e : Option Text) → (tally_repo e rr).tags ≡ rr.tags
      same none = refl
      same (some e) = refl

-- A write to a map, at its own key and at another one.
module _ {V : Type 0} (k j : Text) (v : V) (m : Map V) where
  lookup-insert_same : text_eq k j ≡ true → lookup j (insert k v m) ≡ some v
  lookup-insert_same e = lookup-insert k j v m ∙ ap (λ b. if b then some v else lookup j m) e

  lookup-insert_other : text_eq k j ≡ false → lookup j (insert k v m) ≡ lookup j m
  lookup-insert_other e = lookup-insert k j v m ∙ ap (λ b. if b then some v else lookup j m) e

-- The tags in what a lookup finds.
abbrev listed_in : Option PurgeRepoResult → List Text
listed_in found = (get_or found no_repo_result).tags

module _ {S : Type 0} (c : PurgeClient S) where
  delete_tags-IsTried :
      (repo : Text) (tags : List Text) (r : PurgeRunResult) (rr : PurgeRepoResult) (s : S)
      → (calls : List Deletion)
      → IsTried
          (length tags)
          r
          (delete_tags (noting c) repo tags r rr (s, calls)).0
          calls
          (delete_tags (noting c) repo tags r rr (s, calls)).2.1
        × AreTried repo (delete_tags (noting c) repo tags r rr (s, calls)).2.1 tags
  unfolding delete_tags
  delete_tags-IsTried repo [] r rr s calls = (IsTried-refl r calls, tt)
  delete_tags-IsTried repo (tag ∷ tags) r rr s calls =
      let (e, s') = c.delete_tag repo tag s in
      let (rest, each) =
        delete_tags-IsTried repo tags (tally repo tag e r) (tally_repo e rr) s'
          ((record { repo = repo; tag = tag; error = e }) ∷ calls) in
      (
        IsTried-trans (tally-IsTried repo tag e r calls) rest (omega arith),
        (rest.still repo tag (is_tried_self repo tag e calls), each),
      )

  stored_tags :
      (repo j : Text) (m : Map PurgeRepoResult) (rr : PurgeRepoResult)
      → rr.tags ≡ tags_of m repo
      → tags_of (insert repo rr m) j ≡ tags_of m j
  stored_tags repo j m rr h = elim (Bool-cases (text_eq repo j)) [
    | inl e ↦
        let same : repo ≡ j = (text_eq_iff repo j).0 e in
        ap listed_in (lookup-insert_same repo j rr m e) ∙ (h ∙ ap (tags_of m) same)
    | inr e ↦ ap listed_in (lookup-insert_other repo j rr m e)
  ]

  delete_repo-IsTried :
      (repo : Text) (tags : List Text) (r : PurgeRunResult) (s : S) (calls : List Deletion)
      → IsTried
          (length tags)
          r
          (delete_repo (noting c) false repo tags r (s, calls)).0
          calls
          (delete_repo (noting c) false repo tags r (s, calls)).1.1
        × AreTried repo (delete_repo (noting c) false repo tags r (s, calls)).1.1 tags
  unfolding delete_repo
  delete_repo-IsTried repo [] r s calls = (IsTried-refl r calls, tt)
  delete_repo-IsTried repo (tag ∷ tags) r s calls =
      let rr = get_or (lookup repo r.repositories) no_repo_result in
      let (r', rr', w) = delete_tags (noting c) repo (tag ∷ tags) r rr (s, calls) in
      let (t, each) = delete_tags-IsTried repo (tag ∷ tags) r rr s calls in
      let kept : r'.repositories ≡ r.repositories =
        (delete_tags-IsTallied (noting c) repo (tag ∷ tags) r rr (s, calls)).same_repositories in
      let listed : rr'.tags ≡ tags_of r.repositories repo =
        delete_tags-tags (noting c) repo (tag ∷ tags) r rr (s, calls) in
      (
        record {
          count = t.count;
          deleted = t.deleted;
          listed = t.listed;
          still = t.still;
          same_tags = λ j. rw kept (stored_tags repo j r.repositories rr' listed);
        },
        each,
      )

  pub delete_repos-IsTried :
      (m : Map (List Text)) (repos : List Text) (r : PurgeRunResult) (s : S) (calls : List Deletion)
      → IsTried
          (sum_by (λ repo. measure length (lookup repo m)) repos)
          r
          (delete_repos (noting c) false m repos r (s, calls)).0
          calls
          (delete_repos (noting c) false m repos r (s, calls)).1.1
        × All
            (λ repo.
              AreTried repo
                (delete_repos (noting c) false m repos r (s, calls)).1.1
                (get_or (lookup repo m) []))
            repos
  unfolding delete_repos
  delete_repos-IsTried m [] r s calls = (IsTried-refl r calls, tt)
  delete_repos-IsTried m (repo ∷ repos) r s calls =
      let tags = get_or (lookup repo m) [] in
      let (r', (s', calls')) = delete_repo (noting c) false repo tags r (s, calls) in
      let (p, each) = delete_repo-IsTried repo tags r s calls in
      let (q, rest) = delete_repos-IsTried m repos r' s' calls' in
      (
        IsTried-trans p q (omega (arith, measured (lookup repo m))),
        (
          All-imp (λ tag. is_tried repo tag calls' ≡ true) _ (λ tag h. q.still repo tag h) tags
              each,
          rest,
        ),
      )
    where
      measured : (o : Option (List Text)) → measure length o ≡ length (get_or o [])
      measured none = refl
      measured (some l) = refl

-- What holds of the sorted elements holds of all.
module _ (less : Text → Text → Bool) (P : Text → Type 0) where
  All-insert_by_inv : (x : Text) (ys : List Text) → All P (insert_by less x ys) → P x × All P ys
  unfolding insert_by
  All-insert_by_inv x [] h = h
  All-insert_by_inv x (y ∷ ys) h = elim (Bool-cases (less y x)) [
    | inl e ↦
        let opened : insert_by less x (y ∷ ys) ≡ y ∷ insert_by less x ys = rw (e, insert_by) refl in
        let (p, rest) = subst (All P) opened h in
        let (q, others) = All-insert_by_inv x ys rest in (q, (p, others))
    | inr e ↦
        let opened : insert_by less x (y ∷ ys) ≡ x ∷ y ∷ ys = rw (e, insert_by) refl in
        subst (All P) opened h
  ]

  pub All-sort_by_inv : (xs : List Text) → All P (sort_by less xs) → All P xs
  unfolding sort_by
  All-sort_by_inv [] h = h
  All-sort_by_inv (x ∷ xs) h =
      let (p, rest) = All-insert_by_inv x (sort_by less xs) h in (p, All-sort_by_inv xs rest)

pub All-lookup :
    {V : Type 0} (P : Text → Type 0) (m : Map V) (k : Text) (v : V)
    → All P (keys m)
    → lookup k m ≡ some v
    → P k
unfolding lookup
All-lookup P [] k v h e = absurd (ground arith)
All-lookup P ((j, w) ∷ m) k v (p, h) e = elim (Bool-cases (text_eq j k)) [
  | inl same ↦ subst P ((text_eq_iff j k).0 same) p
  | inr other ↦ All-lookup P m k v h (ground arith)
]

-- The result lists the tags of each repository that are planned for it.
module _ (env : Env) (file_tags : Text → List Text) (sc : Scanned) where
  abbrev pub IsListing : Planned → Type 0
  IsListing p = (repo : Text) → tags_of p.repositories repo ≡ get_or (lookup repo p.purge_tags) []

  plan_repo-IsListing :
      (repo : Text) (p : Planned) → IsListing p → IsListing (plan_repo env file_tags sc repo p)
  unfolding plan_repo
  plan_repo-IsListing repo p h j = elim (Bool-cases (text_eq repo j)) [
    | inl e ↦
        ap listed_in (lookup-insert_same repo j _ p.repositories e)
        ∙ sym (ap (λ o. get_or o []) (lookup-insert_same repo j _ p.purge_tags e))
    | inr e ↦
        ap listed_in (lookup-insert_other repo j _ p.repositories e)
        ∙ (h j ∙ sym (ap (λ o. get_or o []) (lookup-insert_other repo j _ p.purge_tags e)))
  ]

  plan_repos-IsListing :
      (repos : List Text) (p : Planned)
      → IsListing p
      → IsListing (plan_repos env file_tags sc repos p)
  unfolding plan_repos
  plan_repos-IsListing [] p h = h
  plan_repos-IsListing (repo ∷ repos) p h =
      plan_repos-IsListing repos _ (plan_repo-IsListing repo p h)

  pub plan-IsListing : IsListing (plan env file_tags sc)
  unfolding plan lookup
  plan-IsListing = plan_repos-IsListing (sorted_map_keys sc.repos) nothing_planned (λ repo. refl)
