-- ===== src/Purge/Counts.antt =====
-- registry/tasks.go: the counters of a run agree with one another and with what was done.
use Prim.Native.Nat.{ℕ, ◌+◌, ◌≤◌}
use mathlib.Core.Path.{◌≡◌, refl, sym, ◌∙◌}
use mathlib.Core.Bool.{true, false}
use mathlib.Core.Option.{Option, none, some}
use mathlib.Core.List.{List, [], ◌∷◌, ◌++◌}
use native.Mathlib.Omega.{arith}
use registry_ui.Base.Lists.{length, length-append, sum_by}
use registry_ui.Base.Text.{Text}
use registry_ui.Base.Map.{Map, lookup, insert, get_or}
use registry_ui.Base.Map.Totals.{total, measure, total-insert}
use registry_ui.Purge.{PurgeClient, PurgeRunResult, PurgeRepoResult}
use registry_ui.Purge.Delete.{
  delete_error, tally, tally_repo, no_repo_result, delete_tags, delete_repo, delete_repos,
}

abbrev pub candidate_count : PurgeRepoResult → ℕ
candidate_count rr = rr.candidate_tag_count

abbrev pub deleted_count : PurgeRepoResult → ℕ
deleted_count rr = rr.deleted_tag_count

-- The totals are the sums over the repositories, and a run is successful exactly when it has met
-- no error.
pub record IsBalanced (r : PurgeRunResult) : Type 0 where
  pub candidates : r.candidate_tag_count ≡ total candidate_count r.repositories
  pub deleted : r.deleted_tag_count ≡ total deleted_count r.repositories
  pub no_error : r.success ≡ true → length r.errors ≡ 0
  pub some_error : r.success ≡ false → 1 ≤ length r.errors

module _ {S : Type 0} (c : PurgeClient S) where
  -- What one repository's deletions leave behind: a count or an error for each tag.
  pub record IsTallied (tags : List Text) (r r' : PurgeRunResult) (rr rr' : PurgeRepoResult)
      : Type 0 where
    pub same_repositories : r'.repositories ≡ r.repositories
    pub same_candidates : r'.candidate_tag_count ≡ r.candidate_tag_count
    pub same_repo_candidates : rr'.candidate_tag_count ≡ rr.candidate_tag_count
    pub both_counted :
        r'.deleted_tag_count + rr.deleted_tag_count ≡ r.deleted_tag_count + rr'.deleted_tag_count
    pub each_counted :
        r'.deleted_tag_count + length r'.errors
        ≡ r.deleted_tag_count + length r.errors + length tags
    pub errors_grow : length r.errors ≤ length r'.errors
    pub no_error :
        (r.success ≡ true → length r.errors ≡ 0) → r'.success ≡ true → length r'.errors ≡ 0
    pub some_error :
        (r.success ≡ false → 1 ≤ length r.errors) → r'.success ≡ false → 1 ≤ length r'.errors

  tally-IsTallied :
      (repo tag : Text) (e : Option Text) (r : PurgeRunResult) (rr : PurgeRepoResult)
      → IsTallied (tag ∷ []) r (tally repo tag e r) rr (tally_repo e rr)
  unfolding tally tally_repo
  tally-IsTallied repo tag none r rr = ground arith
  tally-IsTallied repo tag (some e) r rr =
      ground (arith, length-append r.errors (delete_error repo tag e ∷ []))

  IsTallied-trans :
      {xs ys : List Text} {r r' r'' : PurgeRunResult} {rr rr' rr'' : PurgeRepoResult}
      → IsTallied xs r r' rr rr'
      → IsTallied ys r' r'' rr' rr''
      → IsTallied (xs ++ ys) r r'' rr rr''
  IsTallied-trans {xs} {ys} p q = record {
    same_repositories = q.same_repositories ∙ p.same_repositories;
    same_candidates = omega arith;
    same_repo_candidates = omega arith;
    both_counted = omega arith;
    each_counted = omega (arith, length-append xs ys);
    errors_grow = omega arith;
    no_error = λ h. q.no_error (p.no_error h);
    some_error = λ h. q.some_error (p.some_error h);
  }

  -- Every tag of the list is tried once, whatever the client answers.
  pub delete_tags-IsTallied :
      (repo : Text) (tags : List Text) (r : PurgeRunResult) (rr : PurgeRepoResult) (s : S)
      → IsTallied tags r (delete_tags c repo tags r rr s).0 rr (delete_tags c repo tags r rr s).1
  unfolding delete_tags
  delete_tags-IsTallied repo [] r rr s = record {
    same_repositories = refl;
    same_candidates = refl;
    same_repo_candidates = refl;
    both_counted = refl;
    each_counted = omega arith;
    errors_grow = omega arith;
    no_error = λ h. h;
    some_error = λ h. h;
  }
  delete_tags-IsTallied repo (tag ∷ tags) r rr s =
      let (e, s') = c.delete_tag repo tag s in
      IsTallied-trans (tally-IsTallied repo tag e r rr)
        (delete_tags-IsTallied repo tags (tally repo tag e r) (tally_repo e rr) s')

  -- What a list of repositories adds to the result; `m` holds the tags planned for each.
  pub record IsProgress (n : ℕ) (r r' : PurgeRunResult) : Type 0 where
    pub same_candidates : r'.candidate_tag_count ≡ r.candidate_tag_count
    pub balanced : IsBalanced r → IsBalanced r'
    pub each_counted :
        r'.deleted_tag_count + length r'.errors ≡ r.deleted_tag_count + length r.errors + n
    pub errors_grow : length r.errors ≤ length r'.errors

  measure-get_or :
      (f : PurgeRepoResult → ℕ) (o : Option PurgeRepoResult)
      → f no_repo_result ≡ 0
      → measure f o ≡ f (get_or o no_repo_result)
  measure-get_or f none h = sym h
  measure-get_or f (some rr) h = refl

  -- Storing the repository's result keeps the sums.
  store-IsBalanced :
      (repo : Text) (tags : List Text) (r r' : PurgeRunResult) (rr' : PurgeRepoResult)
      → IsTallied tags r r' (get_or (lookup repo r.repositories) no_repo_result) rr'
      → IsBalanced r
      → IsBalanced (record r' { repositories = insert repo rr' r'.repositories })
  store-IsBalanced repo tags r r' rr' t b =
      let old = lookup repo r.repositories in
      record {
        candidates = rw t.same_repositories (
            omega (
              arith,
              b.candidates,
              t.same_candidates,
              t.same_repo_candidates,
              total-insert candidate_count repo rr' r.repositories,
              measure-get_or candidate_count old refl,
            ));
        deleted = rw t.same_repositories (
            omega (
              arith,
              b.deleted,
              t.both_counted,
              total-insert deleted_count repo rr' r.repositories,
              measure-get_or deleted_count old refl,
            ));
        no_error = t.no_error b.no_error;
        some_error = t.some_error b.some_error;
      }

  delete_repo-IsProgress :
      (repo : Text) (tags : List Text) (r : PurgeRunResult) (s : S)
      → IsProgress (length tags) r (delete_repo c false repo tags r s).0
  unfolding delete_repo
  delete_repo-IsProgress repo [] r s = record {
    same_candidates = refl;
    balanced = λ h. h;
    each_counted = omega arith;
    errors_grow = omega arith;
  }
  delete_repo-IsProgress repo (tag ∷ tags) r s =
      let rr = get_or (lookup repo r.repositories) no_repo_result in
      let (r', rr', s') = delete_tags c repo (tag ∷ tags) r rr s in
      let t = delete_tags-IsTallied repo (tag ∷ tags) r rr s in
      record {
        same_candidates = t.same_candidates;
        balanced = store-IsBalanced repo (tag ∷ tags) r r' rr' t;
        each_counted = t.each_counted;
        errors_grow = t.errors_grow;
      }

  pub delete_repos-IsProgress :
      (m : Map (List Text)) (repos : List Text) (r : PurgeRunResult) (s : S)
      → IsProgress
          (sum_by (λ repo. measure length (lookup repo m)) repos)
          r
          (delete_repos c false m repos r s).0
  unfolding delete_repos
  delete_repos-IsProgress m [] r s = record {
    same_candidates = refl;
    balanced = λ h. h;
    each_counted = omega arith;
    errors_grow = omega arith;
  }
  delete_repos-IsProgress m (repo ∷ repos) r s =
      let tags = get_or (lookup repo m) [] in
      let (r', s') = delete_repo c false repo tags r s in
      let p = delete_repo-IsProgress repo tags r s in
      let q = delete_repos-IsProgress m repos r' s' in
      record {
        same_candidates = q.same_candidates ∙ p.same_candidates;
        balanced = λ b. q.balanced (p.balanced b);
        each_counted =
            omega (arith, p.each_counted, q.each_counted, measure_length (lookup repo m));
        errors_grow = omega (arith, p.errors_grow, q.errors_grow);
      }
    where
      measure_length : (o : Option (List Text)) → measure length o ≡ length (get_or o [])
      measure_length none = refl
      measure_length (some l) = refl
