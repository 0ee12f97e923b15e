-- ===== src/Purge/Calls.antt =====
-- registry/tasks.go: which calls of `DeleteTag` a run makes, and what becomes of each in its result.
use Prim.Native.Nat.{ℕ, ◌+◌}
use mathlib.Core.Path.{◌≡◌, refl, sym, ap, ◌∙◌}
use mathlib.Core.Bool.{Bool, true, false, ◌&&◌, ◌||◌}
use mathlib.Core.Option.{Option, none, some}
use mathlib.Core.List.{List, [], ◌∷◌, ◌++◌, Mem, mem-cons_self, mem-append_left, mem-append_right}
use native.Mathlib.Omega.{arith}
use registry_ui.Base.Lists.{length, sum_by, All, All-imp}
use registry_ui.Base.Text.{Text, text_eq}
use registry_ui.Base.TextLaws.{text_eq_refl}
use registry_ui.Base.Map.{Map, lookup, get_or}
use registry_ui.Purge.{PurgeClient, PurgeRepoResult, PurgeRunResult}
use registry_ui.Purge.Delete.{delete_error, tally, no_repo_result}

-- A call of `DeleteTag`, and the error that it returned.
pub record Deletion : Type 0 where
  pub repo : Text
  pub tag : Text
  pub error : Option Text

abbrev pub noted : {S : Type 0} → Option S → List Deletion → Option (S × List Deletion)
noted none calls = none
noted (some s) calls = some (s, calls)

-- A client that notes its deletions, the last one first.
abbrev pub noting : {S : Type 0} → PurgeClient S → PurgeClient (S × List Deletion)
noting c = record {
  refresh_catalog = λ w. noted (c.refresh_catalog w.0) w.1;
  get_repos = λ w. c.get_repos w.0;
  fetch_and_cache_tags_for_repo =
      λ repo w. let (tags, s) = c.fetch_and_cache_tags_for_repo repo w.0 in (tags, (s, w.1));
  get_image_info = λ ref w. let (info, s) = c.get_image_info ref w.0 in (info, (s, w.1));
  delete_tag = λ repo tag w.
      let (e, s) = c.delete_tag repo tag w.0 in
      (e, (s, (record { repo = repo; tag = tag; error = e }) ∷ w.1));
}

abbrev succeeded : Option Text → ℕ
succeeded none = 1
succeeded (some e) = 0

-- How many of the calls returned no error.
abbrev pub successes : List Deletion → ℕ
successes = sum_by (λ d. succeeded d.error)

-- There has been a call for the tag of the repository.
abbrev pub is_tried : Text → Text → List Deletion → Bool
is_tried repo tag [] = false
is_tried repo tag (d ∷ calls) =
    (text_eq d.repo repo && text_eq d.tag tag) || is_tried repo tag calls

-- The error of a call is among the errors.
abbrev pub IsListed : List Text → Deletion → Type 0
IsListed errors d = (e : Text) → d.error ≡ some e → Mem (delete_error d.repo d.tag e) errors

-- The tags that a result lists for a repository.
abbrev pub tags_of : Map PurgeRepoResult → Text → List Text
tags_of m repo = (get_or (lookup repo m) no_repo_result).tags

-- What `n` further calls change.
pub record IsTried (n : ℕ) (r r' : PurgeRunResult) (calls calls' : List Deletion) : Type 0 where
  pub count : length calls' ≡ length calls + n
  pub deleted : successes calls' + r.deleted_tag_count ≡ successes calls + r'.deleted_tag_count
  pub listed : All (IsListed r.errors) calls → All (IsListed r'.errors) calls'
  pub still : (repo tag : Text) → is_tried repo tag calls ≡ true → is_tried repo tag calls' ≡ true
  pub same_tags : (repo : Text) → tags_of r'.repositories repo ≡ tags_of r.repositories repo

pub IsTried-refl : (r : PurgeRunResult) (calls : List Deletion) → IsTried 0 r r calls calls
IsTried-refl r calls = record {
  count = omega arith;
  deleted = refl;
  listed = λ h. h;
  still = λ repo tag h. h;
  same_tags = λ repo. refl;
}

pub IsTried-trans :
    {n m k : ℕ} {r r' r'' : PurgeRunResult} {calls calls' calls'' : List Deletion}
    → IsTried n r r' calls calls'
    → IsTried m r' r'' calls' calls''
    → k ≡ n + m
    → IsTried k r r'' calls calls''
IsTried-trans p q e = record {
  count = omega (arith, p.count, q.count, e);
  deleted = omega (arith, p.deleted, q.deleted);
  listed = λ h. q.listed (p.listed h);
  still = λ repo tag h. q.still repo tag (p.still repo tag h);
  same_tags = λ repo. q.same_tags repo ∙ p.same_tags repo;
}

pub tally-IsTried :
    (repo tag : Text) (e : Option Text) (r : PurgeRunResult) (calls : List Deletion)
    → IsTried 1 r
        (tally repo tag e r)
        calls
        ((record { repo = repo; tag = tag; error = e }) ∷ calls)
unfolding tally
tally-IsTried repo tag none r calls = record {
  count = omega arith;
  deleted = omega arith;
  listed = λ h. ((λ e q. absurd (ground arith)), h);
  still = λ j t h. ground arith;
  same_tags = λ j. refl;
}
tally-IsTried repo tag (some e) r calls = record {
  count = omega arith;
  deleted = omega arith;
  listed = λ h. (
    (λ x q.
        mem-append_right r.errors
          (rw (ap (λ o. get_or o e) (sym q)) (mem-cons_self {a = delete_error repo tag e}))),
    All-imp (IsListed r.errors) (IsListed (r.errors ++ delete_error repo tag e ∷ []))
        (λ d k x q. mem-append_left (delete_error repo tag e ∷ []) (k x q)) calls h,
  );
  still = λ j t h. ground arith;
  same_tags = λ j. refl;
}

pub is_tried_self :
    (repo tag : Text) (e : Option Text) (calls : List Deletion)
    → is_tried repo tag ((record { repo = repo; tag = tag; error = e }) ∷ calls) ≡ true
is_tried_self repo tag e calls = rw (text_eq_refl repo, text_eq_refl tag) refl
