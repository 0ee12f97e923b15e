-- ===== src/Purge/Plan.antt =====
-- registry/tasks.go: the loop that turns the scanned tags into the tags to purge.
use Prim.Native.Nat.{ℕ, ◌+◌}
use mathlib.Core.List.{List, [], ◌∷◌}
use registry_ui.Base.Lists.{length}
use registry_ui.Base.Text.{Text}
use registry_ui.Base.Map.{Map, lookup, insert, get_or}
use registry_ui.Common.{sorted_map_keys}
use registry_ui.Image.{add64}
use registry_ui.Purge.{PurgeRepoResult, Env}
use registry_ui.Purge.Select.{select_tags}
use registry_ui.Purge.Scan.{Scanned, image_ref}

-- The variables of the loop. Each repository is met once, so `purgeTags[repo]` and
-- `purgeSizeByRepo[repo]` start empty; to the loops a missing list and an empty one are the same.
pub record Planned : Type 0 where
  pub purge_tags : Map (List Text)
  pub keep_tags : Map (List Text)
  pub total_candidates : ℕ
  pub repositories : Map PurgeRepoResult

abbrev pub nothing_planned : Planned
nothing_planned = record {
  purge_tags = [];
  keep_tags = [];
  total_candidates = 0;
  repositories = [];
}

-- `purgeSizeByRepo[repo]`, summed in int64.
unfoldable pub purge_size : Map ℕ → Text → List Text → ℕ → ℕ
purge_size sizes repo [] size = size
purge_size sizes repo (tag ∷ tags) size =
    purge_size sizes repo tags (add64 size (get_or (lookup (image_ref repo tag) sizes) 0))

module _ (env : Env) (file_tags : Text → List Text) (sc : Scanned) where
  unfoldable pub plan_repo : Text → Planned → Planned
  plan_repo repo p =
      let (keep, purge) = select_tags env (file_tags repo) (get_or (lookup repo sc.repos) []) in
      record {
        purge_tags = insert repo purge p.purge_tags;
        keep_tags = insert repo keep p.keep_tags;
        total_candidates = p.total_candidates + length purge;
        repositories =
            insert repo
              (record {
                candidate_tag_count = length purge;
                deleted_tag_count = 0;
                estimated_freed_bytes = purge_size sc.image_sizes repo purge 0;
                tags = purge;
              })
              p.repositories;
      }

  unfoldable pub plan_repos : List Text → Planned → Planned
  plan_repos [] p = p
  plan_repos (repo ∷ repos) p = plan_repos repos (plan_repo repo p)

  unfoldable pub plan : Planned
  unfolding plan_repos plan_repo
  plan = plan_repos (sorted_map_keys sc.repos) nothing_planned
