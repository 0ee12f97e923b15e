-- ===== src/Client/Tests.antt =====
-- Runs of the client on a small registry, and each theorem about it at a concrete input.
use Prim.Native.Nat.{◌≤◌, min}
use mathlib.Core.Path.{◌≡◌, refl}
use mathlib.Core.Logic.{◌↔◌, ◌≢◌}
use mathlib.Core.Bool.{true, false}
use mathlib.Core.Option.{none, some}
use mathlib.Core.List.{List, [], ◌∷◌, ◌++◌, Mem, Perm}
use registry_ui.Base.Tests.{if◌then◌else◌}
use registry_ui.Base.Lists.{length, sum_by, All}
use registry_ui.Base.Int.{pos}
use registry_ui.Base.Text.{Text, codes, text_eq, has_prefix}
use registry_ui.Base.Map.{Map, lookup, insert, get_or}
use registry_ui.Image.{ok, err, ImageInfo}
use registry_ui.Client.{JobInfo, Client, ClientConfig, Remote, Descriptor, ImageHandle}
use registry_ui.Client.Cache.{
  refresh_catalog, fetch_and_cache_tags_for_repo, list_tags, refresh_tags, is_online, tags_or_none,
  store_repos, page_repos, show_pages,
}
use registry_ui.Client.Caching.{list_tags_cached}
use registry_ui.Client.Agreement.{get_image_created_agrees}
use registry_ui.Client.Inspect.{
  get_image_info, index_details, get_image_created, image_details, image_id, described,
  get_platform, created_of,
}
use registry_ui.Client.Delete.{delete_tag, purge_client, uncache_tag, store_updated, without_tag}
use registry_ui.Client.Counts.{
  RepoTagCount, get_total_tag_count, get_top_repos_by_tag_count, repo_tag_counts, sub_repo_of,
  sub_repo_tag_counts,
}
use registry_ui.Client.Deletion.{entry_deleted, delete_tag-lookup, delete_tag-mem}
use registry_ui.Client.Digest.{delete_tag-digest}
use registry_ui.Client.Totals.{IsDescending, get_top-IsTop}
use registry_ui.Client.Start.{
  LoginConfig, user_password, choose_credentials, left, background_round,
}
use registry_ui.Client.History.{new_client, Moves, here, onward, list, delete}
use registry_ui.Client.SubRepos.{tags_below, sub_repo_tag_counts-lookup}

-- Everything that the runs compute with.
client_run : Unit {0}
unfolding refresh_catalog list_tags fetch_and_cache_tags_for_repo delete_tag get_image_info
    get_image_created get_total_tag_count get_top_repos_by_tag_count sub_repo_tag_counts lookup
    insert text_eq has_prefix is_online tags_or_none uncache_tag store_updated without_tag
    store_repos page_repos show_pages image_details image_id described get_platform created_of
client_run = tt

abbrev image_v1 : ImageHandle
image_v1 = record {
  config_name = codes "sha256:0123456789abcdef";
  config_file =
      ok (record { created = 5; platform = some (codes "linux/amd64"); json = codes "{}" });
  manifest = record { layers = 10 ∷ 20 ∷ []; annotations = none; json = codes "{}" };
}

abbrev descriptor : Descriptor
descriptor = record {
  digest = codes "sha256:aa";
  media_type = codes "image";
  is_index = false;
  is_image = true;
  image = ok image_v1;
  image_index = err [];
}

-- A registry with one repository, whose state is the list of what was deleted.
abbrev registry : Remote (List Text)
registry = record {
  catalogger = λ s. (ok (some (codes "app" ∷ []) ∷ none ∷ []), s);
  new_repository = λ r. ok r;
  list = λ repo s. (ok (codes "v1" ∷ codes "v2" ∷ []), s);
  parse_reference = λ r. ok (record { repository_str = codes "app"; identifier = r });
  get = λ ref s. (ok descriptor, s);
  delete = λ ref s. (none, ref.identifier ∷ s);
  parse_time = λ t. none;
}

abbrev config : ClientConfig
config = record {
  hostname = codes "hub";
  tags_online_refresh_max_count = pos 5;
  tags_async_refresh_interval = pos 60;
}

abbrev two_repos : Map (List Text)
two_repos = (codes "app", codes "v1" ∷ codes "v3" ∷ []) ∷ (codes "app/web", codes "w" ∷ []) ∷ []

abbrev client : Client
client = record {
  repos = codes "old" ∷ [];
  tags_cache = two_repos;
  is_catalog_ready = true;
  catalog_job_info = record { last_run = 0; duration = 0 };
  tags_job_info = record { last_run = 0; duration = 0 };
}

abbrev job : JobInfo
job = record { last_run = 9; duration = 1 }

abbrev listed : Client
listed = record client {
  tags_cache = (codes "app", codes "v1" ∷ codes "v2" ∷ []) ∷ (codes "app/web", codes "w" ∷ []) ∷ [];
}

-- The deletion goes by the digest, and the cache loses the tag.
deletes_v1 : delete_tag registry config (codes "app") (codes "v1") (client, []) ≡ (
  none,
  (
    record client {
      tags_cache = (codes "app", codes "v3" ∷ []) ∷ (codes "app/web", codes "w" ∷ []) ∷ [];
    },
    codes "hub/app@sha256:aa" ∷ [],
  ),
)
unfolding client_run
deletes_v1 = refl

-- A cached repository with few tags is read again.
lists_app :
    list_tags registry config (codes "app") (client, [])
    ≡ ((codes "v1" ∷ codes "v2" ∷ [], true), (listed, []))
unfolding client_run
lists_app = refl

list_tags_cached_example :
    lookup (codes "app") listed.tags_cache ≡ some (codes "v1" ∷ codes "v2" ∷ [])
list_tags_cached_example =
    list_tags_cached registry config (codes "app") client [] (codes "v1" ∷ codes "v2" ∷ [])
      (listed, []) lists_app

-- One round of the background job.
refreshes_tags :
    (refresh_tags registry config job (client, [])).0.tags_cache
    ≡ two_repos ++ (codes "old", codes "v1" ∷ codes "v2" ∷ []) ∷ []
unfolding client_run refresh_tags
refreshes_tags = refl

-- The fields of an image.
v1_info :
    (ii : ImageInfo) × ((get_image_info registry config (codes "app:v1") []).0 ≡ some (ok ii))
    × (ii.image_size ≡ 30)
    × (ii.config_image_id ≡ codes "0123456789ab")
unfolding client_run
v1_info = (_, refl, refl, refl)

-- The purge's client passes the catalog on.
purge_repos :
    (w : Client × List Text) × ((purge_client registry config job).refresh_catalog (client, [])
      ≡ some w)
    × ((purge_client registry config job).get_repos w ≡ codes "app" ∷ [])
unfolding client_run purge_client
purge_repos = (_, refl, refl)

delete_tag-lookup_example :
    lookup
      (codes "app/web")
      (delete_tag registry config (codes "app") (codes "v1") (client, [])).1.0.tags_cache
    ≡ entry_deleted
        (codes "app")
        (codes "v1")
        (codes "app/web")
        (delete_tag registry config (codes "app") (codes "v1") (client, [])).0
        client
delete_tag-lookup_example =
    delete_tag-lookup registry config (codes "app") (codes "v1") (codes "app/web") client []

app_cached : lookup (codes "app") two_repos ≡ some (codes "v1" ∷ codes "v3" ∷ [])
unfolding client_run
app_cached = refl

deleted_v1 : (delete_tag registry config (codes "app") (codes "v1") (client, [])).0 ≡ none
unfolding client_run
deleted_v1 = refl

delete_tag-mem_example :
    (rest : List Text) × (lookup
        (codes "app")
        (delete_tag registry config (codes "app") (codes "v1") (client, [])).1.0.tags_cache
      ≡ some rest)
    × ((x : Text) → Mem x rest ↔ (Mem x (codes "v1" ∷ codes "v3" ∷ []) × (x ≢ codes "v1")))
delete_tag-mem_example =
    delete_tag-mem registry config (codes "app") (codes "v1") (codes "v1" ∷ codes "v3" ∷ []) client
      [] app_cached deleted_v1

-- A listing, a deletion, and a second listing.
used_reached :
    Moves registry config
      (new_client, [])
      (list_tags registry config
        (codes "app")
        (delete_tag registry config
          (codes "app")
          (codes "v1")
          (list_tags registry config (codes "app") (new_client, [])).1).1).1
used_reached =
    onward (onward (onward here (list (codes "app"))) (delete (codes "app") (codes "v1")))
      (list (codes "app"))

get_top-IsTop_example :
    (length (get_top_repos_by_tag_count 1 two_repos) ≡ min 1 (length two_repos))
    × IsDescending (get_top_repos_by_tag_count 1 two_repos)
    × (rest : List RepoTagCount) × Perm
        (get_top_repos_by_tag_count 1 two_repos ++ rest)
        (repo_tag_counts two_repos)
    × All
        (λ (x : RepoTagCount). All (λ (y : RepoTagCount). y.count ≤ x.count) rest)
        (get_top_repos_by_tag_count 1 two_repos)
get_top-IsTop_example = get_top-IsTop 1 two_repos

sub_repo_tag_counts-lookup_example :
    get_or (lookup (codes "app") (sub_repo_tag_counts [] (codes "app" ∷ []) two_repos)) 0
    ≡ sum_by
        (λ r.
          if text_eq (sub_repo_of [] r) (codes "app")
          then tags_below (codes "app") two_repos
          else 0)
        (codes "app" ∷ [])
sub_repo_tag_counts-lookup_example =
    sub_repo_tag_counts-lookup [] (codes "app") (codes "app" ∷ []) two_repos

abbrev app_v1 : ImageInfo
app_v1 = record {
  is_image_index = false;
  is_image = true;
  image_ref_repo = codes "app";
  image_ref_tag = codes "hub/app:v1";
  image_ref_digest = codes "sha256:aa";
  media_type = codes "image";
  platforms = codes "linux/amd64";
  manifest = some (codes "{}");
  image_size = 30;
  created = 5;
  config_image_id = codes "0123456789ab";
  config_file = some (codes "{}");
}

app_v1_read : (get_image_info registry config (codes "app:v1") []).0 ≡ some (ok app_v1)
unfolding client_run
app_v1_read = refl

get_image_created_agrees_example :
    (get_image_created registry config (codes "app:v1") []).0 ≡ app_v1.created
get_image_created_agrees_example =
    get_image_created_agrees registry config (codes "app:v1") [] app_v1 app_v1_read refl

-- An index whose manifest does not parse.
panics_on_index :
    (get_image_info
      (record registry {
        get = λ ref s. (ok (record descriptor { is_index = true; image_index = ok none }), s);
      })
      config
      (codes "app:v1")
      []).0
    ≡ none
unfolding client_run index_details
panics_on_index = refl

abbrev login : Text → LoginConfig
login password = record {
  auth_with_keychain = false;
  username = codes "user";
  password = password;
  password_file = codes "/run/secrets/password";
}

-- Without a password the file is read, less the newline at its end; a missing file is a panic.
password_from_file :
    choose_credentials (login []) (λ path. some (codes "pass\n"))
    ≡ some (user_password (codes "user") (codes "pass"))
unfolding choose_credentials
password_from_file = refl

password_missing : choose_credentials (login []) (λ path. none) ≡ none
unfolding choose_credentials
password_missing = refl

-- With the interval 0 the loop is left behind its first round, and the tags are refreshed all the same.
one_round :
    (w : Client × List Text) × (background_round registry (pos 0) (pos 60) job false (client, [])
      ≡ left true w)
unfolding client_run background_round
one_round = (_, refl)

delete_tag-digest_example :
    ((delete_tag registry config (codes "app") (codes "v1") (client, [])).0
      ≡ (delete_tag registry config (codes "app") (codes "latest") (client, [])).0)
    × ((delete_tag registry config (codes "app") (codes "v1") (client, [])).1.1
        ≡ (delete_tag registry config (codes "app") (codes "latest") (client, [])).1.1)
delete_tag-digest_example =
    delete_tag-digest registry config (codes "app") (codes "v1") (codes "latest")
      (record { repository_str = codes "app"; identifier = codes "hub/app:v1" })
      (record { repository_str = codes "app"; identifier = codes "hub/app:latest" }) descriptor
      descriptor client [] [] refl refl refl refl refl refl
