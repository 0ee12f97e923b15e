-- ===== src/Main/Tests.antt =====
-- Runs of the start-up.
use mathlib.Core.Path.{◌≡◌, refl, ap}
use mathlib.Core.Logic.{◌≢◌}
use mathlib.Core.Option.{none, some}
use mathlib.Core.List.{List, [], ◌∷◌, ◌++◌, reverse}
use mathlib.Core.Bool.{true, false}
use native.Mathlib.Omega.{arith}
use registry_ui.Base.Int.{pos}
use registry_ui.Base.Text.{Text, codes, text_eq, has_prefix, fields, split, split_onto, contains}
use registry_ui.Common.{item_in_slice}
use registry_ui.Image.{ok, err}
use registry_ui.Client.{Client, ClientConfig, Remote, Descriptor}
use registry_ui.Client.Delete.{delete_tag}
use registry_ui.Client.History.{new_client}
use registry_ui.Auth.{
  AuthConfig, trim_right_slashes, is_skipped, session_parts, split_colon, get_session_username,
  auth_middleware, drop_slashes,
}
use registry_ui.Scheduler.{field_count, parse_cron_schedule}
use registry_ui.Scheduler.Timer.{start_purge_scheduler}
use registry_ui.Events.Handler.{new_event_listener}
use registry_ui.Web.{WebConfig, trim_slashes, set_user_permissions, delete_tag_page}
use registry_ui.Base.Splitting.{first_part, last_part}
use registry_ui.Main.Flags.{default_flags, config_name, file_base, env_key, config_name_lem}
use registry_ui.Main.Deletion.{guarded_delete_tag, IsByAdmin, guarded_delete_tag-IsByAdmin}
use registry_ui.Main.{normalize_base_path, Startup, no_listener, invalid_cron, start}

-- A base path is brought to one form here, and only its right end is trimmed in the login.
normalize_ui : normalize_base_path (codes "ui/") ≡ codes "/ui"
unfolding normalize_base_path trim_slashes trim_right_slashes
normalize_ui = refl

trim_right_ui : trim_right_slashes (codes "ui/") ≡ codes "ui"
unfolding trim_right_slashes
trim_right_ui = refl

normalize_root : normalize_base_path (codes "/") ≡ []
unfolding normalize_base_path trim_slashes trim_right_slashes
normalize_root = refl

abbrev config : Text → Text → Startup
config driver cron = record {
  purge_tags = false;
  database_driver = driver;
  database_location = codes "data/registry_events.db";
  retention_days = pos 7;
  deletion_enabled = true;
  cron = cron;
  uri_base_path = codes "/";
}

start_postgres : start (config (codes "postgres") []) ≡ no_listener
unfolding start new_event_listener text_eq
start_postgres = refl

start_bad_cron : start (config (codes "sqlite3") (codes "hourly")) ≡ invalid_cron (field_count 1)
unfolding start new_event_listener text_eq start_purge_scheduler parse_cron_schedule fields
start_bad_cron = refl

-- A registry in which every image can be deleted.
abbrev descriptor : Descriptor
descriptor = record {
  digest = codes "sha256:aa";
  media_type = [];
  is_index = false;
  is_image = false;
  image = err [];
  image_index = err [];
}

abbrev registry : Remote (List Text)
registry = record {
  catalogger = λ s. (err [], s);
  new_repository = λ r. err [];
  list = λ repo s. (err [], s);
  parse_reference = λ r. ok (record { repository_str = codes "app"; identifier = r });
  get = λ ref s. (ok descriptor, s);
  delete = λ ref s. (none, ref.identifier ∷ s);
  parse_time = λ t. none;
}

abbrev client_config : ClientConfig
client_config = record {
  hostname = codes "hub";
  tags_online_refresh_max_count = pos 0;
  tags_async_refresh_interval = pos 60;
}

abbrev web : WebConfig
web = record {
  admins = codes "root" ∷ [];
  anyone_can_view_events = false;
  anyone_can_delete_tags = false;
  uri_base_path = codes "/ui/";
}

-- A stand-in for the HMAC, for the runs.
abbrev toy_hmac : Text → Text → Text
toy_hmac secret username = reverse (secret ++ username)

abbrev auth : AuthConfig
auth = record {
  enabled = true;
  max_attempts = pos 5;
  lockout_minutes = pos 15;
  username = codes "root";
  password = codes "pw";
  secret = codes "s";
  uri_base_path = codes "/ui/";
}

deletion_run : Unit {0}
unfolding guarded_delete_tag delete_tag_page delete_tag set_user_permissions item_in_slice
    auth_middleware is_skipped get_session_username session_parts split_colon trim_right_slashes
    normalize_base_path trim_slashes text_eq has_prefix
deletion_run = tt

-- The registry behind a request with the cookie of a login, and behind one with a forged header.
by_root :
    (guarded_delete_tag toy_hmac auth registry client_config web
      (some (codes "root:toors"))
      []
      (codes "app")
      (codes "v1")
      (new_client, [])).1.1
    ≡ codes "hub/app@sha256:aa" ∷ []
unfolding deletion_run
by_root = refl

by_header :
    guarded_delete_tag toy_hmac auth registry client_config web none
      (codes "root")
      (codes "app")
      (codes "v1")
      (new_client, [])
    ≡ (codes "/ui/login", (new_client, []))
unfolding deletion_run
by_header = refl

normal_ui : normalize_base_path auth.uri_base_path ≡ trim_right_slashes auth.uri_base_path
unfolding normalize_base_path trim_slashes trim_right_slashes
normal_ui = refl

root_changes :
    (guarded_delete_tag toy_hmac auth registry client_config web
      (some (codes "root:toors"))
      []
      (codes "app")
      (codes "v1")
      (new_client, [])).1
    ≢ (new_client, [])
root_changes h = absurd (ground (arith, by_root, ap (λ (w : Client × List Text). w.1) h))

guarded_delete_tag-IsByAdmin_example :
    IsByAdmin toy_hmac auth registry client_config web (some (codes "root:toors"))
guarded_delete_tag-IsByAdmin_example =
    guarded_delete_tag-IsByAdmin toy_hmac auth registry client_config web
      (some (codes "root:toors")) [] (codes "app") (codes "v1") (new_client, []) refl normal_ui refl
      root_changes

flags_run : Unit {0}
unfolding config_name file_base trim_right_slashes drop_slashes split split_onto first_part
    last_part env_key
flags_run = tt

default_name : config_name default_flags.config_file ≡ codes "config"
unfolding flags_run
default_name = refl

-- The file that the flag names is not the one that is looked for.
production_name : config_name (codes "/etc/ui/app.prod.yml") ≡ codes "app"
unfolding flags_run
production_name = refl

bare_slash : file_base (codes "//") ≡ codes "/"
unfolding flags_run
bare_slash = refl

secret_key : env_key (codes "auth.secret") ≡ codes "auth_secret"
unfolding flags_run
secret_key = refl

config_name_lem_example :
    config_name (codes "/etc/ui" ++ b'/' ∷ (codes "app" ++ b'.' ∷ codes "prod.yml")) ≡ codes "app"
unfolding contains
config_name_lem_example =
    config_name_lem (codes "/etc/ui") (codes "app") (codes "prod.yml") refl refl refl
