-- ===== src/Main/Serving/Example.antt =====
-- A small registry with a running program in front of it, for the tests.
use Prim.Native.Nat.{ℕ, ◌+◌, ◌*◌}
use mathlib.Core.Path.{◌≡◌, refl}
use mathlib.Core.Bool.{Bool, true, false}
use mathlib.Core.Option.{none, some}
use mathlib.Core.List.{List, [], ◌∷◌, ◌++◌, reverse}
use native.Mathlib.Omega.{arith}
use registry_ui.Auth.{trim_right_slashes}
use registry_ui.Web.{trim_slashes}
use registry_ui.Main.{normalize_base_path}
use registry_ui.Base.Tests.{if◌then◌else◌}
use registry_ui.Base.Lists.{drop}
use registry_ui.Base.Int.{pos}
use registry_ui.Base.Text.{Text, codes, text_eq}
use registry_ui.Image.{ok, err}
use registry_ui.Client.{Remote, Descriptor}
use registry_ui.Client.History.{new_client}
use registry_ui.Events.Memory.{Memory, Event, memory_db, memory_format, memory_listener}
use registry_ui.Purge.{missing, Env}
use registry_ui.Purge.Select.{day}
use registry_ui.Main.Requests.{App, Server, Visit, at_deletion, visiting}
use registry_ui.Main.Serving.{request, Purging}
use registry_ui.Main.Serving.Finishing.{IsParsed}

abbrev pub created_at : Text → ℕ
created_at ref = if text_eq ref (codes "app:new") then 90 * day else 10 * day

abbrev pub image_of : Text → Descriptor
image_of ref = record {
  digest = ref;
  media_type = [];
  is_index = false;
  is_image = true;
  image = ok (record {
    config_name = [];
    config_file = ok (record { created = created_at ref; platform = none; json = [] });
    manifest = record { layers = 5 ∷ []; annotations = none; json = [] };
  });
  image_index = err [];
}

-- A registry with one repository and two tags; its state is what has been deleted.
abbrev pub registry : Remote (List Text)
registry = record {
  catalogger = λ s. (ok (some (codes "app" ∷ []) ∷ []), s);
  new_repository = λ r. ok r;
  list = λ repo s. (ok (codes "old" ∷ codes "new" ∷ []), s);
  parse_reference = λ r. ok (record { repository_str = []; identifier = drop 4 r });
  get = λ ref s. (ok (image_of ref.identifier), s);
  delete = λ ref s. (none, drop 1 ref.identifier ∷ s);
  parse_time = λ t. none;
}

abbrev pub toy_hmac : Text → Text → Text
toy_hmac secret username = reverse (secret ++ username)

abbrev pub app : App (List Text) Memory Event Text Text
app = record {
  remote = registry;
  client_config = record {
    hostname = codes "hub";
    tags_online_refresh_max_count = pos 0;
    tags_async_refresh_interval = pos 60;
  };
  db = memory_db;
  format = memory_format [];
  listener = memory_listener;
  json = λ repositories. none;
  log_retention = pos 30;
  hmac = toy_hmac;
  auth = record {
    enabled = true;
    max_attempts = pos 2;
    lockout_minutes = pos 15;
    username = codes "root";
    password = codes "pw";
    secret = codes "s";
    uri_base_path = codes "/ui/";
  };
  web = record {
    admins = codes "root" ∷ [];
    anyone_can_view_events = false;
    anyone_can_delete_tags = false;
    uri_base_path = codes "/ui/";
  };
  cron = codes "0 3 * * *";
  print = λ t. t;
  settings = [];
  bearer_token = codes "token";
  key_auth = λ validator header. validator header;
  on_error = λ e w. w;
  change = λ x s. s;
}

abbrev pub server : Server (List Text) Memory
server = record {
  client = new_client;
  registry = [];
  attempts = [];
  database = record { tables = record { events = []; purge_runs = [] }; room = 1 };
}

abbrev pub by_root : Visit
by_root = record { cookie = some (codes "root:toors"); header = [] }

abbrev pub by_nobody : Visit
by_nobody = record { cookie = none; header = codes "root" }

abbrev pub env : Env
env = record {
  settings = record {
    keep_days = pos 30;
    keep_count = pos 1;
    keep_regexp = [];
    keep_from_file = [];
    cron = codes "0 3 * * *";
  };
  read_file = λ path. missing path;
  gjson_array = λ doc repo. [];
  match_string = λ pattern name. none;
  started = 100 * day;
  now = 100 * day;
  finished = 100 * day + 5;
}

-- A purge between whose calls an admin deletes a tag, and somebody else tries to.
abbrev pub nightly : Bool → Purging Text
nightly dry_run = record {
  job = record { last_run = 1; duration = 1 };
  env = env;
  dry_run = dry_run;
  meantime =
      (request (visiting by_root (at_deletion (codes "app") (codes "tmp"))) ∷ [])
      ∷ (request (visiting by_nobody (at_deletion (codes "app") (codes "new"))) ∷ [])
      ∷ [];
}

-- The program behind its first refresh.
abbrev pub ready_server : Server (List Text) Memory
ready_server = record server { client = record new_client { is_catalog_ready = true } }

pub normal_ui :
    normalize_base_path app.auth.uri_base_path ≡ trim_right_slashes app.auth.uri_base_path
unfolding normalize_base_path trim_slashes trim_right_slashes
normal_ui = refl

pub every_index_parses : IsParsed app.remote
every_index_parses ref s descr h none_parsed = absurd (ground arith)
