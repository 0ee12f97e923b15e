-- ===== src/Web/Tests.antt =====
-- The catalog page and the deletion on a small registry, and each theorem at a concrete input.
use mathlib.Core.Path.{◌≡◌, refl}
use mathlib.Core.Logic.{◌⊎◌, inl, inr}
use mathlib.Core.Bool.{true, false}
use mathlib.Core.Option.{none, some}
use mathlib.Core.List.{List, [], ◌∷◌}
use registry_ui.Base.Int.{pos}
use registry_ui.Base.Text.{Text, codes, text_eq, text_lt, has_prefix, contains, split}
use registry_ui.Base.Sort.{sort_strings}
use registry_ui.Base.Map.{Map, lookup, insert}
use registry_ui.Common.{item_in_slice, unique_loop, unique_sorted_slice}
use registry_ui.Image.{err}
use registry_ui.Auth.{trim_right_slashes}
use registry_ui.Client.{Client, ClientConfig, Remote}
use registry_ui.Client.Cache.{list_tags, is_online, tags_or_none}
use registry_ui.Client.Delete.{delete_tag}
use registry_ui.Client.Counts.{sub_repo_tag_counts}
use registry_ui.Web.{
  WebConfig, set_user_permissions, trim_slashes, first_segment, root_repos, repos_below, navigate,
  show_repos, page_tags, catalog_view, view_catalog, delete_tag_page,
}
use registry_ui.Events.Receive.{
  returned, panicked, is_own, is_prepared, store_events, process_events,
}
use registry_ui.Events.Statements.{
  schema_for, is_mysql, schema_sqlite, insert_event, insert_purge_run, delete_old,
  schema_purge_runs_sqlite,
}
use registry_ui.Events.Handler.{get_database_handler}
use registry_ui.Events.{Database}
use registry_ui.Events.Memory.{Memory, Event, memory_db, memory_format, memory_listener}
use registry_ui.Middleware.{finished, with_middleware}
use registry_ui.Web.Options.{is_sensitive, sensitive_keys, Setting, nested, plain, view_options}
use registry_ui.Web.Masking.{view_options-SameSettings}
use registry_ui.Web.Site.{Response, new_response, receive_events, receive_events_acknowledges}

-- Everything that the runs compute with.
web_run : Unit {0}
unfolding set_user_permissions trim_slashes trim_right_slashes first_segment root_repos repos_below
    navigate page_tags catalog_view view_catalog delete_tag_page text_eq text_lt has_prefix contains
    split sort_strings lookup insert item_in_slice unique_loop unique_sorted_slice list_tags
    is_online tags_or_none sub_repo_tag_counts
web_run = tt

-- A registry that answers no call.
abbrev remote : Remote (List Text)
remote = record {
  catalogger = λ s. (err [], s);
  new_repository = λ r. err [];
  list = λ repo s. (err [], s);
  parse_reference = λ r. err [];
  get = λ ref s. (err [], s);
  delete = λ ref s. (none, ref.identifier ∷ s);
  parse_time = λ t. none;
}

abbrev config : ClientConfig
config = record {
  hostname = codes "hub";
  tags_online_refresh_max_count = pos 0;
  tags_async_refresh_interval = pos 60;
}

abbrev web : WebConfig
web = record {
  admins = codes "root" ∷ [];
  anyone_can_view_events = false;
  anyone_can_delete_tags = false;
  uri_base_path = codes "/ui";
}

abbrev catalog : List Text
catalog = codes "app/web" ∷ codes "db" ∷ codes "app" ∷ []

abbrev client : Client
client = record {
  repos = catalog;
  tags_cache = (codes "app", codes "v1" ∷ []) ∷ (codes "app/web", codes "w" ∷ codes "x" ∷ []) ∷ [];
  is_catalog_ready = true;
  catalog_job_info = record { last_run = 0; duration = 0 };
  tags_job_info = record { last_run = 0; duration = 0 };
}

below_app : navigate (codes "app") catalog ≡ show_repos (codes "web" ∷ []) true
unfolding web_run
below_app = refl

root_page : navigate [] catalog ≡ show_repos (codes "app" ∷ codes "db" ∷ codes "app" ∷ []) false
unfolding web_run
root_page = refl

-- A user who is no admin is sent back, and nothing is deleted.
denied :
    delete_tag_page remote config web (codes "eve") (codes "app") (codes "v1") (client, [])
    ≡ (codes "/uiapp", (client, []))
unfolding web_run delete_tag
denied = refl

-- The configuration with a password of the registry.
abbrev settings : Text → Map (Setting Text)
settings password =
    (codes "registry", nested ((codes "password", password) ∷ (codes "hostname", codes "hub") ∷ []))
    ∷ (codes "listen_addr", plain (codes ":8000"))
    ∷ []

-- The page shows the other values, and the sections and keys in order.
shown :
    view_options (λ v. v) (settings (codes "secret"))
    ≡ record { name = codes "general"; options = (codes "listen_addr", codes ":8000") ∷ [] }
      ∷ record {
        name = codes "registry";
        options = (codes "hostname", codes "hub") ∷ (codes "password", codes "***") ∷ [];
      }
      ∷ []
unfolding view_options web_run sensitive_keys is_sensitive
shown = refl

password_sensitive : is_sensitive (codes "registry") (codes "password") ≡ true
unfolding is_sensitive sensitive_keys item_in_slice text_eq
password_sensitive = refl

view_options-SameSettings_example :
    view_options (λ v. v) (settings (codes "secret"))
    ≡ view_options (λ v. v) (settings (codes "changeme"))
view_options-SameSettings_example =
    view_options-SameSettings (λ v. v) (settings (codes "secret")) (settings (codes "changeme"))
      (refl, (refl, inl password_sensitive, (refl, inr refl, tt)), (refl, refl, tt))

-- A database that prepares no statement.
abbrev locked_db : Database Memory
locked_db = record memory_db { prepare = λ q s. some (codes "locked") }

abbrev empty : Memory
empty = record { tables = record { events = []; purge_runs = [] }; room = 1 }

abbrev pushed : List Event
pushed =
    record { agent = []; action = codes "push"; repository = codes "app"; tag = codes "v1" } ∷ []

process_locked :
    (process_events locked_db (memory_format pushed) memory_listener [] empty).0 ≡ panicked
unfolding process_events store_events is_own is_prepared get_database_handler has_prefix text_eq
    memory_db schema_for is_mysql schema_sqlite insert_event insert_purge_run delete_old
    schema_purge_runs_sqlite
process_locked = refl

abbrev same_world : Text → Response × Memory → Response × Memory
same_world e w = w

receive_events_acknowledges_example :
    let ended = process_events locked_db (memory_format pushed) memory_listener [] empty in
    let answer =
      with_middleware same_world
        (codes "/event-receiver")
        (receive_events locked_db (memory_format pushed) memory_listener [])
        (new_response, empty) in
    (answer.0 ≡ finished none)
    × (answer.1.0.status ≡ 200)
    × (answer.1.1 ≡ ended.1)
    × (((ended.0 ≡ returned) × (answer.1.0.body ≡ codes "OK"))
        ⊎ ((ended.0 ≡ panicked) × (answer.1.0.body ≡ [])))
receive_events_acknowledges_example =
    receive_events_acknowledges locked_db (memory_format pushed) memory_listener same_world
      (codes "/event-receiver") [] empty
