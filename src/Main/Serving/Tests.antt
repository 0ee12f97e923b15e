-- ===== src/Main/Serving/Tests.antt =====
-- Runs of the running program on a small registry, and each theorem at a concrete input.
use mathlib.Core.Path.{◌≡◌, refl}
use mathlib.Core.Bool.{false}
use mathlib.Core.Option.{some}
use mathlib.Core.List.{List, [], ◌∷◌}
use native.Mathlib.Omega.{arith}
use registry_ui.Base.Text.{Text, codes, text_eq, has_prefix, split}
use registry_ui.Auth.{
  auth_middleware, is_skipped, get_session_username, session_parts, split_colon, trim_right_slashes,
}
use registry_ui.Web.{delete_tag_page, set_user_permissions, trim_slashes}
use registry_ui.Purge.Select.{
  filter_tags, is_purgeable, keep_min_count, select_tags, days_old, less, match_by_regexp,
}
use registry_ui.Main.Requests.{
  redirected, at_options, visiting, serve, passed_on, show_page, page_path, Server,
}
use registry_ui.Main.Serving.{
  busy_client, Activity, purge, history, happen, purge_between, run_recorded, act, act_all,
  act_each, within, put_back,
}
use registry_ui.Purge.Interrupted.{interrupted, meanwhile, refreshed}
use registry_ui.Client.Delete.{
  store_updated, purge_client, delete_tag, delete_described, delete_reference, uncache_tag,
}
use registry_ui.Purge.Run.{run_purge_old_tags, purge_catalog, planned_result}
use registry_ui.Purge.Scan.{choose_catalog, catalog_of, scan_tags, scan_catalog, record_info}
use registry_ui.Purge.Plan.{plan, purge_size}
use registry_ui.Purge.Delete.{
  delete_planned, tally, tally_repo, delete_tags, delete_repo, delete_repos,
}
use registry_ui.Client.Cache.{
  refresh_catalog, show_pages, store_repos, page_repos, cache_tags, fetch_and_cache_tags_for_repo,
}
use registry_ui.Client.Inspect.{get_image_info, details, image_details, created_of}
use registry_ui.Common.{item_in_slice, sorted_map_keys}
use registry_ui.Main.{normalize_base_path}
use registry_ui.Events.Log.{record_purge_run, run_values}
use registry_ui.Base.Map.{insert, lookup}
use registry_ui.Base.Sort.{sort_strings}
use registry_ui.Main.Serving.Example.{
  every_index_parses, normal_ui, ready_server, app, server, by_nobody, env, nightly,
}
use registry_ui.Purge.{PurgeRunResult}
use registry_ui.Events.Memory.{Memory}
use registry_ui.Main.Serving.Finishing.{purge_between_finishes}
use registry_ui.Main.Serving.Gate.{serve_gated}

serving_run : Unit {0}
unfolding act_each history happen purge_between run_recorded act act_all interrupted meanwhile
    refreshed within put_back purge_client serve passed_on show_page page_path run_purge_old_tags
    choose_catalog catalog_of purge_catalog scan_tags scan_catalog record_info plan purge_size
    filter_tags is_purgeable keep_min_count select_tags days_old less delete_planned tally
    tally_repo delete_tags delete_repo delete_repos planned_result refresh_catalog show_pages
    store_repos page_repos cache_tags fetch_and_cache_tags_for_repo get_image_info details
    image_details created_of delete_tag delete_described delete_reference uncache_tag store_updated
    delete_tag_page set_user_permissions item_in_slice auth_middleware is_skipped
    get_session_username session_parts split_colon trim_right_slashes normalize_base_path
    trim_slashes text_eq has_prefix record_purge_run run_values insert lookup sorted_map_keys
    sort_strings split match_by_regexp
serving_run = tt

deleted_nightly :
    (history app (purge (nightly false) ∷ []) server).registry
    ≡ codes "app:old" ∷ codes "app:tmp" ∷ []
unfolding serving_run
deleted_nightly = refl

serve_gated_example :
    serve app (visiting by_nobody at_options) server ≡ (redirected (codes "/ui/login"), server)
unfolding trim_right_slashes
serve_gated_example =
    serve_gated app by_nobody at_options server refl normal_ui tt
      (λ username named e. absurd (ground arith))

purge_between_finishes_example :
    (run : PurgeRunResult) × (t : Server (List Text) Memory) × (rest : List (List (Activity Text)))
    × (run_purge_old_tags
          (busy_client app (nightly false).job)
          env
          false
          []
          []
          (ready_server, (nightly false).meantime)
        ≡ some (run, (t, rest)))
    × ((purge_between app (nightly false) ready_server).database
        ≡ (record_purge_run app.db app.format app.listener app.log_retention app.json run
            (act_each app rest t).database).1)
purge_between_finishes_example =
    purge_between_finishes app (nightly false) ready_server every_index_parses refl
