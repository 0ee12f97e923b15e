-- ===== src/Main/Serving/Kept.antt =====
-- main.go: what the running program keeps of its client and of the registry.
use mathlib.Core.Path.{◌≡◌, refl}
use mathlib.Core.Logic.{◌⊎◌, inl, inr}
use mathlib.Core.Bool.{Bool, true, false}
use mathlib.Core.Option.{Option, some}
use mathlib.Core.List.{List, [], ◌∷◌}
use registry_ui.Base.Tests.{Bool-cases, Option-cases}
use registry_ui.Base.Text.{Text, text_eq, codes}
use registry_ui.Base.Map.{get_or, lookup}
use registry_ui.Auth.{Decision, proceed, redirect, auth_middleware}
use registry_ui.Auth.Passage.{MayPass, auth_middleware-MayPass}
use registry_ui.Client.{Client, JobInfo}
use registry_ui.Client.Cache.{
  refresh_catalog, fetch_and_cache_tags_for_repo, is_online, list_tags, fetch_all, refresh_tags,
}
use registry_ui.Client.Delete.{delete_tag}
use registry_ui.Client.Inspect.{get_image_info}
use registry_ui.Web.{
  Navigation, show_image, show_repos, navigate, set_user_permissions, page_tags, view_catalog,
  catalog_view, trim_slashes, delete_tag_page,
}
use registry_ui.Main.{is_event_token}
use registry_ui.Main.Deletion.{header_behind}
use registry_ui.Main.Requests.{
  App, Server, Visit, Page, at_root, at_path, at_purge_log, at_statistics, at_options, at_deletion,
  visiting, logging_in, logging_out, notifying, page_path, world, catalog_answer, show_page,
  passed_on, notified, serve,
}
use registry_ui.Main.Serving.{Activity, request, catalog_round, tags_round, elsewhere, act}

module _ {R D J V X : Type 0} (app : App R D J V X) where
  -- A request for the deletion of a tag that the middleware lets through as one of a user who may
  -- delete.
  pub record IsAllowed (v : Visit) (repo tag : Text) : Type 0 where
    pub username : Option Text
    pub may_pass :
        MayPass app.hmac app.auth (page_path app.auth (at_deletion repo tag)) v.cookie username
    pub may_delete :
        (set_user_permissions app.web (header_behind username v.header)).delete_allowed ≡ true

  -- The activity is a request for this deletion.
  abbrev pub Asks : Activity X → Text → Text → Type 0
  Asks a repo tag =
      (v : Visit) × (a ≡ request (visiting v (at_deletion repo tag))) × IsAllowed v repo tag

module _ {R D J V X : Type 0} (app : App R D J V X) (P : Client × R → Type 0) where
  -- What the calls of the client and of others keep, deletions aside.
  pub record IsKeptByCalls : Type 0 where
    pub refresh :
        (job : JobInfo) (w w' : Client × R)
        → refresh_catalog app.remote job w ≡ some w'
        → P w
        → P w'
    pub fetch :
        (repo : Text) (w : Client × R)
        → P w
        → P (fetch_and_cache_tags_for_repo app.remote app.client_config repo w).1
    pub info :
        (ref : Text) (w : Client × R)
        → P w
        → P (w.0, (get_image_info app.remote app.client_config ref w.1).1)
    pub stamp : (job : JobInfo) (w : Client × R) → P w → P (record w.0 { tags_job_info = job }, w.1)
    pub others : (x : X) (w : Client × R) → P w → P (w.0, app.change x w.1)

  module _ (kept : IsKeptByCalls) where
    fetch_all-keeps :
        (repos : List Text) (w : Client × R)
        → P w
        → P (fetch_all app.remote app.client_config repos w)
    unfolding fetch_all
    fetch_all-keeps [] w p = p
    fetch_all-keeps (repo ∷ repos) w p = fetch_all-keeps repos _ (kept.fetch repo w p)

    refresh_tags-keeps :
        (job : JobInfo) (w : Client × R) → P w → P (refresh_tags app.remote app.client_config job w)
    unfolding refresh_tags
    refresh_tags-keeps job (c, s) p = kept.stamp job _ (fetch_all-keeps c.repos (c, s) p)

    round-keeps :
        (job : JobInfo) (w : Client × R) → P w → P (get_or (refresh_catalog app.remote job w) w)
    round-keeps job w p = elim (Option-cases (refresh_catalog app.remote job w)) [
      | inl ended ↦ rw ended p
      | inr (w', e) ↦ rw e (kept.refresh job w w' e p)
    ]

    list_tags-keeps :
        (repo : Text) (w : Client × R) → P w → P (list_tags app.remote app.client_config repo w).1
    unfolding list_tags
    list_tags-keeps repo (c, s) p =
        elim (Bool-cases (is_online app.remote app.client_config (lookup repo c.tags_cache))) [
          | inl e ↦ rw (e, list_tags) (kept.fetch repo (c, s) p)
          | inr e ↦ rw (e, list_tags) p
        ]

    page_tags-keeps :
        (b : Bool) (repo : Text) (w : Client × R)
        → P w
        → P (page_tags app.remote app.client_config app.web b repo w).1
    unfolding page_tags
    page_tags-keeps false repo w p = p
    page_tags-keeps true repo w p = list_tags-keeps repo w p

    catalog_answer-keeps :
        (user param : Text) (s : Server R D)
        → P (world s)
        → P (world (catalog_answer app user param s).1)
    unfolding catalog_answer view_catalog catalog_view
    catalog_answer-keeps user param s p =
        elim (Bool-cases (text_eq (trim_slashes param) (codes "__event-log"))) [
          | inl e ↦ rw (e, catalog_answer, view_catalog) p
          | inr e ↦ elim (Navigation-cases (navigate (trim_slashes param) s.client.repos)) [
            | inl n ↦
                rw (e, n, catalog_answer, view_catalog) (kept.info (trim_slashes param) (world s) p)
            | inr (found, b, n) ↦
                rw (e, n, catalog_answer, view_catalog, catalog_view)
                  (page_tags-keeps b (trim_slashes param) (world s) p)
          ]
        ]
      where
        Navigation-cases :
            (n : Navigation)
            → (n ≡ show_image) ⊎ ((found : List Text) × (b : Bool) × (n ≡ show_repos found b))
        Navigation-cases show_image = inl refl
        Navigation-cases (show_repos found b) = inr (found, b, refl)

    delete_tag_page-keeps :
        (user repo tag : Text) (w : Client × R)
        → ((set_user_permissions app.web user).delete_allowed ≡ true
            → P (delete_tag app.remote app.client_config repo tag w).1)
        → P w
        → P (delete_tag_page app.remote app.client_config app.web user repo tag w).1
    unfolding delete_tag_page
    delete_tag_page-keeps user repo tag w deletes p =
        elim (Bool-cases (set_user_permissions app.web user).delete_allowed) [
          | inl e ↦ rw (e, delete_tag_page) (deletes e)
          | inr e ↦ rw (e, delete_tag_page) p
        ]

    passed_on-keeps :
        (v : Visit) (page : Page) (d : Decision) (s : Server R D)
        → auth_middleware app.hmac app.auth (page_path app.auth page) v.cookie ≡ d
        → ((repo tag : Text) (w : Client × R)
            → Asks app (request (visiting v page)) repo tag
            → P w
            → P (delete_tag app.remote app.client_config repo tag w).1)
        → P (world s)
        → P (world (passed_on app v page d s).1)
    unfolding passed_on show_page
    passed_on-keeps v page (redirect url) s e deletes p = p
    passed_on-keeps v at_root (proceed username) s e deletes p = catalog_answer-keeps _ _ s p
    passed_on-keeps v (at_path param) (proceed username) s e deletes p =
        catalog_answer-keeps _ _ s p
    passed_on-keeps v at_purge_log (proceed username) s e deletes p = p
    passed_on-keeps v at_statistics (proceed username) s e deletes p = p
    passed_on-keeps v at_options (proceed username) s e deletes p = p
    passed_on-keeps v (at_deletion repo tag) (proceed username) s e deletes p =
        delete_tag_page-keeps (header_behind username v.header) repo tag (world s)
          (λ allowed.
            deletes repo tag (world s)
              (
                v,
                refl,
                record {
                  username = username;
                  may_pass =
                      auth_middleware-MayPass app.hmac app.auth
                        (page_path app.auth (at_deletion repo tag)) v.cookie username e;
                  may_delete = allowed;
                },
              )
              p)
          p

    -- An activity keeps what the calls keep, and what the deletion keeps that it asks for.
    pub act-keeps :
        (a : Activity X) (s : Server R D)
        → ((repo tag : Text) (w : Client × R)
            → Asks app a repo tag
            → P w
            → P (delete_tag app.remote app.client_config repo tag w).1)
        → P (world s)
        → P (world (act app a s))
    unfolding act serve notified
    act-keeps (request (visiting v page)) s deletes p =
        passed_on-keeps v page
          (auth_middleware app.hmac app.auth (page_path app.auth page) v.cookie) s refl deletes p
    act-keeps (request (logging_in clock r)) s deletes p = p
    act-keeps (request logging_out) s deletes p = p
    act-keeps (request (notifying authorization body)) s deletes p =
        elim (Bool-cases (app.key_auth (is_event_token app.bearer_token) authorization)) [
          | inl e ↦ rw (e, act, serve, notified) p
          | inr e ↦ rw (e, act, serve, notified) p
        ]
    act-keeps (catalog_round job) s deletes p = round-keeps job (world s) p
    act-keeps (tags_round job) s deletes p = refresh_tags-keeps job (world s) p
    act-keeps (elsewhere x) s deletes p = kept.others x (world s) p
