-- ===== src/Main/Serving/Quiet.antt =====
-- main.go: a running program in which nobody may delete.
use mathlib.Core.Path.{◌≡◌, refl, subst}
use mathlib.Core.Logic.{inl, inr}
use mathlib.Core.Bool.{Bool, true, false}
use mathlib.Core.Option.{Option, none, some}
use mathlib.Core.List.{List, [], ◌∷◌, ◌++◌}
use native.Mathlib.Omega.{arith}
use registry_ui.Base.Tests.{if◌then◌else◌}
use registry_ui.Base.Lists.{All, Any}
use registry_ui.Base.Text.{Text, codes}
use registry_ui.Auth.{trim_right_slashes}
use registry_ui.Auth.Passage.{MayPass, no_auth, open_path, signed}
use registry_ui.Client.{Client, JobInfo}
use registry_ui.Client.Cache.{refresh_catalog, fetch_and_cache_tags_for_repo}
use registry_ui.Client.Caching.{Result-cases}
use registry_ui.Client.Delete.{reference_of}
use registry_ui.Client.Inspect.{get_image_info}
use registry_ui.Common.Laws.{item_in_slice_iff}
use registry_ui.Web.{set_user_permissions}
use registry_ui.Main.{normalize_base_path}
use registry_ui.Main.Deletion.{IsByAdmin, header_behind, deletion_not_skipped}
use registry_ui.Main.Requests.{App, Server, Visit, at_deletion, visiting, page_path}
use registry_ui.Main.Serving.{Activity, Happening, request, alone, purge, history}
use registry_ui.Main.Serving.Kept.{IsKeptByCalls, Asks}
use registry_ui.Main.Serving.Purged.{IsLicensedBy, IsLicensed, history-IsLicensed}

module _ {R D J V X : Type 0} (app : App R D J V X) where
  -- The cookie of a request is not that of a login of an admin.
  abbrev pub IsNoAdmin : Visit → Type 0
  IsNoAdmin v = ¬ IsByAdmin app.hmac app.auth app.remote app.client_config app.web v.cookie

  -- No request has the cookie of an admin, and no purge deletes.
  abbrev pub IsQuietActivity : Activity X → Type 0
  IsQuietActivity a =
      (v : Visit) (repo tag : Text) → a ≡ request (visiting v (at_deletion repo tag)) → IsNoAdmin v

  abbrev pub IsQuiet : Happening X → Type 0
  IsQuiet (alone a) = IsQuietActivity a
  IsQuiet (purge p) = (p.dry_run ≡ true) × All (All IsQuietActivity) p.meantime

  -- What the reading calls of the registry library and others keep of the registry.
  pub record IsKeptByLibrary (Q : R → Type 0) : Type 0 where
    pub catalogger : (s : R) → Q s → Q (app.remote.catalogger s).1
    pub list : (repo : Text) (s : R) → Q s → Q (app.remote.list repo s).1
    pub get : (ref : _) (s : R) → Q s → Q (app.remote.get ref s).1
    pub others : (x : X) (s : R) → Q s → Q (app.change x s)

  module _ (Q : R → Type 0) (kept : IsKeptByLibrary Q) where
    IsKeptIfAny : Option (Client × R) → Type 0
    IsKeptIfAny none = Unit
    IsKeptIfAny (some w) = Q w.1

    refresh_failed-keeps :
        (c : Client) (s : R) (b : Bool) → Q s → IsKeptIfAny (if b then some (c, s) else none)
    unfolding IsKeptIfAny
    refresh_failed-keeps c s true q = q
    refresh_failed-keeps c s false q = tt

    refresh_catalog-keeps :
        (job : JobInfo) (w : Client × R) → Q w.1 → IsKeptIfAny (refresh_catalog app.remote job w)
    unfolding refresh_catalog IsKeptIfAny
    refresh_catalog-keeps job (c, s) q = elim (Result-cases (app.remote.catalogger s).0) [
      | inl (pages, e) ↦ rw (e, refresh_catalog) (kept.catalogger s q)
      | inr (x, e) ↦
          rw (e, refresh_catalog)
            (refresh_failed-keeps c (app.remote.catalogger s).1 c.is_catalog_ready
              (kept.catalogger s q))
    ]

    fetch-keeps :
        (repo : Text) (w : Client × R)
        → Q w.1
        → Q (fetch_and_cache_tags_for_repo app.remote app.client_config repo w).1.1
    unfolding fetch_and_cache_tags_for_repo
    fetch-keeps repo w q =
        elim (Result-cases
          (app.remote.new_repository (app.client_config.hostname ++ codes "/" ++ repo))) [
            | inr (x, e) ↦ rw (e, fetch_and_cache_tags_for_repo) q
            | inl (x, e) ↦ rw (e, fetch_and_cache_tags_for_repo) (kept.list x w.1 q)
          ]

    get_image_info-keeps :
        (ref : Text) (s : R) → Q s → Q (get_image_info app.remote app.client_config ref s).1
    unfolding get_image_info
    get_image_info-keeps ref s q =
        elim (Result-cases (reference_of app.remote app.client_config ref)) [
          | inr (x, e) ↦ rw (e, get_image_info) q
          | inl (x, e) ↦ rw (e, get_image_info) (kept.get x s q)
        ]

    pub registry-IsKeptByCalls : IsKeptByCalls app (λ w. Q w.1)
    unfolding IsKeptIfAny
    registry-IsKeptByCalls = record {
      refresh = λ job w w' e q. subst IsKeptIfAny e (refresh_catalog-keeps job w q);
      fetch = fetch-keeps;
      info = λ ref w q. get_image_info-keeps ref w.1 q;
      stamp = λ job w q. q;
      others = λ x w q. kept.others x w.1 q;
    }

  module _ (on : app.auth.enabled ≡ true)
      (normal : normalize_base_path app.auth.uri_base_path
        ≡ trim_right_slashes app.auth.uri_base_path)
      (closed : app.web.anyone_can_delete_tags ≡ false) where
    pub IsAllowed-IsByAdmin :
        (cookie username : Option Text) (header repo tag : Text)
        → MayPass app.hmac app.auth (page_path app.auth (at_deletion repo tag)) cookie username
        → (set_user_permissions app.web (header_behind username header)).delete_allowed ≡ true
        → IsByAdmin app.hmac app.auth app.remote app.client_config app.web cookie
    unfolding page_path set_user_permissions
    IsAllowed-IsByAdmin cookie none header repo tag (no_auth _ off) allowed = absurd (ground arith)
    IsAllowed-IsByAdmin cookie none header repo tag (open_path _ skipped) allowed = absurd (
        ground (
          arith,
          deletion_not_skipped app.hmac app.auth app.remote app.client_config app.web normal,
        ))
    IsAllowed-IsByAdmin none (some _) header repo tag may allowed = elim may [ ]
    IsAllowed-IsByAdmin (some _) (some _) header repo tag (signed username named) allowed = record {
      user = username;
      is_named = named;
      is_admin = (item_in_slice_iff username app.web.admins).0 (ground arith);
      is_signed = refl;
    }

    quiet_activity : (a : Activity X) (repo tag : Text) → IsQuietActivity a → ¬ Asks app a repo tag
    quiet_activity a repo tag quiet (v, e, allowed) = quiet v repo tag e (
        IsAllowed-IsByAdmin v.cookie allowed.username v.header repo tag allowed.may_pass
          allowed.may_delete)

    quiet_activities :
        (activities : List (Activity X)) (repo tag : Text)
        → All IsQuietActivity activities
        → ¬ Any (λ a. Asks app a repo tag) activities
    quiet_activities [] repo tag quiet asked = asked
    quiet_activities (a ∷ activities) repo tag (q, quiet) (inl asked) =
        quiet_activity a repo tag q asked
    quiet_activities (a ∷ activities) repo tag (q, quiet) (inr asked) =
        quiet_activities activities repo tag quiet asked

    quiet_meantime :
        (meantime : List (List (Activity X))) (repo tag : Text)
        → All (All IsQuietActivity) meantime
        → ¬ Any (Any (λ a. Asks app a repo tag)) meantime
    quiet_meantime [] repo tag quiet asked = asked
    quiet_meantime (activities ∷ meantime) repo tag (q, quiet) (inl asked) =
        quiet_activities activities repo tag q asked
    quiet_meantime (activities ∷ meantime) repo tag (q, quiet) (inr asked) =
        quiet_meantime meantime repo tag quiet asked

    quiet_event :
        (event : Happening X) (repo tag : Text) → IsQuiet event → ¬ IsLicensedBy app event repo tag
    quiet_event (alone a) repo tag quiet asked = quiet_activity a repo tag quiet asked
    quiet_event (purge p) repo tag (dry, quiet) (inl asked) =
        quiet_meantime p.meantime repo tag quiet asked
    quiet_event (purge p) repo tag (dry, quiet) (inr (real, due)) = absurd (ground arith)

    quiet_events :
        (events : List (Happening X)) (repo tag : Text)
        → All IsQuiet events
        → ¬ IsLicensed app events repo tag
    quiet_events [] repo tag quiet licensed = licensed
    quiet_events (event ∷ events) repo tag (q, quiet) (inl licensed) =
        quiet_event event repo tag q licensed
    quiet_events (event ∷ events) repo tag (q, quiet) (inr licensed) =
        quiet_events events repo tag quiet licensed

    -- With the login enabled, a base path that the routes and the login bring to the same form, and
    -- deletion not open to everybody, nothing is deleted from the registry while every purge is dry and
    -- no request for a deletion has the cookie of an admin: what the reading calls of the library and
    -- others keep of the registry holds at the end, whatever the library's `Delete` would do to it.
    pub history_quiet :
        (Q : R → Type 0)
        → IsKeptByLibrary Q
        → (events : List (Happening X)) (s : Server R D) → All IsQuiet events
        → Q s.registry
        → Q (history app events s).registry
    history_quiet Q kept events s quiet q =
        history-IsLicensed app (λ w. Q w.1) (registry-IsKeptByCalls Q kept) events s
          (λ repo tag w licensed. absurd (quiet_events events repo tag quiet licensed)) q
