-- ===== src/Main/Serving/Finishing.antt =====
-- main.go: a scheduled purge comes to its record.
use mathlib.Core.Path.{◌≡◌, refl, sym, ◌∙◌}
use mathlib.Core.Logic.{◌≢◌, inl, inr}
use mathlib.Core.Bool.{Bool, true}
use mathlib.Core.Option.{Option, none, some}
use mathlib.Core.List.{List, [], ◌∷◌, ◌++◌}
use native.Mathlib.Omega.{arith}
use registry_ui.Base.Tests.{◌==◌, Bool-cases}
use registry_ui.Base.Text.{Text, codes}
use registry_ui.Image.{Result, ok, err, ImageInfo}
use registry_ui.Client.{ClientConfig, Remote, Reference, Descriptor, IndexManifest}
use registry_ui.Client.Caching.{Result-cases}
use registry_ui.Client.Inspect.{described, index_details, details, get_image_info}
use registry_ui.Client.Caching.{refresh_catalog_ready}
use registry_ui.Client.Delete.{purge_client}
use registry_ui.Events.Log.{record_purge_run}
use registry_ui.Purge.{PurgeClient, PurgeRunResult, Env}
use registry_ui.Purge.Interrupted.{interrupted, refreshed, meanwhile}
use registry_ui.Purge.Invariant.{KeepFile-cases}
use registry_ui.Purge.Scan.{
  image_ref, Scanned, nothing_scanned, record_info, choose_catalog, catalog_of, scan_tags,
  scan_catalog,
}
use registry_ui.Purge.Run.{keep_file, purge_unless_panicked, run_purge_old_tags}
use registry_ui.Main.Requests.{App, Server, with_world}
use registry_ui.Main.Serving.{
  Activity, Purging, act_all, act_each, put_back, within, busy_client, run_recorded, purge_between,
}

-- Every image index that the registry serves has a manifest that parses.
abbrev pub IsParsed : {R : Type 0} → Remote R → Type 0
IsParsed {R = R} remote =
    (ref : Reference) (s : R) (descr : Descriptor)
    → (remote.get ref s).0 ≡ ok descr
    → descr.image_index ≢ ok none

module _ {R : Type 0} (remote : Remote R) (config : ClientConfig) (parsed : IsParsed remote) where
  index_details_answers :
      (index : Result (Option IndexManifest)) (ii : ImageInfo)
      → index ≢ ok none
      → index_details index ii ≢ none
  unfolding index_details
  index_details_answers (err e) ii h q = absurd (ground arith)
  index_details_answers (ok none) ii h q = h refl
  index_details_answers (ok (some idx)) ii h q = absurd (ground arith)

  details_answers :
      (ref : Reference) (s : R) (answer : Result Descriptor)
      → (remote.get ref s).0 ≡ answer
      → details remote config ref answer ≢ none
  unfolding details
  details_answers ref s (err e) h q = absurd (ground arith)
  details_answers ref s (ok descr) h q = elim (Bool-cases descr.is_index) [
    | inl index ↦
        index_details_answers descr.image_index (described ref descr) (parsed ref s descr h)
          (ground arith)
    | inr other ↦ elim (Bool-cases descr.is_image) [
      | inl image ↦ absurd (ground arith)
      | inr neither ↦ absurd (ground arith)
    ]
  ]

  -- `GetImageInfo` does not panic.
  get_image_info_answers :
      (image_ref : Text) (s : R) → (get_image_info remote config image_ref s).0 ≢ none
  unfolding get_image_info
  get_image_info_answers image_ref s q =
      elim (Result-cases (remote.parse_reference (config.hostname ++ codes "/" ++ image_ref))) [
        | inl (ref, e) ↦
            details_answers ref s (remote.get ref s).0 refl (sym (rw (e, get_image_info) refl) ∙ q)
        | inr (x, e) ↦ absurd (ground arith)
      ]

module _ {S : Type 0} (c : PurgeClient S) (env : Env)
    (answers : (ref : Text) (s : S) → (c.get_image_info ref s).0 ≢ none) where
  record_info_calm :
      (repo tag : Text) (info : Option (Result ImageInfo)) (sc : Scanned)
      → info ≢ none
      → (record_info repo tag info sc).panicked ≡ sc.panicked
  unfolding record_info
  record_info_calm repo tag none sc h = absurd (h refl)
  record_info_calm repo tag (some (err e)) sc h = refl
  record_info_calm repo tag (some (ok info)) sc h = elim (Bool-cases (info.created == 0)) [
    | inl e ↦ rw e refl
    | inr e ↦ rw e refl
  ]

  scan_tags_calm :
      (repo : Text) (tags : List Text) (sc : Scanned) (s : S)
      → (scan_tags c repo tags sc s).0.panicked ≡ sc.panicked
  unfolding scan_tags
  scan_tags_calm repo [] sc s = refl
  scan_tags_calm repo (tag ∷ tags) sc s =
      scan_tags_calm repo tags _ _ ∙ record_info_calm repo tag _ sc (answers (image_ref repo tag) s)

  scan_catalog_calm :
      (catalog : List Text) (sc : Scanned) (s : S)
      → (scan_catalog c catalog sc s).0.panicked ≡ sc.panicked
  unfolding scan_catalog
  scan_catalog_calm [] sc s = refl
  scan_catalog_calm (repo ∷ catalog) sc s =
      scan_catalog_calm catalog _ _ ∙ scan_tags_calm repo _ sc _

  purge_finishes :
      (dry_run : Bool) (keep : Text → List Text) (catalog : List Text) (s : S)
      → (r : PurgeRunResult) × (t : S) × (purge_unless_panicked c env dry_run keep catalog s
          ≡ some (r, t))
  unfolding purge_unless_panicked
  purge_finishes dry_run keep catalog s =
      rw (scan_catalog_calm catalog nothing_scanned s) (_, _, refl)

  -- A run ends the process in the refresh of the catalog or by a panic only.
  run_finishes :
      (dry_run : Bool) (excluded : Text) (s s' : S)
      → c.refresh_catalog s ≡ some s'
      → (r : PurgeRunResult) × (t : S) × (run_purge_old_tags c env dry_run [] excluded s
          ≡ some (r, t))
  unfolding run_purge_old_tags catalog_of choose_catalog
  run_finishes dry_run excluded s s' e = elim (KeepFile-cases (keep_file env)) [
    | inl (msg, bad) ↦ rw (bad, run_purge_old_tags) (_, _, refl)
    | inr (keep_tags, good) ↦
        rw (good, run_purge_old_tags, e) (purge_finishes dry_run keep_tags _ _)
  ]

module _ {R D J V X : Type 0} (app : App R D J V X) where
  -- Where the client is ready and the manifest of every image index parses, a scheduled purge never
  -- ends the process, whatever happens between its calls and whatever else the registry answers: it has a result, which is then recorded in the database
  -- as it stands behind the run and all that happens meanwhile.
  pub purge_between_finishes :
      (p : Purging X) (s : Server R D)
      → IsParsed app.remote
      → s.client.is_catalog_ready ≡ true
      → (run : PurgeRunResult) × (t : Server R D) × (rest : List (List (Activity X)))
        × (run_purge_old_tags (busy_client app p.job) p.env p.dry_run [] [] (s, p.meantime)
            ≡ some (run, (t, rest)))
        × ((purge_between app p s).database
            ≡ (record_purge_run app.db app.format app.listener app.log_retention app.json run
                (act_each app rest t).database).1)
  unfolding purge_between run_recorded interrupted within purge_client
  purge_between_finishes p s parsed ready =
      let (w, e, _, _) = refresh_catalog_ready app.remote p.job s.client s.registry ready in
      let (run, (t, rest), done) =
        run_finishes (busy_client app p.job) p.env
          (λ ref w. get_image_info_answers app.remote app.client_config parsed ref w.0.registry)
          p.dry_run [] (s, p.meantime) (meanwhile (act_all app) (with_world w s, p.meantime))
          (rw (e, refreshed, put_back) refl) in
      (run, t, rest, done, rw (done, purge_between, run_recorded) refl)
