-- ===== src/Main/Serving/Purged.antt =====
-- main.go, registry/tasks.go: a scheduled purge while other things happen.
use mathlib.Core.Path.{◌≡◌, refl, subst, ap}
use mathlib.Core.Logic.{◌⊎◌, inl, inr}
use mathlib.Core.Bool.{false}
use mathlib.Core.Option.{Option, none, some}
use mathlib.Core.List.{List, [], ◌∷◌}
use native.Mathlib.Omega.{arith}
use registry_ui.Base.Tests.{Bool-cases, Option-cases}
use registry_ui.Base.Lists.{Any}
use registry_ui.Base.Text.{Text}
use registry_ui.Base.Map.{get_or}
use registry_ui.Client.{Client, JobInfo}
use registry_ui.Client.Cache.{refresh_catalog, fetch_and_cache_tags_for_repo}
use registry_ui.Client.Inspect.{get_image_info}
use registry_ui.Client.Delete.{delete_tag, purge_client}
use registry_ui.Purge.{PurgeRunResult}
use registry_ui.Purge.Interrupted.{meanwhile, refreshed, interrupted}
use registry_ui.Purge.Invariant.{IsKeptByReading}
use registry_ui.Purge.Run.{run_purge_old_tags}
use registry_ui.Purge.Safety.{IsJustified, run-IsJustified, run_dry_run}
use registry_ui.Main.Requests.{App, Server, world, with_world}
use registry_ui.Main.Serving.{
  Activity, Purging, Happening, alone, purge, act, act_all, act_each, put_back, within, busy_client,
  purge_between, run_recorded, happen, history,
}
use registry_ui.Main.Serving.Kept.{IsKeptByCalls, Asks, act-keeps}

module _ {R D J V X : Type 0} (app : App R D J V X) where
  -- The deletion is justified by the settings of the purge.
  abbrev pub IsDue : Purging X → Text → Text → Type 0
  IsDue p = IsJustified (purge_client app.remote app.client_config p.job) p.env [] []

  -- What an event may delete: a tag that a request asks for, or one that is due in a purge that is
  -- not dry.
  abbrev pub IsLicensedBy : Happening X → Text → Text → Type 0
  IsLicensedBy (alone a) repo tag = Asks app a repo tag
  IsLicensedBy (purge p) repo tag =
      Any (Any (λ a. Asks app a repo tag)) p.meantime ⊎ ((p.dry_run ≡ false) × IsDue p repo tag)

  abbrev pub IsLicensed : List (Happening X) → Text → Text → Type 0
  IsLicensed events repo tag = Any (λ event. IsLicensedBy event repo tag) events

  -- What was reported to the busy client was reported to the client.
  IsDue-of_busy :
      (p : Purging X) (repo tag : Text)
      → IsJustified (busy_client app p.job) p.env [] [] repo tag
      → IsDue p repo tag
  unfolding interrupted within purge_client
  IsDue-of_busy p repo tag (created, chosen, dated, reported, old, unmatched, unlisted) = (
    created,
    chosen,
    dated,
    ∥∥₁_rec squash₁ (λ r. ∣ (world r.0.0, r.1, r.2, r.3) ∣₁) reported,
    old,
    unmatched,
    unlisted,
  )

  module _ (P : Client × R → Type 0) (kept : IsKeptByCalls app P) where
    -- The deletions in question keep the property.
    abbrev pub Keeps : (Text → Text → Type 0) → Type 0
    Keeps Allowed =
        (repo tag : Text) (w : Client × R)
        → Allowed repo tag
        → P w
        → P (delete_tag app.remote app.client_config repo tag w).1

    act_all-keeps :
        (activities : List (Activity X)) (s : Server R D)
        → Keeps (λ repo tag. Any (λ a. Asks app a repo tag) activities)
        → P (world s)
        → P (world (act_all app activities s))
    unfolding act_all
    act_all-keeps [] s deletes p = p
    act_all-keeps (a ∷ activities) s deletes p =
        act_all-keeps activities (act app a s) (λ repo tag w h. deletes repo tag w (inr h))
          (act-keeps app P kept a s (λ repo tag w h. deletes repo tag w (inl h)) p)

    act_each-keeps :
        (meantime : List (List (Activity X))) (s : Server R D)
        → Keeps (λ repo tag. Any (Any (λ a. Asks app a repo tag)) meantime)
        → P (world s)
        → P (world (act_each app meantime s))
    unfolding act_each
    act_each-keeps [] s deletes p = p
    act_each-keeps (activities ∷ meantime) s deletes p =
        act_each-keeps meantime (act_all app activities s)
          (λ repo tag w h. deletes repo tag w (inr h))
          (act_all-keeps activities s (λ repo tag w h. deletes repo tag w (inl h)) p)

    -- The property, and that what is still to happen keeps it.
    During : Server R D × List (List (Activity X)) → Type 0
    During (s, meantime) =
        P (world s) × Keeps (λ repo tag. Any (Any (λ a. Asks app a repo tag)) meantime)

    meanwhile-During :
        (s : Server R D) (meantime : List (List (Activity X)))
        → During (s, meantime)
        → During (meanwhile (act_all app) (s, meantime))
    unfolding meanwhile During
    meanwhile-During s [] h = h
    meanwhile-During s (activities ∷ meantime) (p, deletes) = (
      act_all-keeps activities s (λ repo tag w h. deletes repo tag w (inl h)) p,
      λ repo tag w h. deletes repo tag w (inr h),
    )

    refreshed-During :
        (w : Server R D × List (List (Activity X))) (w' : Server R D × List (List (Activity X)))
        (o : Option (Client × R))
        → ((v : Client × R) → o ≡ some v → P v)
        → refreshed (act_all app) (put_back with_world o w.0) w.1 ≡ some w'
        → During w
        → During w'
    unfolding refreshed put_back During
    refreshed-During w w' none into e h = absurd (ground arith)
    refreshed-During w w' (some v) into e h =
        let same : meanwhile (act_all app) (with_world v w.0, w.1) ≡ w' = ap (λ o. get_or o w') e in
        subst During same (meanwhile-During (with_world v w.0) w.1 (into v refl, h.1))

    busy-IsKeptByReading : (job : JobInfo) → IsKeptByReading (busy_client app job) During
    unfolding interrupted within During purge_client
    busy-IsKeptByReading job = record {
      refresh = λ w w' e h.
          refreshed-During w w' (refresh_catalog app.remote job (world w.0))
            (λ v done. kept.refresh job (world w.0) v done h.0) e h;
      fetch = λ repo w h.
          meanwhile-During
            (with_world
              (fetch_and_cache_tags_for_repo app.remote app.client_config repo (world w.0)).1 w.0)
            w.1 (kept.fetch repo (world w.0) h.0, h.1);
      info = λ ref w h.
          meanwhile-During
            (with_world
              (w.0.client, (get_image_info app.remote app.client_config ref w.0.registry).1) w.0)
            w.1 (kept.info ref (world w.0) h.0, h.1);
    }

    busy_delete :
        (p : Purging X)
        → Keeps (IsDue p)
        → (repo tag : Text) (w : Server R D × List (List (Activity X)))
        → IsJustified (busy_client app p.job) p.env [] [] repo tag
        → During w
        → During ((busy_client app p.job).delete_tag repo tag w).1
    unfolding interrupted within During purge_client
    busy_delete p deletes repo tag w due h =
        meanwhile-During
          (with_world (delete_tag app.remote app.client_config repo tag (world w.0)).1 w.0) w.1
          (deletes repo tag (world w.0) (IsDue-of_busy p repo tag due) h.0, h.1)

    purge-keeps :
        (p : Purging X) (s : Server R D)
        → Keeps (IsLicensedBy (purge p))
        → P (world s)
        → P (world (purge_between app p s))
    unfolding purge_between run_recorded During
    purge-keeps p s deletes h =
        elim (Option-cases
          (run_purge_old_tags (busy_client app p.job) p.env p.dry_run [] [] (s, p.meantime))) [
            | inl ended ↦ rw (ended, purge_between, run_recorded) h
            | inr ((run, (t, rest)), done) ↦
                let (q, later) = ended_well run (t, rest) done in
                rw (done, purge_between, run_recorded) (act_each-keeps rest t later q)
          ]
      where
        start : During (s, p.meantime)
        start = (h, λ repo tag w asked. deletes repo tag w (inl asked))

        ended_well :
            (run : PurgeRunResult) (t : Server R D × List (List (Activity X)))
            → run_purge_old_tags (busy_client app p.job) p.env p.dry_run [] [] (s, p.meantime)
              ≡ some (run, t)
            → During t
        ended_well run t done = elim (Bool-cases p.dry_run) [
          | inl dry ↦
              (run_dry_run (busy_client app p.job) p.env [] [] During (busy-IsKeptByReading p.job)
                (s, p.meantime) run t
                (subst
                  (λ b.
                    run_purge_old_tags (busy_client app p.job) p.env b [] [] (s, p.meantime)
                    ≡ some (run, t))
                  dry done)
                start).0
          | inr real ↦
              run-IsJustified (busy_client app p.job) p.env [] [] During
                (busy-IsKeptByReading p.job) (s, p.meantime) run t p.dry_run
                (busy_delete p (λ repo tag w due. deletes repo tag w (inr (real, due)))) done start
        ]

    happen-keeps :
        (event : Happening X) (s : Server R D)
        → Keeps (IsLicensedBy event)
        → P (world s)
        → P (world (happen app event s))
    unfolding happen
    happen-keeps (alone a) s deletes h = act-keeps app P kept a s deletes h
    happen-keeps (purge p) s deletes h = purge-keeps p s deletes h

    -- Whatever happens in the running program, also between the calls of a scheduled purge, every
    -- deletion is licensed, by a request for it that the middleware lets through with the name of a
    -- user who may delete, or by a purge that is not dry and whose settings justify it: a property
    -- of the client and the registry that their other calls keep, and what others do, and that each
    -- licensed deletion keeps, holds at the end if it did before.
    pub history-IsLicensed :
        (events : List (Happening X)) (s : Server R D)
        → ((repo tag : Text) (w : Client × R)
            → IsLicensed events repo tag
            → P w
            → P (delete_tag app.remote app.client_config repo tag w).1)
        → P (world s)
        → P (world (history app events s))
    unfolding history
    history-IsLicensed [] s deletes h = h
    history-IsLicensed (event ∷ events) s deletes h =
        history-IsLicensed events (happen app event s) (λ repo tag w l. deletes repo tag w (inr l))
          (happen-keeps event s (λ repo tag w l. deletes repo tag w (inl l)) h)
