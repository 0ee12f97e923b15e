-- ===== src/Main/Serving/DeletionTests.antt =====
-- Nights with and without an admin, and what is deleted in them.
use Prim.Native.Nat.{◌*◌}
use mathlib.Core.Path.{subst, ◌≡◌, refl, ap, sym}
use mathlib.Core.Logic.{◌≢◌, ∥∥₁_elim, inl, inr}
use mathlib.Core.Bool.{true, false}
use mathlib.Core.Option.{Option, none}
use mathlib.Core.List.{List, [], ◌∷◌}
use native.Mathlib.Omega.{arith}
use registry_ui.Base.Lists.{All}
use registry_ui.Base.Int.{◌<ℤ◌, pos}
use registry_ui.Base.Text.{Text, codes}
use registry_ui.Base.TextLaws.{text_eq_refl}
use registry_ui.Purge.Select.{day, days_old}
use registry_ui.Main.Requests.{
  Visit, Page, at_root, at_path, at_purge_log, at_statistics, at_options, at_deletion, logging_in,
  logging_out, notifying, visiting,
}
use registry_ui.Main.Serving.{
  Happening, catalog_round, tags_round, elsewhere, Activity, request, alone, purge, history, within,
}
use registry_ui.Client.Delete.{
  purge_client, delete_tag, delete_described, delete_reference, uncache_tag,
}
use registry_ui.Purge.Scan.{image_ref}
use registry_ui.Client.Inspect.{get_image_info, details, image_details, created_of}
use registry_ui.Main.Serving.Example.{
  normal_ui, created_at, app, server, by_root, by_nobody, nightly,
}
use registry_ui.Main.Serving.Kept.{Asks}
use registry_ui.Main.Serving.Purged.{IsDue, IsLicensed, history-IsLicensed}
use registry_ui.Main.Serving.Quiet.{
  IsNoAdmin, IsAllowed-IsByAdmin, IsKeptByLibrary, IsQuiet, registry-IsKeptByCalls, history_quiet,
}

-- What is still there in the registry.
abbrev SparesNew : List Text → Type 0
SparesNew s = All (λ ref. ref ≢ codes "app:new") s

SparesNew-IsKept : IsKeptByLibrary app SparesNew
SparesNew-IsKept = record {
  catalogger = λ s q. q;
  list = λ repo s q. q;
  get = λ ref s q. q;
  others = λ x s q. q;
}

-- The page of a request, and its cookie.
page_of : Activity Text → Page
page_of (request (visiting v page)) = page
page_of (request (logging_in clock r)) = at_root
page_of (request logging_out) = at_root
page_of (request (notifying authorization body)) = at_root
page_of (catalog_round job) = at_root
page_of (tags_round job) = at_root
page_of (elsewhere x) = at_root

cookie_of : Activity Text → Option Text
cookie_of (request (visiting v page)) = v.cookie
cookie_of (request (logging_in clock r)) = none
cookie_of (request logging_out) = none
cookie_of (request (notifying authorization body)) = none
cookie_of (catalog_round job) = none
cookie_of (tags_round job) = none
cookie_of (elsewhere x) = none

tag_of : Page → Text
tag_of at_root = []
tag_of (at_path param) = []
tag_of at_purge_log = []
tag_of at_statistics = []
tag_of at_options = []
tag_of (at_deletion repo tag) = image_ref repo tag

asked_tag :
    (v : Visit) (page : Page) (repo tag : Text)
    → Asks app (request (visiting v page)) repo tag
    → image_ref repo tag ≡ tag_of page
unfolding page_of tag_of
asked_tag v page repo tag (_, e, _) = sym (ap (λ a. tag_of (page_of a)) e)

no_admin : (v : Visit) → v.cookie ≡ none → IsNoAdmin app v
no_admin v e admin = let signed = admin.is_signed in absurd (ground arith)

nobody-Asks :
    (page : Page) (repo tag : Text) → ¬ Asks app (request (visiting by_nobody page)) repo tag
unfolding cookie_of
nobody-Asks page repo tag (v, e, allowed) = no_admin v (sym (ap cookie_of e)) (
    IsAllowed-IsByAdmin app refl normal_ui refl v.cookie allowed.username v.header repo tag
      allowed.may_pass allowed.may_delete)

young : ¬ (pos 30 <ℤ days_old (100 * day) (90 * day))
unfolding days_old
young h = omega arith

-- The new tag is not due.
due_old :
    (repo tag : Text) → IsDue app (nightly false) repo tag → image_ref repo tag ≢ codes "app:new"
unfolding within purge_client get_image_info details image_details created_of
due_old repo tag (created, _, _, reported, old, _, _) e =
    ∥∥₁_elim reported (λ x y. absurd x)
      λ (w, info, q, r).
        let here : created_at (image_ref repo tag) ≡ 90 * day =
          rw (e, text_eq_refl (codes "app:new")) in
        let same : created ≡ 90 * day = ground arith in
        young (subst (λ n. pos 30 <ℤ days_old (100 * day) n) same old)

licensed_spares :
    (repo tag : Text)
    → IsLicensed app (purge (nightly false) ∷ []) repo tag
    → image_ref repo tag ≢ codes "app:new"
unfolding tag_of
licensed_spares repo tag (inl (inl (inl (inl asked)))) h =
    absurd
      (ground (arith, asked_tag by_root (at_deletion (codes "app") (codes "tmp")) repo tag asked))
licensed_spares repo tag (inl (inl (inr (inl (inl asked))))) h =
    nobody-Asks (at_deletion (codes "app") (codes "new")) repo tag asked
licensed_spares repo tag (inl (inl (inl (inr none_else)))) h = absurd none_else
licensed_spares repo tag (inl (inl (inr (inl (inr none_else))))) h = absurd none_else
licensed_spares repo tag (inl (inl (inr (inr none_else)))) h = absurd none_else
licensed_spares repo tag (inl (inr (real, due))) h = due_old repo tag due h
licensed_spares repo tag (inr none_else) h = absurd none_else

history-IsLicensed_example : SparesNew (history app (purge (nightly false) ∷ []) server).registry
unfolding delete_tag delete_described delete_reference uncache_tag
history-IsLicensed_example =
    history-IsLicensed app (λ w. SparesNew w.1)
      (registry-IsKeptByCalls app SparesNew SparesNew-IsKept) (purge (nightly false) ∷ []) server
      (λ repo tag w licensed q. (licensed_spares repo tag licensed, q)) tt

-- A night without an admin, in which the purge is dry.
abbrev quiet_night : List (Happening Text)
quiet_night =
    alone (request (visiting by_nobody (at_deletion (codes "app") (codes "new"))))
    ∷ purge (record (nightly true) { meantime = [] })
    ∷ []

quiet_night-IsQuiet : All (IsQuiet app) quiet_night
unfolding cookie_of
quiet_night-IsQuiet = ((λ v repo tag e. no_admin v (sym (ap cookie_of e))), ((refl, tt), tt))

history_quiet_example : SparesNew (history app quiet_night server).registry
history_quiet_example =
    history_quiet app refl normal_ui refl SparesNew SparesNew-IsKept quiet_night server
      quiet_night-IsQuiet tt
