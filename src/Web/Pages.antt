-- ===== src/Web/Pages.antt =====
-- web.go: who can delete, and which repositories the pages lead to.
use mathlib.Core.Path.{◌≡◌, refl, subst}
use mathlib.Core.Logic.{◌↔◌, inl, inr}
use mathlib.Core.Logic.Or
use mathlib.Core.Bool.{Bool, true, false}
use mathlib.Core.List.{
  List, [], ◌∷◌, ◌++◌, Mem, mem-cons, not-mem-nil, mem-cons_self, mem-cons_of_mem,
}
use native.Mathlib.Omega.{arith}
use registry_ui.Base.Tests.{if◌then◌else◌, Bool-cases}
use registry_ui.Base.Lists.{length, drop}
use registry_ui.Base.Text.{Text, codes, has_prefix, is_empty, contains}
use registry_ui.Common.{item_in_slice, unique_sorted_slice}
use registry_ui.Common.Laws.{item_in_slice_iff}
use registry_ui.Common.Unique.{unique_sorted_slice_lem}
use registry_ui.Client.{Client, ClientConfig, Remote}
use registry_ui.Web.{
  WebConfig, set_user_permissions, first_segment, root_repos, repos_below, show_repos, navigate,
  delete_tag_page,
}

not_admin :
    (user : Text) (admins : List Text) → ¬ Mem user admins → item_in_slice user admins ≡ false
not_admin user admins n = elim (Bool-cases (item_in_slice user admins)) [
  | inl e ↦ absurd (n ((item_in_slice_iff user admins).0 e))
  | inr e ↦ e
]

module _ {R : Type 0} (remote : Remote R) (config : ClientConfig) (web : WebConfig) where
  -- Where not everybody can delete, a request of a user who is no admin changes nothing, neither in
  -- the client nor in the registry.
  pub delete_tag_page_denied :
      (user repo_path tag : Text) (w : Client × R)
      → web.anyone_can_delete_tags ≡ false
      → ¬ Mem user web.admins
      → (delete_tag_page remote config web user repo_path tag w).1 ≡ w
  unfolding delete_tag_page set_user_permissions
  delete_tag_page_denied user repo_path tag w h n =
      let other = not_admin user web.admins n in ground arith

mem-if_true :
    (b : Bool) (x : Text) (rest : List Text) → b ≡ true → Mem x (if b then x ∷ rest else rest)
mem-if_true true x rest h = mem-cons_self
mem-if_true false x rest h = absurd (ground arith)

mem-if_rest :
    (b : Bool) (x y : Text) (rest : List Text) → Mem x rest → Mem x (if b then y ∷ rest else rest)
mem-if_rest true x y rest m = mem-cons_of_mem y m
mem-if_rest false x y rest m = m

repos_below-mem :
    (repo_path r : Text) (repos : List Text)
    → has_prefix r (repo_path ++ codes "/") ≡ true
    → Mem r repos
    → Mem (first_segment (drop (length (repo_path ++ codes "/")) r)) (repos_below repo_path repos)
unfolding repos_below
repos_below-mem repo_path r [] h m = absurd (not-mem-nil m)
repos_below-mem repo_path r (q ∷ repos) h m =
    Or.elim (hlevel) (mem-cons.0 m)
      (λ s.
        let prefix = repo_path ++ codes "/" in
        subst
          (λ j. Mem (first_segment (drop (length prefix) r)) (
            if has_prefix j prefix
            then first_segment (drop (length prefix) j) ∷ repos_below repo_path repos
            else repos_below repo_path repos))
          s
          (mem-if_true (has_prefix r prefix) (first_segment (drop (length prefix) r))
            (repos_below repo_path repos) h))
      (λ n.
        mem-if_rest (has_prefix q (repo_path ++ codes "/"))
          (first_segment (drop (length (repo_path ++ codes "/")) r))
          (first_segment (drop (length (repo_path ++ codes "/")) q)) (repos_below repo_path repos)
          (repos_below-mem repo_path r repos h n))

root_repos-mem :
    (r : Text) (repos : List Text) → Mem r repos → Mem (first_segment r) (root_repos repos)
unfolding root_repos
root_repos-mem r [] m = absurd (not-mem-nil m)
root_repos-mem r (q ∷ repos) m =
    Or.elim (hlevel) (mem-cons.0 m) (λ s. rw s mem-cons_self)
      (λ n. mem-cons_of_mem (first_segment q) (root_repos-mem r repos n))

-- For a path that is not empty and has no colon, the page lists the next part of the name of each
-- repository of the catalog below the path, and it shows tags exactly when the path is a repository
-- itself.
pub navigate_reaches :
    (repo_path r : Text) (catalog : List Text)
    → is_empty repo_path ≡ false
    → contains repo_path b':' ≡ false
    → has_prefix r (repo_path ++ codes "/") ≡ true
    → Mem r catalog
    → (found : List Text) × (show_tags : Bool) × (navigate repo_path catalog
        ≡ show_repos found show_tags)
      × Mem (first_segment (drop (length (repo_path ++ codes "/")) r)) (unique_sorted_slice found)
      × ((show_tags ≡ true) ↔ Mem repo_path catalog)
unfolding navigate
navigate_reaches repo_path r catalog e c h m = (
  repos_below repo_path catalog,
  item_in_slice repo_path catalog,
  rw (e, c) refl,
  ((unique_sorted_slice_lem (repos_below repo_path catalog)).1 _).1
      (repos_below-mem repo_path r catalog h m),
  item_in_slice_iff repo_path catalog,
)
