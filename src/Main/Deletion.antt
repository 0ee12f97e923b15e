-- ===== src/Main/Deletion.antt =====
-- main.go: the route `/__delete-tag` behind `authMiddleware`, and who can delete through it.
use mathlib.Core.Path.{◌≡◌, refl, subst, ap, ◌∙◌}
use mathlib.Core.Logic.{◌≢◌, inl, inr}
use mathlib.Core.Bool.{true, false}
use mathlib.Core.Option.{Option, none, some}
use mathlib.Core.List.{List, [], ◌∷◌, ◌++◌, Mem}
use native.Mathlib.Omega.{arith}
use registry_ui.Base.Tests.{Bool-cases}
use registry_ui.Base.Text.{Text, codes, text_eq, has_prefix}
use registry_ui.Common.{item_in_slice}
use registry_ui.Common.Laws.{item_in_slice_iff}
use registry_ui.Auth.{
  AuthConfig, trim_right_slashes, skip_paths, is_skipped, Decision, proceed, redirect,
  auth_middleware, cookie_value,
}
use registry_ui.Auth.Passage.{MayPass, no_auth, open_path, signed, auth_middleware-MayPass}
use registry_ui.Client.{Client, ClientConfig, Remote}
use registry_ui.Web.{WebConfig, delete_tag_page}
use registry_ui.Web.Pages.{delete_tag_page_denied}
use registry_ui.Main.{normalize_base_path}

-- The user's name in the header, behind the middleware.
abbrev pub header_behind : Option Text → Text → Text
header_behind none header = header
header_behind (some username) header = username

-- The handler of a route of the group `p`.
abbrev pub answered : {W : Type 0} → (Text → Text × W) → Text → W → Decision → Text × W
answered handler header w (redirect url) = (url, w)
answered handler header w (proceed username) = handler (header_behind username header)

-- The path of the route.
abbrev pub deletion_path : AuthConfig → Text
deletion_path auth = normalize_base_path auth.uri_base_path ++ codes "/__delete-tag"

append-text_eq : (s x y : Text) → text_eq (s ++ x) (s ++ y) ≡ text_eq x y
unfolding text_eq
append-text_eq [] x y = refl
append-text_eq (c ∷ s) x y = ground (arith, append-text_eq s x y)

append-has_prefix : (s x y : Text) → has_prefix (s ++ x) (s ++ y) ≡ has_prefix x y
unfolding has_prefix
append-has_prefix [] x y = refl
append-has_prefix (c ∷ s) x y = ground (arith, append-has_prefix s x y)

pub is_skipped-append :
    (s x : Text) (sps : List Text) → is_skipped s (s ++ x) sps ≡ is_skipped [] x sps
unfolding is_skipped
is_skipped-append s x [] = refl
is_skipped-append s x (sp ∷ sps) =
    rw (append-text_eq s x sp, append-has_prefix s x sp, is_skipped-append s x sps) refl

deletion_closed : is_skipped [] (codes "/__delete-tag") skip_paths ≡ false
unfolding is_skipped text_eq has_prefix
deletion_closed = refl

module _ {R : Type 0} (hmac : Text → Text → Text) (auth : AuthConfig) (remote : Remote R)
    (config : ClientConfig) (web : WebConfig) where
  -- `GET /__delete-tag`, for the cookie and the header that the request comes with.
  unfoldable pub guarded_delete_tag :
      Option Text → Text → Text → Text → Client × R → Text × (Client × R)
  guarded_delete_tag cookie header repo_path tag w =
      answered (λ user. delete_tag_page remote config web user repo_path tag w) header w
        (auth_middleware hmac auth (deletion_path auth) cookie)

  changed_by_admin :
      (user repo_path tag : Text) (w : Client × R)
      → web.anyone_can_delete_tags ≡ false
      → (delete_tag_page remote config web user repo_path tag w).1 ≢ w
      → Mem user web.admins
  changed_by_admin user repo_path tag w closed n =
      elim (Bool-cases (item_in_slice user web.admins)) [
        | inl e ↦ (item_in_slice_iff user web.admins).0 e
        | inr e ↦ absurd (
            n (
              delete_tag_page_denied remote config web user repo_path tag w closed
                (λ m. ground (arith, (item_in_slice_iff user web.admins).1 m))))
      ]

  -- The request comes with the cookie of a login of an admin.
  pub record IsByAdmin (cookie : Option Text) : Type 0 where
    pub user : Text
    pub is_named : user ≢ []
    pub is_admin : Mem user web.admins
    pub is_signed : cookie ≡ some (cookie_value hmac auth user)

  pub deletion_not_skipped :
      normalize_base_path auth.uri_base_path ≡ trim_right_slashes auth.uri_base_path
      → is_skipped (trim_right_slashes auth.uri_base_path) (deletion_path auth) skip_paths ≡ false
  deletion_not_skipped normal =
      let base = trim_right_slashes auth.uri_base_path in
      rw normal (is_skipped-append base (codes "/__delete-tag") skip_paths ∙ deletion_closed)

  by_admin :
      (cookie username : Option Text) (header repo_path tag : Text) (w : Client × R)
      → auth.enabled ≡ true
      → normalize_base_path auth.uri_base_path ≡ trim_right_slashes auth.uri_base_path
      → web.anyone_can_delete_tags ≡ false
      → MayPass hmac auth (deletion_path auth) cookie username
      → (delete_tag_page remote config web (header_behind username header) repo_path tag w).1 ≢ w
      → IsByAdmin cookie
  by_admin cookie none header repo_path tag w on normal closed (no_auth _ off) n =
      absurd (ground arith)
  by_admin cookie none header repo_path tag w on normal closed (open_path _ skipped) n =
      absurd (ground (arith, deletion_not_skipped normal))
  by_admin none (some _) header repo_path tag w on normal closed may n = elim may [ ]
  by_admin (some _) (some _) header repo_path tag w on normal closed (signed username named) n =
      record {
        user = username;
        is_named = named;
        is_admin = changed_by_admin username repo_path tag w closed n;
        is_signed = refl;
      }

  -- With the login enabled, a base path that the routes and the login bring to the same form, and
  -- deletion not open to everybody, a request for a deletion that changes anything, in the client or
  -- in the registry, carries the cookie that is signed for an admin, whatever its header says.
  pub guarded_delete_tag-IsByAdmin :
      (cookie : Option Text) (header repo_path tag : Text) (w : Client × R)
      → auth.enabled ≡ true
      → normalize_base_path auth.uri_base_path ≡ trim_right_slashes auth.uri_base_path
      → web.anyone_can_delete_tags ≡ false
      → (guarded_delete_tag cookie header repo_path tag w).1 ≢ w
      → IsByAdmin cookie
  unfolding guarded_delete_tag
  guarded_delete_tag-IsByAdmin cookie header repo_path tag w on normal closed n =
      go (auth_middleware hmac auth (deletion_path auth) cookie) refl
    where
      handler : Text → Text × (Client × R)
      handler user = delete_tag_page remote config web user repo_path tag w

      go :
          (d : Decision)
          → auth_middleware hmac auth (deletion_path auth) cookie ≡ d
          → IsByAdmin cookie
      go (redirect url) e = absurd (n (ap (λ d. (answered handler header w d).1) e))
      go (proceed username) e =
          by_admin cookie username header repo_path tag w on normal closed
            (auth_middleware-MayPass hmac auth (deletion_path auth) cookie username e)
            (subst (λ d. (answered handler header w d).1 ≢ w) e n)
