-- ===== src/Auth/Names.antt =====
-- auth.go: which names a session can have.
use mathlib.Core.Path.{◌≡◌, refl, subst}
use mathlib.Core.Logic.{inl, inr}
use mathlib.Core.Bool.{false}
use mathlib.Core.Option.{Option, none, some}
use mathlib.Core.List.{[], ◌∷◌}
use native.Mathlib.Omega.{arith}
use registry_ui.Base.Tests.{◌==◌, Bool-cases, Option-cases}
use registry_ui.Base.Text.{Text, text_eq, contains}
use registry_ui.Auth.{AuthConfig, split_colon, session_parts, get_session_username}

-- The first part has no colon.
IsFree : Option (Text × Text) → Type 0
IsFree none = Unit
IsFree (some (before, after)) = contains before b':' ≡ false

split_colon-IsFree : (s : Text) → IsFree (split_colon s)
unfolding split_colon IsFree contains
split_colon-IsFree [] = tt
split_colon-IsFree (c ∷ s) = elim (Bool-cases (c == b':')) [
  | inl e ↦ rw (e, split_colon) refl
  | inr e ↦ elim (Option-cases (split_colon s)) [
    | inl n ↦ rw (e, n, split_colon) tt
    | inr ((before, after), n) ↦
        let free : contains before b':' ≡ false = subst IsFree n (split_colon-IsFree s) in
        rw (e, n, split_colon) (ground arith)
  ]
]

module _ (hmac : Text → Text → Text) (config : AuthConfig) where
  session_parts-free :
      (parts : Option (Text × Text))
      → IsFree parts
      → contains (session_parts hmac config parts) b':' ≡ false
  unfolding session_parts IsFree contains
  session_parts-free none h = refl
  session_parts-free (some (username, signature)) h =
      elim (Bool-cases (text_eq signature (hmac config.secret username))) [
        | inl e ↦ rw e h
        | inr e ↦ rw e refl
      ]

  -- No cookie makes a session of a user whose name has a colon: where `auth.username` has one, no
  -- session ever carries it.
  pub get_session_username_no_colon :
      (cookie : Option Text) → contains (get_session_username hmac config cookie) b':' ≡ false
  unfolding get_session_username contains
  get_session_username_no_colon none = refl
  get_session_username_no_colon (some value) =
      session_parts-free (split_colon value) (split_colon-IsFree value)
