-- ===== src/Middleware.antt =====
-- middleware.go: the two middlewares around every handler, and their order in main.go.
use Prim.Native.Nat.{ℕ}
use mathlib.Core.Path.{◌≡◌, ap}
use mathlib.Core.Logic.{inl, inr}
use mathlib.Core.Bool.{Bool}
use mathlib.Core.Option.{Option, none, some}
use mathlib.Core.List.{reverse}
use registry_ui.Base.Tests.{leb, if◌then◌else◌, Bool-cases}
use registry_ui.Base.Text.{Text, codes, has_prefix}

-- How a handler ends: it returns an error or `nil`, or it panics.
pub data Completion : Type 0 where
  finished : Option Text → Completion
  panicking : Completion

-- A handler over the world `W` of the response and of all that the program keeps.
abbrev pub Handler : Type 0 → Type 0
Handler W = W → Completion × W

-- `strings.HasSuffix`
abbrev pub has_suffix : Text → Text → Bool
has_suffix s suffix = has_prefix (reverse s) (reverse suffix)

-- The colour of a status in the log.
pub data StatusColor : Type 0 where
  green : StatusColor
  cyan : StatusColor
  yellow : StatusColor
  red : StatusColor

unfoldable pub status_color : ℕ → StatusColor
status_color status =
    if leb 500 status
    then red
    else if leb 400 status
    then yellow
    else if leb 300 status
    then cyan
    else green

module _ {W : Type 0} where
  -- `recoverMiddleware`: behind a recovered panic the function returns the zero value of its result.
  unfoldable pub recover_middleware : Handler W → Handler W
  recover_middleware next w =
      let (c, w') = next w in
      elim c [ finished e ↦ (finished e, w') | panicking ↦ (finished none, w') ]

  -- `loggingMiddleware`, for the URI of the request; `on_error` is the framework's `ctx.Error`.
  unfoldable pub logging_middleware : (Text → W → W) → Text → Handler W → Handler W
  logging_middleware on_error request_uri next w =
      let (c, w') = next w in
      if has_suffix request_uri (codes "/event-receiver") then (c, w') else elim c [
        | finished none ↦ (finished none, w')
        | finished (some e) ↦ (finished (some e), on_error e w')
        | panicking ↦ (panicking, w')
      ]

  -- The two calls of `e.Use`: the first is the outer one.
  unfoldable pub with_middleware : (Text → W → W) → Text → Handler W → Handler W
  unfolding recover_middleware logging_middleware
  with_middleware on_error request_uri handler =
      logging_middleware on_error request_uri (recover_middleware handler)

  logging_middleware_finished :
      (on_error : Text → W → W) (uri : Text) (next : Handler W) (w w' : W)
      → next w ≡ (finished none, w')
      → logging_middleware on_error uri next w ≡ (finished none, w')
  unfolding logging_middleware
  logging_middleware_finished on_error uri next w w' h =
      elim (Bool-cases (has_suffix uri (codes "/event-receiver"))) [
        | inl b ↦ rw (b, logging_middleware) h
        | inr b ↦
            rw (b, h, logging_middleware) (ap (λ (p : Completion × W). (finished none, p.1)) h)
      ]

  -- What comes of a handler that returns no error, and of one that panics: the framework sees no error.
  pub with_middleware_finished :
      (on_error : Text → W → W) (uri : Text) (handler : Handler W) (w w' : W)
      → handler w ≡ (finished none, w')
      → with_middleware on_error uri handler w ≡ (finished none, w')
  unfolding with_middleware recover_middleware
  with_middleware_finished on_error uri handler w w' h =
      logging_middleware_finished on_error uri (recover_middleware handler) w w'
        (rw (h, recover_middleware) (ap (λ (p : Completion × W). (finished none, p.1)) h))

  pub with_middleware_panicking :
      (on_error : Text → W → W) (uri : Text) (handler : Handler W) (w w' : W)
      → handler w ≡ (panicking, w')
      → with_middleware on_error uri handler w ≡ (finished none, w')
  unfolding with_middleware recover_middleware
  with_middleware_panicking on_error uri handler w w' h =
      logging_middleware_finished on_error uri (recover_middleware handler) w w'
        (rw (h, recover_middleware) (ap (λ (p : Completion × W). (finished none, p.1)) h))
