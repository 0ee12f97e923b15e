-- ===== src/Template/Renderer.antt =====
-- template.go, version.go: what `setupRenderer` gives to the template engine.
use mathlib.Core.Bool.{Bool}
use mathlib.Core.Option.{Option}
use mathlib.Core.List.{List, [], ◌∷◌}
use registry_ui.Base.Text.{Text, codes}
use registry_ui.Base.Map.{Map}
use registry_ui.Common.{sorted_map_keys}
use registry_ui.Template.{Value, Engine, pretty_size, pretty_time, pretty_duration}

-- `version`
abbrev pub version : Text
version = codes "0.12.0"

-- A global of the templates: a text, a function on values, where `none` is a panic, or the function
-- on maps, of which it reads the keys.
pub data Global (F : Type 0) : Type 1 where
  constant : Text → Global F
  printer : (Value F → Option Text) → Global F
  keys_of : ((V : Type 0) → Map V → List Text) → Global F

-- The set of templates: whether it is in the engine's development mode, its directory, and its
-- globals.
pub record Renderer (F : Type 0) : Type 1 where
  pub in_development_mode : Bool
  pub directory : Text
  pub globals : List (Text × Global F)

-- `setupRenderer`, for `debug.templates`, the base path and `registry.hostname`.
unfoldable pub setup_renderer : {F V T : Type 0} → Engine F V T → Bool → Text → Text → Renderer F
setup_renderer engine debug_templates base_path registry_host = record {
  in_development_mode = debug_templates;
  directory = codes "templates";
  globals =
      (codes "version", constant version)
      ∷ (codes "basePath", constant base_path)
      ∷ (codes "registryHost", constant registry_host)
      ∷ (codes "pretty_size", printer (pretty_size engine))
      ∷ (codes "pretty_time", printer (pretty_time engine))
      ∷ (codes "pretty_duration", printer (pretty_duration engine))
      ∷ (codes "sort_map_keys", keys_of (λ V m. sorted_map_keys m))
      ∷ [];
}
