-- ===== src/Web/Options.antt =====
-- web.go: `viewOptions`, the page of the configuration, and that it does not show the secrets.
use mathlib.Core.Bool.{Bool}
use mathlib.Core.Option.{Option, none, some}
use mathlib.Core.List.{List, [], ◌∷◌, ◌++◌, map}
use registry_ui.Base.Tests.{if◌then◌else◌}
use registry_ui.Base.Text.{Text, codes}
use registry_ui.Base.Sort.{sort_strings}
use registry_ui.Base.Map.{Map, lookup, insert, keys, get_or}
use registry_ui.Common.{item_in_slice}

-- `sensitiveKeys`
unfoldable pub sensitive_keys : List Text
sensitive_keys =
    codes "registry.password"
    ∷ codes "registry.password_file"
    ∷ codes "event_listener.bearer_token"
    ∷ codes "event_listener.database_location"
    ∷ codes "auth.password"
    ∷ codes "auth.secret"
    ∷ []

unfoldable pub is_sensitive : Text → Text → Bool
is_sensitive section k = item_in_slice (section ++ codes "." ++ k) sensitive_keys

-- A value of `viper.AllSettings()` under its name: a map, or anything else.
pub data Setting (V : Type 0) : Type 0 where
  nested : Map V → Setting V
  plain : V → Setting V

-- `configSection`
pub record ConfigSection : Type 0 where
  pub name : Text
  pub options : List (Text × Text)

-- `sectionMap[section] = append(sectionMap[section], …)`
unfoldable pub add_option : Text → Text → Text → Map (List (Text × Text)) → Map (List (Text × Text))
add_option section k value m = insert section (get_or (lookup section m) [] ++ (k, value) ∷ []) m

abbrev pub config_section : Map (List (Text × Text)) → Text → ConfigSection
config_section m name = record { name = name; options = get_or (lookup name m) [] }

module _ {V : Type 0} (print : V → Text) where
  -- `fmt.Sprintf("%v", nested[k])`
  abbrev printed : Option V → Text
  printed none = codes "<nil>"
  printed (some v) = print v

  unfoldable pub option_value : Text → Text → Option V → Text
  option_value section k v = if is_sensitive section k then codes "***" else printed v

  -- The loop over the keys of a nested map.
  unfoldable pub add_options :
      Text → Map V → List Text → Map (List (Text × Text)) → Map (List (Text × Text))
  unfolding option_value add_option
  add_options section options [] m = m
  add_options section options (k ∷ ks) m =
      add_options section options ks
        (add_option section k (option_value section k (lookup k options)) m)

  -- The loop over the settings, in the order in which the map is iterated.
  unfoldable pub add_sections :
      Map (Setting V) → Map (List (Text × Text)) → Map (List (Text × Text))
  unfolding add_options
  add_sections [] m = m
  add_sections ((section, nested options) ∷ settings) m =
      add_sections settings (add_options section options (sort_strings (keys options)) m)
  add_sections ((section, plain v) ∷ settings) m =
      add_sections settings (add_option (codes "general") section (print v) m)

  -- `viewOptions`: the sections of the page.
  unfoldable pub view_options : Map (Setting V) → List ConfigSection
  unfolding add_sections
  view_options settings =
      let m = add_sections settings [] in map (config_section m) (sort_strings (keys m))
