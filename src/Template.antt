-- ===== src/Template.antt =====
-- template.go: `Render`, and the functions that the templates call. The template engine, the printing
-- of numbers and times, and the arithmetic of float64 are parameters.
pub mod Renderer
mod Tests
use Prim.Native.Nat.{ℕ, zero, suc, ◌+◌, ◌/◌, ◌^◌, ◌*◌}
use mathlib.Core.Bool.{Bool, true, false}
use mathlib.Core.Option.{Option, none, some}
use mathlib.Core.List.{List, [], ◌∷◌, ◌++◌}
use registry_ui.Base.Tests.{ltb, if◌then◌else◌}
use registry_ui.Base.Int.{ℤ, pos, negsuc, ltz}
use registry_ui.Base.Text.{Text, codes}
use registry_ui.Base.Map.{Map}
use registry_ui.Common.Size
use registry_ui.Common.Size.{Float}
use registry_ui.Image.{Result, ok, err}

-- A value of a template: what the functions tell apart. `F` is float64.
pub data Value (F : Type 0) : Type 0 where
  int64 : ℤ → Value F
  float64 : F → Value F
  text : Text → Value F
  time : ℕ → Value F
  duration : ℤ → Value F
  other : Value F

-- The engine over its variables `V`, and the printing: `execute` gives the text, `parse_time` takes
-- the layout first, and `format_time` prints in the local zone.
pub record Engine (F V T : Type 0) : Type 0 where
  pub get_template : Text → Result T
  pub execute : T → Map V → Result Text
  pub of_int : ℤ → F
  pub zero_float : F
  pub float : Float F
  pub parse_time : Text → Text → Option ℕ
  pub format_time : ℕ → Text
  pub print_int : ℤ → Text
  pub print_seconds : ℤ → Text

-- `d.Milliseconds()`: the division of nanoseconds rounds to zero.
unfoldable pub milliseconds : ℤ → ℤ
milliseconds (pos n) = pos (n / 10 ^ 6)
milliseconds (negsuc n) = elim ((n + 1) / 10 ^ 6) [ zero ↦ pos 0 | suc m ↦ negsuc m ]

module _ {F V T : Type 0} (engine : Engine F V T) where
  -- `Render`, for variables that are there or not; an error is a panic.
  render_with : T → Map V → Text → Result Text
  render_with t vars name = elim (engine.execute t vars) [
    | err x ↦ err (codes "error rendering template " ++ name ++ codes ": " ++ x)
    | ok output ↦ ok output
  ]

  vars_or_none : Option (Map V) → Map V
  vars_or_none none = []
  vars_or_none (some vars) = vars

  unfoldable pub render : Text → Option (Map V) → Result Text
  unfolding render_with vars_or_none
  render name vars = elim (engine.get_template name) [
    | err x ↦ err (codes "fatal error template file: " ++ x)
    | ok t ↦ render_with t (vars_or_none vars) name
  ]

  -- The size that a value stands for: any other value is 0.
  unfoldable pub size_of : Value F → F
  size_of (int64 i) = engine.of_int i
  size_of (float64 x) = x
  size_of (text t) = engine.zero_float
  size_of (time t) = engine.zero_float
  size_of (duration d) = engine.zero_float
  size_of other = engine.zero_float

  -- `pretty_size`; `none` is a panic.
  unfoldable pub pretty_size : Value F → Option Text
  unfolding size_of
  pretty_size value = Size.pretty_size engine.float (size_of value)

  -- The time in a text: the layout of SQLite, then that of MySQL, then the zero time.
  or_else_time : Option ℕ → Option ℕ → ℕ
  or_else_time (some t) mysql = t
  or_else_time none (some t) = t
  or_else_time none none = 0

  unfoldable pub parsed_time : Text → ℕ
  unfolding or_else_time
  parsed_time t =
      or_else_time (engine.parse_time (codes "2006-01-02T15:04:05Z") t)
        (engine.parse_time (codes "2006-01-02 15:04:05") t)

  -- `pretty_time`; `none` is the panic of the type assertion.
  unfoldable pub pretty_time : Value F → Option Text
  unfolding parsed_time
  pretty_time (text t) = some (engine.format_time (parsed_time t))
  pretty_time (time t) = some (engine.format_time t)
  pretty_time (int64 i) = none
  pretty_time (float64 x) = none
  pretty_time (duration d) = none
  pretty_time other = none

  -- `pretty_duration`, in nanoseconds; `none` is the panic of the type assertion.
  unfoldable pub pretty_duration : Value F → Option Text
  unfolding milliseconds
  pretty_duration (duration d) =
      if ltz d (pos (10 ^ 9))
      then some (engine.print_int (milliseconds d) ++ codes "ms")
      else some (engine.print_seconds d ++ codes "s")
  pretty_duration (int64 i) = none
  pretty_duration (float64 x) = none
  pretty_duration (text t) = none
  pretty_duration (time t) = none
  pretty_duration other = none
