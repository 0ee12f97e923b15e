-- ===== src/Template/Tests.antt =====
-- Runs of the functions of the templates.
use mathlib.Core.Path.{◌≡◌, refl}
use registry_ui.Base.Int.{pos, negsuc}
use registry_ui.Template.{milliseconds}

milliseconds_positive : milliseconds (pos 1999999) ≡ pos 1
unfolding milliseconds
milliseconds_positive = refl

milliseconds_negative : milliseconds (negsuc 1999998) ≡ negsuc 0
unfolding milliseconds
milliseconds_negative = refl
