-- ===== src/Main/Serving/LoginTests.antt =====
-- A night in which passwords are guessed, before and during a purge.
use Prim.Native.Nat.{ℕ}
use mathlib.Core.Path.{refl}
use mathlib.Core.Bool.{true, false}
use mathlib.Core.List.{List, [], ◌∷◌}
use registry_ui.Base.Text.{Text, codes, text_eq}
use registry_ui.Base.Map.{lookup}
use registry_ui.Auth.{Clock, LoginRequest, lockout_min}
use registry_ui.Main.Requests.{visiting, at_root, logging_in}
use registry_ui.Main.Serving.{Happening, request, alone, purge, history}
use registry_ui.Main.Serving.Example.{app, by_nobody, nightly, server}
use registry_ui.Main.Serving.Reported.{IsReported, history-IsReported}

abbrev clock_at : ℕ → Clock
clock_at t = record { checked = t; failed = t; rechecked = t }

abbrev post : Text → LoginRequest
post password = record {
  is_post = true;
  ip = codes "a";
  username = codes "root";
  password = password;
}

abbrev guessing_night : List (Happening Text)
guessing_night =
    alone (request (logging_in (clock_at 1) (post (codes "x"))))
    ∷ alone (request (visiting by_nobody at_root))
    ∷ purge (record (nightly false) {
      meantime = (request (logging_in (clock_at 3) (post (codes "y"))) ∷ []) ∷ [];
    })
    ∷ []

login_run : Unit {0}
unfolding lockout_min lookup text_eq
login_run = tt

history-IsReported_example : IsReported app (history app (purge (nightly false) ∷ []) server).client
history-IsReported_example = history-IsReported app (purge (nightly false) ∷ []) server refl
