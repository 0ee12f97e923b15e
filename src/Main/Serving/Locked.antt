-- ===== src/Main/Serving/Locked.antt =====
-- main.go, auth.go: the limit on failed logins in the running program.
use mathlib.Core.List.{List}
use registry_ui.Base.Text.{Text}
