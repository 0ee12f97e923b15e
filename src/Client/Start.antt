-- ===== src/Client/Start.antt =====
-- registry/client.go: the credentials of `NewClient`, and the loop of `StartBackgroundJobs`.
use mathlib.Core.Bool.{Bool, ◌||◌}
use mathlib.Core.Option.{Option, none, some}
use mathlib.Core.List.{[], ◌∷◌}
use registry_ui.Base.Tests.{◌==◌, if◌then◌else◌}
use registry_ui.Base.Int.{ℤ, pos, ltz}
use registry_ui.Base.Text.{Text, is_empty}
use registry_ui.Client.{Client, JobInfo, Remote}
use registry_ui.Client.Cache.{is_zero, refresh_catalog}

-- The values of `registry` that choose the credentials.
pub record LoginConfig : Type 0 where
  pub auth_with_keychain : Bool
  pub username : Text
  pub password : Text
  pub password_file : Text

pub data Credentials : Type 0 where
  keychain : Credentials
  user_password : Text → Text → Credentials

-- `strings.TrimSuffix(s, "\n")`
unfoldable pub trim_newline : Text → Text
trim_newline [] = []
trim_newline (c ∷ []) = if c == b'\n' then [] else c ∷ []
trim_newline (c ∷ d ∷ s) = c ∷ trim_newline (d ∷ s)

file_password : Text → Option Text → Option Credentials
file_password username none = none
file_password username (some contents) = some (user_password username (trim_newline contents))

-- The choice of `NewClient`, for the contents of files; `none` is a panic.
unfoldable pub choose_credentials : LoginConfig → (Text → Option Text) → Option Credentials
unfolding file_password trim_newline
choose_credentials config read_file =
    if config.auth_with_keychain
    then some keychain
    else if is_empty config.password
    then file_password config.username (read_file config.password_file)
    else some (user_password config.username config.password)

-- How a round of the loop ends: the process exits in `RefreshCatalog`, the loop is left, or it sleeps
-- before the next round. The test is whether `RefreshTags` has been started.
pub data Round (W : Type 0) : Type 0 where
  exited : Round W
  left : Bool → W → Round W
  sleeping : Bool → W → Round W

module _ {R : Type 0} (remote : Remote R) where
  after_refresh : ℤ → ℤ → Bool → Option (Client × R) → Round (Client × R)
  after_refresh catalog_interval tags_interval is_started none = exited
  after_refresh catalog_interval tags_interval is_started (some w) =
      let started = is_started || ltz (pos 0) tags_interval in
      if is_zero catalog_interval then left started w else sleeping started w

  -- A round of `StartBackgroundJobs`, for the two intervals of the configuration.
  unfoldable pub background_round : ℤ → ℤ → JobInfo → Bool → Client × R → Round (Client × R)
  unfolding after_refresh
  background_round catalog_interval tags_interval job is_started w =
      after_refresh catalog_interval tags_interval is_started (refresh_catalog remote job w)
