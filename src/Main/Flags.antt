-- ===== src/Main/Flags.antt =====
-- main.go: the flags of the command line, the level of the log, and where the configuration is looked
-- for.
use Prim.Native.Nat.{ℕ}
use mathlib.Core.Path.{◌≡◌, refl}
use mathlib.Core.Bool.{Bool, false}
use mathlib.Core.Option.{Option, none, some}
use mathlib.Core.List.{List, [], ◌∷◌, ◌++◌}
use native.Mathlib.Omega.{arith}
use registry_ui.Base.Tests.{◌==◌, if◌then◌else◌}
use registry_ui.Base.Text.{Text, codes, text_eq, is_empty, contains, split}
use registry_ui.Base.Splitting.{first_part, last_part, split-append_first, split-append_last}
use registry_ui.Auth.{drop_slashes, trim_right_slashes}

-- The variables that `flag.Parse` writes.
pub record Flags : Type 0 where
  pub config_file : Text
  pub logging_level : Text
  pub purge_tags : Bool
  pub purge_dry_run : Bool
  pub purge_include_repos : Text
  pub purge_exclude_repos : Text

-- Without arguments.
abbrev pub default_flags : Flags
default_flags = record {
  config_file = codes "config.yml";
  logging_level = codes "info";
  purge_tags = false;
  purge_dry_run = false;
  purge_include_repos = [];
  purge_exclude_repos = [];
}

-- The level of the log, for the library's `ParseLevel` and the level that it starts with: a text that
-- is no level leaves that one.
unfoldable pub log_level : {L : Type 0} → (Text → Option L) → L → Text → L
log_level parse_level start logging_level =
    if text_eq logging_level (codes "info")
    then start
    else elim (parse_level logging_level) [ none ↦ start | some level ↦ level ]

-- `filepath.Base`: the last element of a path, less its slashes at the end.
unfoldable pub file_base : Text → Text
file_base path =
    let last = last_part (split (trim_right_slashes path) b'/') in
    if is_empty path then codes "." else if is_empty last then codes "/" else last

-- The name that `viper` looks for, with any extension that it knows.
unfoldable pub config_name : Text → Text
config_name config_file = first_part (split (file_base config_file) b'.')

-- The directories that it looks in, for `filepath.Dir`.
abbrev pub config_paths : (Text → Text) → Text → List Text
config_paths dir config_file = dir config_file ∷ codes "." ∷ []

-- The name of the environment variable that overrides a key, but for its capitals.
unfoldable pub env_key : Text → Text
env_key [] = []
env_key (c ∷ key) = (if c == b'.' then b'_' else c) ∷ env_key key

drop_slashes_same : (s : Text) → contains s b'/' ≡ false → drop_slashes s ≡ s
unfolding drop_slashes contains
drop_slashes_same [] h = refl
drop_slashes_same (c ∷ []) h = let other : (c == b'/') ≡ false = ground arith in rw other refl
drop_slashes_same (c ∷ d ∷ s) h =
    let rest = drop_slashes_same (d ∷ s) (ground arith) in rw (rest, drop_slashes) refl

drop_slashes-append :
    (x s : Text) (c : ℕ) → drop_slashes (c ∷ s) ≡ c ∷ s → drop_slashes (x ++ c ∷ s) ≡ x ++ c ∷ s
unfolding drop_slashes
drop_slashes-append [] s c h = h
drop_slashes-append (a ∷ []) s c h = rw (h, drop_slashes) refl
drop_slashes-append (a ∷ b ∷ x) s c h =
    let rest = drop_slashes-append (b ∷ x) s c h in rw (rest, drop_slashes) refl

contains-append :
    (x y : Text) (sep : ℕ)
    → contains x sep ≡ false
    → contains y sep ≡ false
    → contains (x ++ y) sep ≡ false
unfolding contains
contains-append [] y sep h k = k
contains-append (c ∷ x) y sep h k =
    let rest = contains-append x y sep (ground arith) k in ground arith

is_empty-append : (x s : Text) (c : ℕ) → is_empty (x ++ c ∷ s) ≡ false
is_empty-append [] s c = refl
is_empty-append (a ∷ x) s c = refl

-- The last element of a path, where it has a character and none of them is a slash.
file_base_last :
    (dir t : Text) → is_empty t ≡ false → contains t b'/' ≡ false → file_base (dir ++ b'/' ∷ t) ≡ t
unfolding file_base trim_right_slashes drop_slashes
file_base_last dir [] e h = absurd (ground arith)
file_base_last dir (c ∷ s) e h =
    let same : drop_slashes (b'/' ∷ c ∷ s) ≡ b'/' ∷ c ∷ s =
      rw (drop_slashes_same (c ∷ s) h, drop_slashes) refl in
    rw
      (
        is_empty-append dir (c ∷ s) b'/',
        drop_slashes-append dir (c ∷ s) b'/' same,
        split-append_last b'/' dir (c ∷ s) h,
      )
      refl

-- The configuration that is looked for has the name of the file up to its first dot, whatever
-- directory the flag names and whatever follows the dot.
pub config_name_lem :
    (dir name extension : Text)
    → contains name b'/' ≡ false
    → contains name b'.' ≡ false
    → contains extension b'/' ≡ false
    → config_name (dir ++ b'/' ∷ (name ++ b'.' ∷ extension)) ≡ name
unfolding config_name contains
config_name_lem dir name extension h k l =
    rw
      (file_base_last dir (name ++ b'.' ∷ extension) (is_empty-append name extension b'.')
        (contains-append name (b'.' ∷ extension) b'/' h l))
      (split-append_first b'.' name extension k)
