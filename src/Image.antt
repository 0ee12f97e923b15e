-- ===== src/Image.antt =====
-- registry/client.go: what is known of one image, and results that can fail.
use Prim.Native.Nat.{ℕ, ◌+◌, ◌%◌, ◌^◌}
use mathlib.Core.Bool.{Bool}
use mathlib.Core.Option.{Option}
use registry_ui.Base.Text.{Text}

-- A value, or the text of the error.
pub data Result {ℓ} (A : Type ℓ) : Type ℓ where
  ok : A → Result A
  err : Text → Result A

-- An `int64` is the bit pattern of its two's complement, below 2 ^ 64.
abbrev pub add64 : ℕ → ℕ → ℕ
add64 a b = (a + b) % 2 ^ 64

-- `ImageInfo`. A time is in nanoseconds since the zero time, so that `IsZero` is a test against 0.
-- `Manifest` and `ConfigFile` stand as the JSON text from which `structToMap` makes its maps.
pub record ImageInfo : Type 0 where
  pub is_image_index : Bool
  pub is_image : Bool
  pub image_ref_repo : Text
  pub image_ref_tag : Text
  pub image_ref_digest : Text
  pub media_type : Text
  pub platforms : Text
  pub manifest : Option Text
  pub image_size : ℕ
  pub created : ℕ
  pub config_image_id : Text
  pub config_file : Option Text
