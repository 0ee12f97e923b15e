-- ===== src/Client/Agreement.antt =====
-- registry/client.go: what `GetImageInfo` returns, beside `GetImageCreated`.
use Prim.Native.Nat.{ℕ}
use mathlib.Core.Path.{◌≡◌, refl, sym, ap, ◌∙◌}
use mathlib.Core.Logic.{inl, inr}
use mathlib.Core.Bool.{Bool, true, false}
use mathlib.Core.Option.{Option, none, some}
use mathlib.Core.List.{◌++◌}
use native.Mathlib.Omega.{arith}
use registry_ui.Base.Tests.{Bool-cases}
use registry_ui.Base.Text.{Text, codes}
use registry_ui.Image.{Result, ok, err, ImageInfo}
use registry_ui.Client.{ClientConfig, Remote, Reference, Descriptor, ImageHandle, IndexManifest}
use registry_ui.Client.Caching.{Result-cases}
use registry_ui.Client.Inspect.{
  described, extract_created_from_annotations, created_of, image_details, index_details, details,
  get_image_info, created_in, created_by, get_image_created,
}

image_of : Option (Result ImageInfo) → Bool
image_of none = false
image_of (some (err e)) = false
image_of (some (ok ii)) = ii.is_image

created_result : Result ImageInfo → ℕ
created_result (err e) = 0
created_result (ok ii) = ii.created

created_answer : Option (Result ImageInfo) → ℕ
created_answer none = 0
created_answer (some info) = created_result info

index_details-image :
    (idx : Result (Option IndexManifest)) (ref : Reference) (descr : Descriptor)
    → image_of (index_details idx (described ref descr)) ≡ false
unfolding index_details described image_of
index_details-image (err e) ref descr = refl
index_details-image (ok none) ref descr = refl
index_details-image (ok (some idx)) ref descr = refl

module _ {R : Type 0} (remote : Remote R) (config : ClientConfig) where
  created_by_image : Result ImageHandle → ℕ
  created_by_image image = elim image [
    | err e ↦ 0
    | ok img ↦ created_in remote config img.config_file img
  ]

  image_details-created :
      (image : Result ImageHandle) (ii : ImageInfo)
      → created_result (image_details remote image ii) ≡ created_by_image image
  unfolding image_details created_in created_result created_by_image created_of
      extract_created_from_annotations
  image_details-created (err e) ii = refl
  image_details-created (ok img) ii = elim (Result-cases img.config_file) [
    | inl (cfg, e) ↦ rw (e, image_details, created_in) refl
    | inr (x, e) ↦ rw (e, image_details, created_in) refl
  ]

  details-created :
      (ref : Reference) (descr : Result Descriptor)
      → image_of (details remote config ref descr) ≡ true
      → created_answer (details remote config ref descr) ≡ created_by remote config descr
  unfolding details created_by created_by_image image_of created_result created_answer described
  details-created ref (err e) h = refl
  details-created ref (ok descr) h = elim (Bool-cases descr.is_index) [
    | inl e ↦
        let opened : image_of (details remote config ref (ok descr))
            ≡ image_of (index_details descr.image_index (described ref descr)) =
          rw (e, details) refl in
        absurd (ground (arith, opened, index_details-image descr.image_index ref descr, h))
    | inr e ↦ elim (Bool-cases descr.is_image) [
      | inl i ↦ rw (e, i, details) (image_details-created descr.image (described ref descr))
      | inr i ↦
          let opened : image_of (details remote config ref (ok descr)) ≡ false =
            rw (e, i, details) refl in
          absurd (ground (arith, opened, h))
    ]
  ]

  -- Where `GetImageInfo` returns an image, `GetImageCreated` returns its creation time for the same
  -- reference in the same state.
  pub get_image_created_agrees :
      (image_ref : Text) (s : R) (ii : ImageInfo)
      → (get_image_info remote config image_ref s).0 ≡ some (ok ii)
      → ii.is_image ≡ true
      → (get_image_created remote config image_ref s).0 ≡ ii.created
  unfolding get_image_info get_image_created image_of created_result created_answer
  get_image_created_agrees image_ref s ii h k =
      elim (Result-cases (remote.parse_reference (config.hostname ++ codes "/" ++ image_ref))) [
        | inl (ref, e) ↦
            let descr = (remote.get ref s).0 in
            let opened : (get_image_info remote config image_ref s).0
                ≡ details remote config ref descr =
              rw (e, get_image_info) refl in
            let same : details remote config ref descr ≡ some (ok ii) = sym opened ∙ h in
            rw (e, get_image_created)
              (sym (details-created ref descr (ap image_of same ∙ k)) ∙ ap created_answer same)
        | inr (x, e) ↦
            let opened : ◌≡◌ {A = Option (Result ImageInfo)}
                (get_image_info remote config image_ref s).0 (some (err x)) =
              rw (e, get_image_info) refl in
            let same : ◌≡◌ {A = Option (Result ImageInfo)} (some (err x)) (some (ok ii)) =
              sym opened ∙ h in
            absurd (ground arith)
      ]
