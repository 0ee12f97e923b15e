-- ===== src/Client/Digest.antt =====
-- registry/client.go: `DeleteTag` deletes an image.
use mathlib.Core.Path.{◌≡◌, refl, ap, sym, ◌∙◌}
use mathlib.Core.Option.{Option}
use mathlib.Core.List.{◌++◌}
use registry_ui.Base.Text.{Text, codes}
use registry_ui.Image.{Result, ok, err}
use registry_ui.Client.{Client, ClientConfig, Remote, Reference, Descriptor}
use registry_ui.Client.Delete.{reference_of, delete_reference, delete_described, delete_tag}

module _ {R : Type 0} (remote : Remote R) (config : ClientConfig) where
  -- The error and the registry behind a deletion.
  abbrev outcome : {W : Type 0} → Option Text × (W × R) → Option Text × R
  outcome r = (r.0, r.1.1)

  delete_reference-outcome :
      (repo tag tag' : Text) (ref : Result Reference) (w : Client × R)
      → outcome (delete_reference remote config repo tag ref w)
        ≡ outcome (delete_reference remote config repo tag' ref w)
  unfolding delete_reference
  delete_reference-outcome repo tag tag' (err e) w = refl
  delete_reference-outcome repo tag tag' (ok ref) w = refl

  delete_tag_described :
      (repo tag : Text) (ref : Reference) (d : Descriptor) (c : Client) (s s' : R)
      → reference_of remote config (repo ++ codes ":" ++ tag) ≡ ok ref
      → remote.get ref s ≡ (ok d, s')
      → delete_tag remote config repo tag (c, s)
        ≡ delete_reference remote config repo tag
            (reference_of remote config (ref.repository_str ++ codes "@" ++ d.digest))
            (c, s')
  unfolding delete_tag delete_described
  delete_tag_described repo tag ref d c s s' e got =
      rw (e, delete_tag)
        (ap
          (λ (p : Result Descriptor × R). delete_described remote config repo tag ref p.0 (c, p.1))
          got)

  -- The deletion of a tag does to the registry what the deletion of any other tag does that stands for
  -- the same image of the repository: whichever of the two is deleted, the library gets the same
  -- reference by digest, and the error is the same.
  pub delete_tag-digest :
      (repo tag tag' : Text) (ref ref' : Reference) (d d' : Descriptor) (c : Client) (s s' : R)
      → reference_of remote config (repo ++ codes ":" ++ tag) ≡ ok ref
      → reference_of remote config (repo ++ codes ":" ++ tag') ≡ ok ref'
      → remote.get ref s ≡ (ok d, s')
      → remote.get ref' s ≡ (ok d', s')
      → ref.repository_str ≡ ref'.repository_str
      → d.digest ≡ d'.digest
      → ((delete_tag remote config repo tag (c, s)).0
          ≡ (delete_tag remote config repo tag' (c, s)).0)
        × ((delete_tag remote config repo tag (c, s)).1.1
            ≡ (delete_tag remote config repo tag' (c, s)).1.1)
  delete_tag-digest repo tag tag' ref ref' d d' c s s' e e' got got' same_repo same_digest =
      let one = delete_tag_described repo tag ref d c s s' e got in
      let other = delete_tag_described repo tag' ref' d' c s s' e' got' in
      let image : ref.repository_str ++ codes "@" ++ d.digest
          ≡ ref'.repository_str ++ codes "@" ++ d'.digest =
        λ i. same_repo i ++ codes "@" ++ same_digest i in
      let both =
        ap outcome one
        ∙ (ap
              (λ x.
                outcome
                  (delete_reference remote config repo tag (reference_of remote config x) (c, s')))
              image
            ∙ (delete_reference-outcome repo tag tag'
                  (reference_of remote config (ref'.repository_str ++ codes "@" ++ d'.digest))
                  (c, s')
                ∙ sym (ap outcome other))) in
      (ap (λ r. r.0) both, ap (λ r. r.1) both)
