-- ===== src/Oci/Published.antt =====
-- What `publish_image` of ci/glci/oci.py returns, and for which releases it raises.
use gardenlinux.Prelude.{
  ℕ, ◌≡◌, refl, sym, ap, subst, ◌∙◌, String, ◌<>◌, Bool, true, Option, some, List, [], ◌∷◌,
  if◌then◌else◌, take_chars,
}
use gardenlinux.Prelude.Result.{ok, >>=-ok, ok_injective}
use gardenlinux.Prelude.Action.{>>=-returned, lift-returned}
use gardenlinux.Model.Features.{FeatureDescriptor}
use gardenlinux.Model.Flavours.{Flavour}
use gardenlinux.Model.Manifests.{
  OnlineReleaseManifest, oci_image, with_published, identifier_flavour, path_by_suffix,
}
use gardenlinux.Oci.Identifier.{
  Holding, as_member, as_value, calculate_modifiers, join_parts, architecture_part,
  flavour_identifier,
}
use gardenlinux.Oci.Layer.{Gzip, Bytes}
use gardenlinux.Oci.{Registry, container_architecture, publish_from_release, publish_image}
use gardenlinux.Oci.Tags.{IsLawfulRegistry, publish_container_image_from_tarfile-there}

-- A member of an enumeration is not joined with the names of the features.
flavour_identifier-as_value :
    (features : List FeatureDescriptor) (depth : ℕ) (holding : Holding) (f : Flavour) (s : String)
    → flavour_identifier features depth holding f true ≡ ok s
    → holding ≡ as_value
unfolding flavour_identifier join_parts architecture_part
flavour_identifier-as_value features depth as_value f s h = refl
flavour_identifier-as_value features depth as_member f s h =
    let (calculated, e₁, h₁) = >>=-ok (calculate_modifiers features depth f) _ h in cc h₁

-- The reference of an image: the prefix, the version, the commit and the flavour.
abbrev pub reference_of : String → OnlineReleaseManifest → String → String
reference_of image_prefix release identifier =
    image_prefix
    <> (":"
        <> (release.version
            <> ("-" <> (take_chars 6 release.build_committish <> ("-" <> identifier)))))

module _ (Z : Gzip) (R : Registry Z) where
  open R use {World}

  -- The texts that the reference is made of, and the publishing of the tar file.
  record Returned (features : List FeatureDescriptor) (depth : ℕ) (holding : Holding)
      (image_prefix : String) (release_build : Bool) (release release' : OnlineReleaseManifest)
      (w w' : World) : Type 0 where
    flavour : Flavour
    identifier : String
    its_flavour : identifier_flavour features depth release.identifier ≡ ok flavour
    its_identifier : flavour_identifier features depth holding flavour true ≡ ok identifier
    answer : String × ℕ
    tarfile :
        publish_from_release Z R holding release
          (reference_of image_prefix release identifier)
          (if release_build then (release.version <> ("-" <> identifier)) ∷ [] else [])
          w
        ≡ (ok answer, w')
    whole :
        release' ≡ with_published (oci_image (reference_of image_prefix release identifier)) release

  publish_image-Returned :
      (features : List FeatureDescriptor) (depth : ℕ) (holding : Holding)
      (release release' : OnlineReleaseManifest) (image_prefix : String) (release_build : Bool)
      (w w' : World)
      → publish_image Z R features depth holding release image_prefix release_build w
        ≡ (ok release', w')
      → Returned features depth holding image_prefix release_build release release' w w'
  unfolding publish_image
  publish_image-Returned features depth holding release release' image_prefix release_build w w' e =
      let (f, e₁, k₁) =
        lift-returned (identifier_flavour features depth release.identifier) _ w e in
      let (s, e₂, k₂) = lift-returned (flavour_identifier features depth holding f true) _ w k₁ in
      let tags = if release_build then (release.version <> ("-" <> s)) ∷ [] else [] in
      let (answer, u, e₃, k₃) =
        >>=-returned
          (publish_from_release Z R holding release (reference_of image_prefix release s) tags) _ w
          k₂ in
      record {
        flavour = f;
        identifier = s;
        its_flavour = e₁;
        its_identifier = e₂;
        answer = answer;
        tarfile = e₃ ∙ ap (λ v. (ok answer, v)) (ap (λ p. p.1) k₃);
        whole = sym (ok_injective (ap (λ p. p.0) k₃));
      }

  -- The result is the release with a reference, whatever the registry does.
  pub publish_image-with_published :
      (features : List FeatureDescriptor) (depth : ℕ) (holding : Holding)
      (release release' : OnlineReleaseManifest) (image_prefix : String) (release_build : Bool)
      (w w' : World)
      → publish_image Z R features depth holding release image_prefix release_build w
        ≡ (ok release', w')
      → (reference : String) × (release' ≡ with_published (oci_image reference) release)
  publish_image-with_published features depth holding release release' image_prefix release_build w
        w' e =
      let d =
        publish_image-Returned features depth holding release release' image_prefix release_build w
          w' e in
      (reference_of image_prefix release d.identifier, d.whole)

module _ (Z : Gzip) (R : Registry Z) (manifest_of : R.World → String → Option Bytes) where
  open R use {World}

  -- A release that is published as a container image: its architecture is held as a text, the
  -- registry has a manifest under the reference of its image, and the result is the release with
  -- that reference.
  pub record IsPublished (features : List FeatureDescriptor) (depth : ℕ) (holding : Holding)
      (image_prefix : String) (release release' : OnlineReleaseManifest) (w' : World) : Type 0 where
    pub by_value : holding ≡ as_value
    pub flavour : Flavour
    pub identifier : String
    pub its_flavour : identifier_flavour features depth release.identifier ≡ ok flavour
    pub its_identifier : flavour_identifier features depth as_value flavour true ≡ ok identifier
    pub manifest : Bytes
    pub in_registry :
        manifest_of w' (R.normalise_image_reference (reference_of image_prefix release identifier))
        ≡ some manifest
    pub whole :
        release' ≡ with_published (oci_image (reference_of image_prefix release identifier)) release

  module _ (lawful : IsLawfulRegistry Z R manifest_of) where
    publish_from_release-there :
        (holding : Holding) (release : OnlineReleaseManifest) (reference : String)
        (tags : List String) (answer : String × ℕ) (w w' : World)
        → publish_from_release Z R holding release reference tags w ≡ (ok answer, w')
        → (manifest : Bytes) × (manifest_of w' (R.normalise_image_reference reference)
            ≡ some manifest)
    unfolding publish_from_release
    publish_from_release-there holding release reference tags (digest, size) w w' e =
        let (path, e₁, k₁) = lift-returned (path_by_suffix "rootfs.tar.xz" release.paths) _ w e in
        let (reads, u, e₂, k₂) = >>=-returned (R.download path.s3_bucket_name path.s3_key) _ w k₁ in
        let (architecture, e₃, k₃) =
          lift-returned (container_architecture holding release.architecture) _ u k₂ in
        let (manifest, there, _, _) =
          publish_container_image_from_tarfile-there Z R manifest_of lawful reads reference
            architecture tags digest size u w' k₃ in
        (manifest, there)

    -- Where a registry behaves as documented, publishing the container image of a release returns
    -- only for one that holds its architecture as a text, as upload_results_step has it and a
    -- release from the store has not. The registry then has a manifest under the reference that is
    -- made of the prefix, the version, the commit and the flavour of the release, and the result is
    -- the release with that reference.
    pub publish_image-IsPublished :
        (features : List FeatureDescriptor) (depth : ℕ) (holding : Holding)
        (release release' : OnlineReleaseManifest) (image_prefix : String) (release_build : Bool)
        (w w' : World)
        → publish_image Z R features depth holding release image_prefix release_build w
          ≡ (ok release', w')
        → IsPublished features depth holding image_prefix release release' w'
    publish_image-IsPublished features depth holding release release' image_prefix release_build w
          w' e =
        let d =
          publish_image-Returned Z R features depth holding release release' image_prefix
            release_build w w' e in
        let value =
          flavour_identifier-as_value features depth holding d.flavour d.identifier
            d.its_identifier in
        let (manifest, there) =
          publish_from_release-there holding release
            (reference_of image_prefix release d.identifier) _ d.answer w w' d.tarfile in
        record {
          by_value = value;
          flavour = d.flavour;
          identifier = d.identifier;
          its_flavour = d.its_flavour;
          its_identifier =
              subst (λ x. flavour_identifier features depth x d.flavour true ≡ ok d.identifier)
                value d.its_identifier;
          manifest = manifest;
          in_registry = there;
          whole = d.whole;
        }
