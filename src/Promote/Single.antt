-- ===== src/Promote/Single.antt =====
-- `promote_single_step` of ci/steps/promote_step.py.
pub mod Chosen
pub mod Again
use gardenlinux.Prelude.{
  is_none, ℕ, ◌≡◌, String, ◌<>◌, Bool, true, false, Option, none, some, List, [], ◌∷◌, ◌==◌,
  if◌then◌else◌, string_eq, contains, split, length, nat_beq, nat_eq, not, to_set,
}
use gardenlinux.Prelude.Result.{
  Result, ok, err, Error, value_error, system_exit, ◌>>=◌, ◌>>◌, guard,
}
use gardenlinux.Model.Targets.{BuildTarget, publish, manifest, target_eq, set_from_str}
use gardenlinux.Model.Features.{FeatureDescriptor, platform, of_type}
use gardenlinux.Model.Modifiers.{names, normalised_modifiers}
use gardenlinux.Model.Flavours.{Architecture, FlavourSet, flavours}
use gardenlinux.Model.Manifests.{
  ReleaseIdentifier, ReleaseManifest, OnlineReleaseManifest, PublishedImage, azure_image,
  provisional, with_published, canonical_release_manifest_key, release_manifest_set_prefix,
}
use gardenlinux.Store.{Store, ParsedManifestSet}
use gardenlinux.Releases.{
  BuildType, build_type_value, release_set_manifest_name, online, upload_release_manifest,
  upload_release_manifest_set, find_release, find_releases,
}
use gardenlinux.Promote.Image.{Publisher, publish_image}

-- `AzurePublishedImage(PROVISIONAL, urn=…)`, with the texts of the Azure configuration and of the
-- version that `parse_to_semver` reads
unfoldable pub provisional_image : String → String → String → String → PublishedImage
provisional_image publisher_id offer_id plan_id parsed_version =
    azure_image provisional
      (publisher_id <> (":" <> (offer_id <> (":" <> (plan_id <> (":" <> parsed_version)))))) "" ""

-- The release with provisional information, on Azure; `parse_to_semver` may raise there.
unfoldable pub prepared :
    Result PublishedImage → OnlineReleaseManifest → Result OnlineReleaseManifest
prepared image m =
    let on_azure = (do i ← image; ok (with_published i m)) in
    if m.platform == "azure" then on_azure else ok m

-- `except Exception`, which a `SystemExit` passes: on Azure the prepared release is taken.
unfoldable pub tolerated :
    OnlineReleaseManifest → Result OnlineReleaseManifest → Result OnlineReleaseManifest
tolerated release (ok m) = ok m
tolerated release (err (system_exit n)) = err (system_exit n)
tolerated release (err e) = if release.platform == "azure" then ok release else err e

-- `if not release_manifest: raise ValueError`
or_missing : Option OnlineReleaseManifest → Result OnlineReleaseManifest
or_missing none = err value_error
or_missing (some m) = ok m

-- The arguments of `promote_single_step`, with the bucket and the texts for Azure of the
-- configuration, and with `parse_to_semver` of the package that the code imports as `version`.
pub record SingleStep : Type 0 where
  pub bucket : String
  pub committish : String
  pub architecture : Architecture
  pub platform_name : String
  pub gardenlinux_epoch : ℕ
  pub modifiers : String
  pub version : String
  pub build_targets : String
  pub publisher_id : String
  pub offer_id : String
  pub plan_id : String
  pub parse_to_semver : String → Result String

-- The metadata that is prepared for Azure.
unfoldable pub azure_metadata : SingleStep → Result PublishedImage
unfolding provisional_image
azure_metadata a = do
  parsed_version ← a.parse_to_semver a.version
  ok (provisional_image a.publisher_id a.offer_id a.plan_id parsed_version)

module _ (S : Store) (features : List FeatureDescriptor) (depth : ℕ) where
  open S use {State}

  -- What `promote_single_step` does before it publishes: the release to publish.
  unfoldable pub single_release : SingleStep → State → Result OnlineReleaseManifest
  unfolding set_from_str or_missing prepared azure_metadata
  single_release a s = do
    build_target_set ← set_from_str a.build_targets
    guard (contains build_target_set publish) (system_exit 0)
    guard (contains (to_set (names (of_type platform features))) a.platform_name) value_error
    modifiers ← normalised_modifiers features depth a.platform_name (split b',' a.modifiers)
    found ← find_release S features depth s a.bucket (record {
      build_committish = a.committish;
      version = a.version;
      gardenlinux_epoch = a.gardenlinux_epoch;
      architecture = a.architecture;
      platform = a.platform_name;
      modifiers = modifiers;
    })
    release_manifest ← or_missing found
    guard (is_none release_manifest.published_image_metadata) (system_exit 0)
    prepared (azure_metadata a) release_manifest

  module _ (P : Publisher) where
    open P use {World}

    -- The re-upload of the modified manifest.
    stored : String → Result OnlineReleaseManifest × World → State → Result State × World
    stored bucket (err e, w) s = (err e, w)
    stored bucket (ok m, w) s = (
      (do
        key ← canonical_release_manifest_key features depth m.identifier
        ok (upload_release_manifest S s bucket key (online m))),
      w,
    )

    publishing : SingleStep → Result OnlineReleaseManifest → State → World → Result State × World
    unfolding publish_image tolerated stored
    publishing a (err e) s w = (err e, w)
    publishing a (ok release) s w =
        let (r, w') = publish_image P release w in stored a.bucket (tolerated release r, w') s

    unfoldable pub promote_single_step : SingleStep → State → World → Result State × World
    unfolding publishing single_release
    promote_single_step a s w = publishing a (single_release a s) s w
