-- ===== src/Promote/Sets.antt =====
-- `promote_step` of ci/steps/promote_step.py.
pub mod Complete
use gardenlinux.Prelude.{
  ℕ, ◌≡◌, String, ◌<>◌, Bool, true, false, Option, none, some, List, [], ◌∷◌, ◌==◌, if◌then◌else◌,
  string_eq, contains, split, length, nat_beq, nat_eq, not, to_set,
}
use gardenlinux.Prelude.Result.{
  Result, ok, err, Error, value_error, system_exit, ◌>>=◌, ◌>>◌, guard,
}
use gardenlinux.Model.Targets.{BuildTarget, publish, manifest, target_eq, set_from_str}
use gardenlinux.Model.Features.{FeatureDescriptor, platform, of_type}
use gardenlinux.Model.Modifiers.{names, normalised_modifiers}
use gardenlinux.Model.Flavours.{Architecture, FlavourSet, flavours}
use gardenlinux.Model.Manifests.{
  ReleaseIdentifier, ReleaseManifest, OnlineReleaseManifest, PublishedImage, azure_image,
  provisional, canonical_release_manifest_key, release_manifest_set_prefix,
}
use gardenlinux.Store.{Store, ParsedManifestSet}
use gardenlinux.Releases.{
  BuildType, build_type_value, release_set_manifest_name, online, upload_release_manifest,
  upload_release_manifest_set, find_release, find_releases,
}

-- The arguments of `promote_step`, with the bucket and the time stamp. The epoch is given as a
-- number and as the text of it.
pub record SetStep : Type 0 where
  pub bucket : String
  pub flavour_set : FlavourSet
  pub build_targets : String
  pub gardenlinux_epoch : ℕ
  pub epoch_text : String
  pub committish : String
  pub version : String
  pub build_type : BuildType
  pub timestamp : String

-- `manifest_path`
unfoldable pub set_path : SetStep → String
unfolding build_type_value release_set_manifest_name
set_path a =
    release_manifest_set_prefix
    <> ("/"
        <> (build_type_value a.build_type
            <> ("/"
                <> release_set_manifest_name a.committish a.epoch_text a.version a.flavour_set.name
                    a.build_type (some a.timestamp))))

module _ (S : Store) (features : List FeatureDescriptor) (depth : ℕ) where
  open S use {State}

  -- `promote_step`: the new store, and the key that is written to the result file.
  unfoldable pub promote_step : SetStep → State → Result (State × String)
  unfolding set_path set_from_str find_releases
  promote_step a s = do
    declared ← flavours features depth a.flavour_set
    build_target_set ← set_from_str a.build_targets
    guard (contains build_target_set manifest) (system_exit 0)
    releases ←
        find_releases S features depth s a.bucket a.flavour_set a.committish a.version
          a.gardenlinux_epoch
    guard (nat_beq (length releases) (length declared)) (system_exit 1)
    ok (
      upload_release_manifest_set S s a.bucket (set_path a)
          (record { manifests = releases; flavour_set_name = a.flavour_set.name; logs = none }),
      set_path a,
    )
