-- ===== src/Build.antt =====
-- The steps of a build that read and write its manifest: ci/steps/upload_results_step.py, and
-- ci/steps/pre_check_tests.py, which looks for tests that were run before.
pub mod Uploaded
use gardenlinux.Prelude.{
  ℕ, ◌≡◌, String, ◌<>◌, Bool, true, false, not, Option, none, some, List, [], ◌∷◌, ◌==◌,
  if◌then◌else◌, string_eq, split, keep, contains, take_chars,
}
use gardenlinux.Prelude.Result.{Result, ok, err, system_exit}
use gardenlinux.Prelude.Action.{Action, return, lift, check, on_first, ◌>>=◌, ◌>>◌}
use gardenlinux.Model.Features.{FeatureDescriptor}
use gardenlinux.Model.Flavours.{Architecture}
use gardenlinux.Model.Versions.{plus, text_of}
use gardenlinux.Model.Targets.{
  BuildTarget, target_eq, set_from_str, manifest, tests, freeze_version,
}
use gardenlinux.Model.Manifests.{
  ReleaseFile, ReleaseIdentifier, ReleaseManifest, OnlineReleaseManifest, ReleaseTestResult,
  TestResultCode, success, failure, manifest_key_prefix, canonical_release_manifest_key_suffix,
}
use gardenlinux.Oci.Identifier.{Holding, as_value}
use gardenlinux.Store.{Store}
use gardenlinux.Releases.{plain, upload_release_manifest, find_release}

-- `[modifier for modifier in modifiers.split(',') if modifier]`
unfoldable pub modifiers_of : String → List String
modifiers_of modifiers = keep (λ m. not (m == "")) (split b',' modifiers)

-- What a test result says of the tests: that they passed.
unfoldable pub tests_passed : Option OnlineReleaseManifest → Bool
tests_passed none = false
tests_passed (some release) = passed release.test_result
  where
    code_passed : TestResultCode → Bool
    code_passed success = true
    code_passed failure = false

    passed : Option ReleaseTestResult → Bool
    passed none = false
    passed (some r) = code_passed r.test_result

-- The arguments that both steps have, with the bucket of the configuration.
pub record Arguments : Type 0 where
  pub bucket : String
  pub committish : String
  pub architecture : Architecture
  pub platform : String
  pub gardenlinux_epoch : ℕ
  pub modifiers : String
  pub version : String
  pub build_targets : String

abbrev pub identifier_of_build : Arguments → ReleaseIdentifier
identifier_of_build a = record {
  build_committish = a.committish;
  version = a.version;
  gardenlinux_epoch = a.gardenlinux_epoch;
  architecture = a.architecture;
  platform = a.platform;
  modifiers = modifiers_of a.modifiers;
}

module _ (S : Store) where
  open S use {State}

  -- A file of the build result, with its contents.
  pub record ResultFile : Type 0 where
    pub name : String
    pub contents : S.Document

  -- What else the upload has: the time, the base image, what there is on the file system, the hash
  -- function, and `_publish_oci_image` as far as the manifest goes, for a manifest that holds its
  -- architecture in a certain way.
  pub record Upload : Type 0 where
    pub build_timestamp : ℕ
    pub build_image : String
    pub skip_build : Bool
    pub is_directory : Bool
    pub files : List ResultFile
    pub sha1 : S.Document → String
    pub publish_oci_image : Holding → Bool → ReleaseManifest → Result ReleaseManifest

  unfoldable pub upload_files :
      (S.Document → String) → String → String → List ResultFile → Action State (List ReleaseFile)
  upload_files sha1 version_str bucket [] = return []
  upload_files sha1 version_str bucket (f ∷ files) = do
    let upload_key = "objects/" <> sha1 f.contents
    let uploaded : ReleaseFile = record {
      name = version_str <> ("-" <> f.name);
      suffix = f.name;
      s3_key = upload_key;
      s3_bucket_name = bucket;
    }
    λ s. (ok tt, S.upload s bucket upload_key f.contents)
    later ← upload_files sha1 version_str bucket files
    return (uploaded ∷ later)

  unfoldable pub uploaded_paths : Arguments → Upload → Action State (List ReleaseFile)
  unfolding upload_files text_of
  uploaded_paths a u =
      upload_files u.sha1 (text_of (plus a.gardenlinux_epoch) <> ("-" <> take_chars 6 a.committish))
        a.bucket u.files

  -- `ReleaseManifest(…)`. Its architecture is `Architecture(architecture).value`, the text that stands
  -- for the member: `_publish_oci_image` is told so (`as_value`), and the document that is stored is the
  -- same for the text and for the member.
  abbrev pub manifest_of_build : Arguments → Upload → List ReleaseFile → ReleaseManifest
  manifest_of_build a u paths = record {
    identifier = identifier_of_build a;
    build_timestamp = u.build_timestamp;
    paths = paths;
    base_image = some u.build_image;
    published_image_metadata = none;
  }

  -- `always publish oci image`
  unfoldable pub published_on_oci :
      Upload → List BuildTarget → ReleaseManifest → Result ReleaseManifest
  published_on_oci u build_target_set m =
      if m.platform == "oci"
      then u.publish_oci_image as_value (contains build_target_set freeze_version) m
      else ok m

  -- The bucket, and the file for the result of the build, if it is there.
  abbrev pub Build : Type 0
  Build = State × Option String

  abbrev write_result : String → Action Build (Unit {0})
  write_result text (s, _) = (ok tt, (s, some text))

  module _ (features : List FeatureDescriptor) (depth : ℕ) where
    -- Whether the file is written that lets the tests be skipped.
    unfoldable pub pre_check_tests : Arguments → State → Result Bool
    unfolding tests_passed
    pre_check_tests a s = checked (set_from_str a.build_targets)
      where
        looked_up : Result (Option OnlineReleaseManifest) → Result Bool
        looked_up (ok release) = ok (tests_passed release)
        looked_up (err e) = err e

        checked : Result (List BuildTarget) → Result Bool
        checked (err e) = err e
        checked (ok build_target_set) =
            if contains build_target_set tests
            then looked_up (find_release S features depth s a.bucket (identifier_of_build a))
            else ok false

    -- The manifest is uploaded, and its path is written.
    unfoldable pub store_manifest : String → ReleaseManifest → Action Build (Unit {0})
    store_manifest bucket m = do
      manifest_path_suffix ←
          lift (canonical_release_manifest_key_suffix features depth m.identifier)
      let manifest_path = manifest_key_prefix <> ("/" <> manifest_path_suffix)
      on_first (λ s. (ok tt, upload_release_manifest S s bucket manifest_path (plain m)))
      write_result manifest_path

    -- From the upload of the files on.
    unfoldable pub upload_build : Arguments → Upload → List BuildTarget → Action Build (Unit {0})
    unfolding store_manifest published_on_oci uploaded_paths
    upload_build a u build_target_set = do
      paths ← on_first (uploaded_paths a u)
      m ← lift (published_on_oci u build_target_set (manifest_of_build a u paths))
      store_manifest a.bucket m

    unfoldable pub upload_results_step : Arguments → Upload → Action Build (Unit {0})
    unfolding upload_build
    upload_results_step a u = do
      build_target_set ← lift (set_from_str a.build_targets)
      write_result ""
      check (contains build_target_set manifest) (system_exit 0)
      check (not u.skip_build) (system_exit 0)
      check u.is_directory (system_exit 1)
      upload_build a u build_target_set
