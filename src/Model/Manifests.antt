-- ===== src/Model/Manifests.antt =====
-- Release identifiers, manifests and manifest sets of ci/glci/model.py. A timestamp is the number
-- of microseconds, from some origin, of the date that `isoparse` reads it as.
use gardenlinux.Prelude.{
  ℕ, ◌≡◌, ◌↔◌, arith, String, ◌<>◌, Bool, true, ◌&&◌, Option, some, List, [], ◌∷◌, ◌++◌, Eq, ◌==◌,
  string_eq, nat_eq, list_eq, list_beq_iff, if◌then◌else◌, join, take_chars,
}
use gardenlinux.Prelude.Result.{Result, ok, err, value_error, ◌>>=◌}
use gardenlinux.Model.Features.{FeatureDescriptor}
use gardenlinux.Model.Modifiers.{names, normalised_modifiers, canonicalised_features}
use gardenlinux.Model.Flavours.{Architecture, architecture_path, Flavour, flavour}

-- `S3_ReleaseFile`, with the fields of its base class
pub record ReleaseFile : Type 0 where
  pub name : String
  pub suffix : String
  pub s3_key : String
  pub s3_bucket_name : String

pub record ReleaseIdentifier : Type 0 where
  pub build_committish : String
  pub version : String
  pub gardenlinux_epoch : ℕ
  pub architecture : Architecture
  pub platform : String
  pub modifiers : List String

pub data AzureTransportState : Type 0 where
  provisional publishing going_live released failed : AzureTransportState

pub record AwsPublishedImage : Type 0 where
  pub ami_id : String
  pub aws_region_id : String
  pub image_name : String

pub record AlicloudPublishedImage : Type 0 where
  pub image_id : String
  pub region_id : String
  pub image_name : String

pub record OpenstackPublishedImage : Type 0 where
  pub region_name : String
  pub image_id : String
  pub image_name : String

-- The classes that `published_image_metadata` may hold.
pub data PublishedImage : Type 0 where
  alicloud_set : List AlicloudPublishedImage → PublishedImage
  aws_set : List AwsPublishedImage → PublishedImage
  azure_image : AzureTransportState → String → String → String → PublishedImage
  gcp_image : String → String → PublishedImage
  oci_image : String → PublishedImage
  openstack_set : List OpenstackPublishedImage → PublishedImage

pub data TestResultCode : Type 0 where
  success failure : TestResultCode

pub record ReleaseTestResult : Type 0 where
  pub test_suite_cfg_name : String
  pub test_result : TestResultCode
  pub test_timestamp : String

pub record ReleaseManifest : Type 0 where
  pub identifier : ReleaseIdentifier
  pub open identifier use *
  pub build_timestamp : ℕ
  pub paths : List ReleaseFile
  pub base_image : Option String
  pub published_image_metadata : Option PublishedImage

-- `typing.Union[S3_ReleaseFile, str]`
pub data LogReference : Type 0 where
  file : ReleaseFile → LogReference
  key : String → LogReference

pub record OnlineReleaseManifest : Type 0 where
  pub manifest : ReleaseManifest
  pub open manifest use *
  pub s3_key : String
  pub s3_bucket : String
  pub test_result : Option ReleaseTestResult
  pub logs : Option LogReference

pub record OnlineReleaseManifestSet : Type 0 where
  pub manifests : List OnlineReleaseManifest
  pub flavour_set_name : String
  pub s3_key : String
  pub s3_bucket : String
  pub logs : Option (List ReleaseFile)

unfoldable pub identifier_beq : ReleaseIdentifier → ReleaseIdentifier → Bool
identifier_beq a b =
    a.build_committish == b.build_committish
    && a.version == b.version
    && a.gardenlinux_epoch == b.gardenlinux_epoch
    && a.platform == b.platform
    && a.modifiers == b.modifiers

pub identifier_beq_iff : (a b : ReleaseIdentifier) → (identifier_beq a b ≡ true) ↔ (a ≡ b)
unfolding identifier_beq
identifier_beq_iff a b = ground (
  arith,
  string_eq.equals_iff a.build_committish b.build_committish,
  string_eq.equals_iff a.version b.version,
  architecture_path a.architecture b.architecture,
  string_eq.equals_iff a.platform b.platform,
  list_beq_iff a.modifiers b.modifiers,
)

instance abbrev pub identifier_eq : Eq ReleaseIdentifier
identifier_eq = record { equals = identifier_beq; equals_iff = identifier_beq_iff }

-- `manifest.path_by_suffix(suffix)`
unfoldable pub path_by_suffix : String → List ReleaseFile → Result ReleaseFile
path_by_suffix suffix [] = err value_error
path_by_suffix suffix (path ∷ paths) =
    let rest = path_by_suffix suffix paths in if path.suffix == suffix then ok path else rest

-- `manifest.with_test_result(test_result)`
unfoldable pub with_test_result : ReleaseTestResult → OnlineReleaseManifest → OnlineReleaseManifest
with_test_result r m = record m { test_result = some r }

-- `dataclasses.replace(release, published_image_metadata=…)`
abbrev pub with_published : PublishedImage → OnlineReleaseManifest → OnlineReleaseManifest
with_published image m = record m {
  manifest = record (m.manifest) { published_image_metadata = some image };
}

-- `manifest.with_logfile(log)`
unfoldable pub with_logfile : ReleaseFile → OnlineReleaseManifest → OnlineReleaseManifest
with_logfile log m = record m { logs = some (file log) }

abbrev with_earlier : Option (List ReleaseFile) → List ReleaseFile → List ReleaseFile
with_earlier (some (f ∷ fs)) files = (f ∷ fs) ++ files
with_earlier _ files = files

-- `manifest_set.with_logfiles(files)`
unfoldable pub with_logfiles :
    List ReleaseFile → OnlineReleaseManifestSet → OnlineReleaseManifestSet
with_logfiles files s = record s { logs = some (with_earlier s.logs files) }

abbrev pub manifest_key_prefix : String
manifest_key_prefix = "meta/singles"

abbrev pub release_manifest_set_prefix : String
release_manifest_set_prefix = "meta/sets"

module _ (features : List FeatureDescriptor) (depth : ℕ) where
  -- `identifier.flavour()`
  unfoldable pub identifier_flavour : ReleaseIdentifier → Result Flavour
  identifier_flavour i = do
    mods ← normalised_modifiers features depth i.platform i.modifiers
    flavour features i.architecture i.platform mods

  -- `normalised_release_identifier`
  unfoldable pub normalised_release_identifier : ReleaseIdentifier → Result ReleaseIdentifier
  normalised_release_identifier i = do
    modifiers ← normalised_modifiers features depth i.platform i.modifiers
    ok (record i { modifiers = modifiers })

  unfoldable pub canonical_release_manifest_key_suffix : ReleaseIdentifier → Result String
  canonical_release_manifest_key_suffix i = do
    canonical ← canonicalised_features features depth i.platform i.modifiers
    ok (
        join "-" (names canonical)
        <> ("-" <> (i.version <> ("-" <> take_chars 6 i.build_committish))))

  unfoldable pub canonical_release_manifest_key : ReleaseIdentifier → Result String
  unfolding canonical_release_manifest_key_suffix
  canonical_release_manifest_key i = do
    suffix ← canonical_release_manifest_key_suffix i
    ok (manifest_key_prefix <> ("/" <> suffix))
