-- ===== src/Oci/Sets.antt =====
-- `publish_from_release_set` of ci/glci/oci.py: images of several architectures.
use gardenlinux.Prelude.{ℕ, String, ◌<>◌, List, [], ◌∷◌, ◌==◌, string_eq, keep}
use gardenlinux.Prelude.Result.{Result, ok, err, index_error}
use gardenlinux.Prelude.Action.{Action, return, lift, for_each, ◌>>=◌, ◌>>◌}
use gardenlinux.Model.Features.{FeatureDescriptor}
use gardenlinux.Model.Flavours.{architecture_value}
use gardenlinux.Model.Manifests.{OnlineReleaseManifest, OnlineReleaseManifestSet}
use gardenlinux.Oci.Identifier.{as_member}
use gardenlinux.Oci.Layer.{Gzip, Bytes}
use gardenlinux.Oci.Sorted.{sorted_release_manifests}
use gardenlinux.Oci.{Registry, publish_from_release}

-- `ManifestListEntry`, with its `PlatformConfig`
pub record ManifestListEntry : Type 0 where
  pub digest : String
  pub size : ℕ
  pub architecture : String
  pub os : String

-- `release_set.manifests[0]`
abbrev pub first_of : List OnlineReleaseManifest → Result OnlineReleaseManifest
first_of [] = err index_error
first_of (m ∷ ms) = ok m

-- The manifest lists are written as JSON by `dump_list`. The manifests of a set were read from the
-- store.
module _ (Z : Gzip) (R : Registry Z) (dump_list : List ManifestListEntry → Bytes) where
  open R use {World}

  unfoldable pub publish_variant : String → OnlineReleaseManifest → Action World ManifestListEntry
  publish_variant image_reference m = do
    (digest, size) ← publish_from_release Z R as_member m image_reference []
    return (record {
      digest = digest;
      size = size;
      architecture = architecture_value m.architecture;
      os = "linux";
    })

  unfoldable pub publish_variants :
      String → List OnlineReleaseManifest → Action World (List ManifestListEntry)
  unfolding publish_variant
  publish_variants image_reference [] = return []
  publish_variants image_reference (m ∷ ms) = do
    entry ← publish_variant image_reference m
    later ← publish_variants image_reference ms
    return (entry ∷ later)

  -- The image of one tag; the tag begins with the version already.
  unfoldable pub publish_multiarch :
      String → String → String × List OnlineReleaseManifest → Action World (Unit {0})
  unfolding publish_variants
  publish_multiarch image_prefix version (image_tag, ms) = do
    let image_reference = image_prefix <> (":" <> (version <> ("-" <> image_tag)))
    image_manifests ← publish_variants image_reference ms
    R.put_manifest image_reference (dump_list image_manifests)

  module _ (features : List FeatureDescriptor) (depth : ℕ) where
    unfoldable pub publish_from_release_set :
        String → OnlineReleaseManifestSet → Action World OnlineReleaseManifestSet
    unfolding sorted_release_manifests publish_multiarch
    publish_from_release_set image_prefix release_set = do
      first ← lift (first_of release_set.manifests)
      sorted ← lift (
          sorted_release_manifests features depth first.version
            (keep (λ m. m.platform == "oci") release_set.manifests) [])
      for_each (publish_multiarch image_prefix first.version) sorted
      return release_set
