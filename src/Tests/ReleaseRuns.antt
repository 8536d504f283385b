-- ===== src/Tests/ReleaseRuns.antt =====
-- Searches and enumerations of ci/glci/util.py, run on a bucket in memory.
use gardenlinux.Model.Features.{descriptor_beq, included_features, feature_by_name, of_type}
use gardenlinux.Model.Modifiers.{normalised_modifiers, canonicalised_features}
use gardenlinux.Prelude.{
  flat_map, to_set, contains, keep, difference, sorted, union, text_leb, upper, join, take_chars,
  ◌≡◌, ◌↔◌, refl, String, none, some, List, [], ◌∷◌, string_eq,
}
use gardenlinux.Prelude.Result.{ok, map_result}
use gardenlinux.Model.Flavours.{flavour_beq, amd64, flavour_eq, flavours}
use gardenlinux.Model.Manifests.{
  identifier_beq, ReleaseIdentifier, ReleaseManifest, OnlineReleaseManifest,
  canonical_release_manifest_key, normalised_release_identifier,
}
use gardenlinux.Model.Tests.{registry, small_set}
use gardenlinux.Releases.{
  find_each, release_manifest, plain, attributes, online_manifest, identifier_of,
  upload_release_manifest, find_release, find_releases,
}
use gardenlinux.Releases.Find.{IsRelease, find_release_iff}
use gardenlinux.Releases.Pages.{Lists, last}
use gardenlinux.Tests.Memory.{Entry, memory}

-- The identifiers of the two flavours of the set.
abbrev pub first_identifier : ReleaseIdentifier
first_identifier =
    identifier_of "0123456789" "27.0" 27
      (record { architecture = amd64; platform = "aws"; modifiers = "base" ∷ "cloud" ∷ [] })

abbrev pub second_identifier : ReleaseIdentifier
second_identifier = identifier_of "0123456789" "27.0" 27 (record {
  architecture = amd64;
  platform = "aws";
  modifiers = "base" ∷ "cloud" ∷ "gardener" ∷ [];
})

abbrev pub unpublished : ReleaseIdentifier → ReleaseManifest
unpublished i = record {
  identifier = i;
  build_timestamp = 5;
  paths = [];
  base_image = none;
  published_image_metadata = none;
}

abbrev pub first_key : String
first_key = "meta/singles/aws-cloud-27.0-012345"

abbrev pub second_key : String
second_key = "meta/singles/aws-cloud-gardener-27.0-012345"

pub first_has_key : canonical_release_manifest_key registry 9 first_identifier ≡ ok first_key
unfolding canonical_release_manifest_key canonicalised_features feature_by_name map_result
    included_features join sorted difference keep to_set contains descriptor_beq take_chars
first_has_key = refl

pub first_normal : normalised_release_identifier registry 9 first_identifier ≡ ok first_identifier
unfolding normalised_release_identifier normalised_modifiers feature_by_name map_result to_set
    contains descriptor_beq included_features sorted union text_leb upper
first_normal = refl

unfoldable pub first_release : OnlineReleaseManifest
unfolding online_manifest attributes
first_release =
    online_manifest "bucket" first_key (attributes (plain (unpublished first_identifier)))

unfoldable pub second_release : OnlineReleaseManifest
unfolding online_manifest attributes
second_release =
    online_manifest "bucket" second_key (attributes (plain (unpublished second_identifier)))

-- A bucket with both releases.
unfoldable pub two_releases : List Entry
unfolding upload_release_manifest
two_releases =
    upload_release_manifest memory
      (upload_release_manifest memory [] "bucket" first_key (plain (unpublished first_identifier)))
      "bucket" second_key (plain (unpublished second_identifier))

find_release_iff_example :
    (find_release memory registry 9 two_releases "bucket" first_identifier
      ≡ ok (some first_release))
    ↔ IsRelease memory registry 9 two_releases "bucket" first_identifier first_release
find_release_iff_example =
    find_release_iff memory registry 9 two_releases "bucket" first_identifier first_release

pub both_found :
    find_releases memory registry 9 two_releases "bucket" small_set "0123456789" "27.0" 27
    ≡ ok (first_release ∷ second_release ∷ [])
unfolding find_releases flavours map_result flat_map normalised_modifiers feature_by_name to_set
    included_features contains of_type keep difference sorted union text_leb upper flavour_beq
    canonical_release_manifest_key descriptor_beq identifier_beq canonicalised_features join
    take_chars find_each find_release online_manifest release_manifest two_releases first_release
    second_release upload_release_manifest attributes normalised_release_identifier
both_found = refl

listed : Lists memory two_releases "bucket" "meta/singles" 1 none (second_key ∷ first_key ∷ [])
unfolding to_set keep two_releases take_chars contains
listed = last none refl refl
