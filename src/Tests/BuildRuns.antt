-- ===== src/Tests/BuildRuns.antt =====
-- A build that uploads its results to a bucket in memory.
use gardenlinux.Prelude.{
  ◌≡◌, refl, true, false, none, some, List, [], ◌∷◌, string_eq, keep, split, strip, lstrip, rstrip,
  is_space, to_set, contains, take_chars, sorted, difference, join, text_leb, upper,
}
use gardenlinux.Prelude.Result.{ok, map_result}
use gardenlinux.Model.Features.{feature_by_name, included_features, descriptor_beq}
use gardenlinux.Model.Modifiers.{canonicalised_features}
use gardenlinux.Model.Flavours.{amd64}
use gardenlinux.Model.Targets.{requires, target_eq, set_from_str}
use gardenlinux.Model.Versions.{decimal, text_of}
use gardenlinux.Model.Manifests.{
  OnlineReleaseManifest, canonical_release_manifest_key_suffix, normalised_release_identifier,
}
use gardenlinux.Model.Tests.{registry}
use gardenlinux.Releases.{plain, attributes, upload_release_manifest, find_release}
use gardenlinux.Build.{
  Arguments, Upload, modifiers_of, identifier_of_build, manifest_of_build, upload_files,
  uploaded_paths, published_on_oci, store_manifest, upload_build, upload_results_step,
  pre_check_tests,
}
use gardenlinux.Build.Uploaded.{upload_results_step-find_release}
use gardenlinux.Tests.Memory.{Entry, other, memory, memory-IsLawful}
use gardenlinux.Tests.ReleaseRuns.{first_key, first_identifier, first_normal}

abbrev arguments : Arguments
arguments = record {
  bucket = "bucket";
  committish = "0123456789";
  architecture = amd64;
  platform = "aws";
  gardenlinux_epoch = 27;
  modifiers = "base,cloud";
  version = "27.0";
  build_targets = "build,manifest,tests";
}

abbrev upload : Upload memory
upload = record {
  build_timestamp = 5;
  build_image = "image";
  skip_build = false;
  is_directory = true;
  files = record { name = "rootfs.raw"; contents = other } ∷ [];
  sha1 = λ contents. "0a";
  publish_oci_image = λ holding release_build m. ok m;
}

abbrev bucket_after : List Entry
unfolding upload_release_manifest attributes
bucket_after =
    upload_release_manifest memory
      (record { bucket = "bucket"; key = "objects/0a"; contents = some other } ∷ []) "bucket"
      first_key
      (plain (
        manifest_of_build memory arguments upload (
          record {
            name = "27-012345-rootfs.raw";
            suffix = "rootfs.raw";
            s3_key = "objects/0a";
            s3_bucket_name = "bucket";
          }
          ∷ [])))

build_uploaded :
    upload_results_step memory registry 9 arguments upload ([], none)
    ≡ (ok tt, (bucket_after, some first_key))
unfolding upload_results_step set_from_str requires map_result split strip lstrip rstrip is_space
    to_set contains keep upload_build uploaded_paths upload_files text_of decimal take_chars
    published_on_oci store_manifest canonical_release_manifest_key_suffix canonicalised_features
    feature_by_name included_features descriptor_beq sorted difference join text_leb upper
    upload_release_manifest attributes modifiers_of bucket_after
build_uploaded = refl

build_normal :
    normalised_release_identifier registry 9 (identifier_of_build arguments) ≡ ok first_identifier
unfolding modifiers_of keep split
build_normal = first_normal

upload_results_step-find_release_example :
    (m : OnlineReleaseManifest) × (s' : List Entry) × (find_release memory registry 9 bucket_after
        "bucket"
        (identifier_of_build arguments)
      ≡ ok (some m))
    × (uploaded_paths memory arguments upload [] ≡ (ok m.paths, s'))
    × (some first_key ≡ some m.s3_key)
    × (m.published_image_metadata ≡ none)
    × (m.test_result ≡ none)
    × (pre_check_tests memory registry 9 arguments bucket_after ≡ ok false)
upload_results_step-find_release_example =
    upload_results_step-find_release memory registry 9 arguments upload [] bucket_after none
      (some first_key) tt first_identifier memory-IsLawful refl build_normal build_uploaded
