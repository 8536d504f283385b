-- ===== src/Tests/OciRuns.antt =====
-- Container images, with a compressor that leaves the bytes as they are and a hash that keeps them.
use gardenlinux.Prelude.Action.{for_each}
use gardenlinux.Prelude.{
  ℕ, ◌+◌, ◌≡◌, ◌↔◌, none, ◌≢◌, refl, sym, ap, false, List, [], ◌∷◌, ◌++◌, length, string_eq,
  length-append, arith,
}
use mathlib.Core.List.{append_assoc, append-nil}
use gardenlinux.Prelude.Result.{ok}
use gardenlinux.Prelude.Dicts.{Dict, lookup}
use gardenlinux.Model.Tests.{registry}
use gardenlinux.Oci.Layer.{Gzip, Bytes, IsIncremental, layer_of, content, layer_of-IsHashed}
use gardenlinux.Oci.{Registry, amd64, publish_container_image_from_tarfile, publish_image}
use gardenlinux.Model.Manifests.{
  OnlineReleaseManifest, OnlineReleaseManifestSet, ReleaseFile, oci_image, with_published,
}
use gardenlinux.Oci.Sets.{publish_from_release_set}
use gardenlinux.Oci.Multiarch.{oci_manifests, publish_from_release_set_iff}
use gardenlinux.Prelude.{
  to_set, contains, keep, difference, sorted, union, text_leb, upper, split, join, take_chars,
  place,
}
use gardenlinux.Prelude.Result.{map_result}
use gardenlinux.Model.Manifests.{identifier_flavour, path_by_suffix}
use gardenlinux.Model.Modifiers.{normalised_modifiers}
use gardenlinux.Model.Features.{feature_by_name, descriptor_beq, included_features, of_type}
use gardenlinux.Model.Flavours.{flavour, architecture_value}
use gardenlinux.Oci.Identifier.{
  flavour_identifier, architecture_part, lstrip_underscores, rstrip_underscores, texts_of,
}
use gardenlinux.Oci.Layer.{with_chunk, with_chunks}
use gardenlinux.Oci.{
  container_architecture, container_architecture_of, image_name_of, image_references,
  publish_from_release, put_manifests,
}
use gardenlinux.Oci.Identifier.{as_value}
use gardenlinux.Oci.Published.{IsPublished, publish_image-IsPublished}
use gardenlinux.Oci.Tags.{IsLawfulRegistry, publish_container_image_from_tarfile-tags}
use gardenlinux.Tests.ReleaseRuns.{first_release}

abbrev pub gzip : Gzip
gzip = record {
  Hash = List ℕ;
  sha256 = [];
  update = λ h bytes. h ++ bytes;
  hexdigest = λ h. "digest";
  Compressor = List ℕ;
  compressobj = [];
  compress = λ kept bytes. (kept, bytes);
  flush = λ kept. kept;
  crc32 = λ bytes crc. crc + length bytes;
  gzip_header = 31 ∷ 139 ∷ [];
  gzip_footer = λ crc size. crc ∷ size ∷ [];
}

gzip-IsIncremental : IsIncremental gzip
gzip-IsIncremental = record {
  update_append = λ h a b. append_assoc h a b;
  update_nil = λ h. append-nil h;
  crc32_append = λ a b c. omega (arith, length-append a b);
  crc32_nil = λ c. omega arith;
}

abbrev reads : List Bytes
reads = (1 ∷ 2 ∷ []) ∷ (3 ∷ []) ∷ []

layer_of-IsHashed_example :
    let l = layer_of gzip reads in
    (l.compressed_hash ≡ gzip.update gzip.sha256 l.gzip_file)
    × (l.written ≡ length l.gzip_file)
    × (l.uncompressed_hash ≡ gzip.update gzip.sha256 (content gzip reads))
    × ((body : Bytes) × (l.gzip_file
          ≡ body
            ++ gzip.gzip_footer (gzip.crc32 (content gzip reads) 0) (length (content gzip reads))))
layer_of-IsHashed_example = layer_of-IsHashed gzip gzip-IsIncremental reads

-- The manifests, by their references, the last one first.
abbrev pub images : Registry gzip
images = record {
  World = Dict Bytes;
  download = λ bucket key w. (ok reads, w);
  normalise_image_reference = λ reference. reference;
  put_blob = λ reference digest octets bytes w. (ok tt, w);
  put_manifest = λ reference manifest w. (ok tt, (reference, manifest) ∷ w);
  dump_config = λ architecture digest w. (ok (7 ∷ []), w);
  dump_manifest = λ config_digest config_size digest size. 8 ∷ [];
}

images-IsLawful : IsLawfulRegistry gzip images (λ w tag. lookup tag w)
unfolding lookup
images-IsLawful = record {
  put_manifest_lem =
      λ reference manifest w w' e tag. ap (λ u. lookup tag u) (sym (ap (λ p. p.1) e));
  put_blob_lem =
      λ reference digest octets bytes w w' e tag. ap (λ u. lookup tag u) (sym (ap (λ p. p.1) e));
  dump_config_lem =
      λ architecture digest bytes w w' e tag. ap (λ u. lookup tag u) (sym (ap (λ p. p.1) e));
}

abbrev pushed : Dict Bytes
pushed = ("r:27.0-012345", 8 ∷ []) ∷ ("r:27.0-012345", 8 ∷ []) ∷ []

pushed_twice :
    publish_container_image_from_tarfile gzip images reads "r:27.0-012345" amd64 ("27.0" ∷ []) []
    ≡ (ok ("sha256:digest", 1), pushed)
unfolding publish_container_image_from_tarfile for_each
pushed_twice = refl

publish_container_image_from_tarfile-tags_example :
    lookup "r:27.0" pushed ≡ lookup {V = Bytes} "r:27.0" []
publish_container_image_from_tarfile-tags_example =
    publish_container_image_from_tarfile-tags gzip images (λ w tag. lookup tag w) images-IsLawful
      reads "r:27.0-012345" amd64 ("27.0" ∷ []) "sha256:digest" 1 [] pushed "r:27.0" refl
      pushed_twice

-- A release that has just been built, with its architecture held as a text.
abbrev rootfs : ReleaseFile
rootfs = record {
  name = "rootfs";
  suffix = "rootfs.tar.xz";
  s3_key = "objects/1";
  s3_bucket_name = "bucket";
}

abbrev built_release : OnlineReleaseManifest
built_release = record first_release {
  manifest = record (first_release.manifest) { paths = rootfs ∷ [] };
}

abbrev with_reference : OnlineReleaseManifest
with_reference = with_published (oci_image "r:27.0-012345-amd64-base-cloud") built_release

abbrev built_image : Dict Bytes
built_image = ("r:27.0-012345-amd64-base-cloud", 8 ∷ []) ∷ []

published :
    publish_image gzip images registry 9 as_value built_release "r" false []
    ≡ (ok with_reference, built_image)
unfolding publish_image identifier_flavour normalised_modifiers feature_by_name first_release
    map_result to_set contains descriptor_beq included_features flavour of_type keep difference
    sorted union text_leb upper architecture_value path_by_suffix flavour_identifier
    architecture_part lstrip_underscores rstrip_underscores texts_of layer_of with_chunk with_chunks
    container_architecture container_architecture_of image_name_of image_references
    publish_container_image_from_tarfile publish_from_release put_manifests for_each split place
    join take_chars
published = refl

publish_image-IsPublished_example :
    IsPublished gzip images
      (λ w tag. lookup tag w)
      registry
      9
      as_value
      "r"
      built_release
      with_reference
      built_image
publish_image-IsPublished_example =
    publish_image-IsPublished gzip images (λ w tag. lookup tag w) images-IsLawful registry 9
      as_value built_release with_reference "r" false [] built_image published

abbrev one_release_set : OnlineReleaseManifestSet
one_release_set = record {
  manifests = first_release ∷ [];
  flavour_set_name = "small";
  s3_key = "meta/sets/small";
  s3_bucket = "bucket";
  logs = none;
}

publish_from_release_set_iff_example :
    (publish_from_release_set gzip images
        (λ entries. 9 ∷ [])
        registry
        9
        "registry/gardenlinux"
        one_release_set
        []
      ≡ (ok one_release_set, []))
    ↔ ((one_release_set.manifests ≢ [])
        × (oci_manifests one_release_set.manifests ≡ [])
        × (one_release_set ≡ one_release_set)
        × (◌≡◌ {A = Dict Bytes} [] []))
publish_from_release_set_iff_example =
    publish_from_release_set_iff gzip images (λ entries. 9 ∷ []) registry 9 "registry/gardenlinux"
      one_release_set one_release_set [] []
