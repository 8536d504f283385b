-- ===== src/Oci.antt =====
-- Container images (ci/glci/oci.py).
pub mod Layer
pub mod Identifier
pub mod Tags
pub mod Published
pub mod Multiarch
pub mod Sorted
pub mod Sets
use gardenlinux.Prelude.{
  ℕ, ◌≡◌, String, ◌<>◌, Bool, true, false, not, List, [], ◌∷◌, ◌==◌, if◌then◌else◌, string_eq, map,
  keep, length, join, take_chars, split,
}
use Prim.Native.Char.{Char, code}
use gardenlinux.Prelude.{nat_beq, ◌&&◌, codes}
use gardenlinux.Prelude.Result.{Result, ok, err, type_error, value_error}
use gardenlinux.Prelude.Action.{Action, return, lift, for_each, ◌>>=◌, ◌>>◌}
use gardenlinux.Model.Features.{FeatureDescriptor}
use gardenlinux.Model.Modifiers.{names}
use gardenlinux.Model.Flavours.{Architecture, Flavour, architecture_value}
use gardenlinux.Model.Manifests.{
  OnlineReleaseManifest, oci_image, with_published, path_by_suffix, identifier_flavour,
}
use gardenlinux.Oci.Identifier.{Holding, as_member, as_value, flavour_identifier}
use gardenlinux.Oci.Layer.{Gzip, Bytes, layer_of}

-- `Architecture` of the container images, which is not the one of the model.
pub data ContainerArchitecture : Type 0 where
  amd64 arm64 : ContainerArchitecture

-- `Architecture(value)`
unfoldable pub container_architecture_of : String → Result ContainerArchitecture
container_architecture_of value =
    if value == "amd64" then ok amd64 else if value == "arm64" then ok arm64 else err value_error

-- `Architecture(release.architecture)`: the enumeration is looked up by the value of a member, and a
-- member of another enumeration is none of these.
unfoldable pub container_architecture : Holding → Architecture → Result ContainerArchitecture
unfolding container_architecture_of architecture_value
container_architecture as_member architecture = err value_error
container_architecture as_value architecture =
    container_architecture_of (architecture_value architecture)

-- `image_reference.rsplit(':', 1)[0]`: what stands before the last colon, or all of it.
unfoldable pub image_name_of : String → String
image_name_of image_reference = before_last (split b':' image_reference)
  where
    before_last : List String → String
    before_last [] = ""
    before_last (part ∷ []) = part
    before_last (part ∷ last ∷ []) = part
    before_last (part ∷ next ∷ more ∷ parts) = part <> (":" <> before_last (next ∷ more ∷ parts))

-- What the code uses of the OCI client, of S3, of `lzma`, `json` and the clock. The image
-- configuration names the architecture and the digest of the layer that is not compressed; the
-- manifest names the digests and sizes of the configuration and of the layer.
pub record Registry (Z : Gzip) : Type 1 where
  pub World : Type 0
  -- `download_fileobj`, and what the reads of the decompressed file return
  pub download : String → String → Action World (List Bytes)
  pub normalise_image_reference : String → String
  -- `put_blob`: the reference, the digest, the number of octets and the data
  pub put_blob : String → String → ℕ → Bytes → Action World (Unit {0})
  pub put_manifest : String → Bytes → Action World (Unit {0})
  pub dump_config : ContainerArchitecture → String → Action World Bytes
  pub dump_manifest : String → ℕ → String → ℕ → Bytes

abbrev pub digest_of : (Z : Gzip) → Z.Hash → String
digest_of Z hash = "sha256:" <> Z.hexdigest hash

-- The references that a manifest is published under: the image and its additional tags.
unfoldable pub image_references : String → String → List String → List String
image_references image_reference image_name additional_tags =
    image_reference ∷ map (λ tag. image_name <> (":" <> tag)) additional_tags

module _ (Z : Gzip) (R : Registry Z) where
  open R use {World}

  -- The loop over the references: each time the manifest is put under the first one.
  unfoldable pub put_manifests : String → List String → Bytes → Action World (Unit {0})
  put_manifests image_reference references manifest =
      for_each (λ tgt_ref. R.put_manifest image_reference manifest) references

  unfoldable pub publish_container_image_from_tarfile :
      List Bytes → String → ContainerArchitecture → List String → Action World (String × ℕ)
  unfolding put_manifests image_references image_name_of
  publish_container_image_from_tarfile reads reference architecture additional_tags = do
    let image_reference = R.normalise_image_reference reference
    let image_name = image_name_of image_reference
    let layer = layer_of Z reads
    R.put_blob image_reference (digest_of Z layer.compressed_hash) layer.written layer.gzip_file
    image_config ← R.dump_config architecture (digest_of Z layer.uncompressed_hash)
    let config_digest = digest_of Z (Z.update Z.sha256 image_config)
    R.put_blob image_reference config_digest (length image_config) image_config
    let manifest =
        R.dump_manifest config_digest (length image_config) (digest_of Z layer.compressed_hash)
          layer.written
    put_manifests image_reference (image_references image_reference image_name additional_tags)
        manifest
    return (digest_of Z (Z.update Z.sha256 manifest), length manifest)

  unfoldable pub publish_from_release :
      Holding → OnlineReleaseManifest → String → List String → Action World (String × ℕ)
  unfolding publish_container_image_from_tarfile container_architecture
  publish_from_release holding release image_reference additional_tags = do
    path ← lift (path_by_suffix "rootfs.tar.xz" release.paths)
    reads ← R.download path.s3_bucket_name path.s3_key
    architecture ← lift (container_architecture holding release.architecture)
    publish_container_image_from_tarfile reads image_reference architecture additional_tags

  module _ (features : List FeatureDescriptor) (depth : ℕ) where
    unfoldable pub publish_image :
        Holding → OnlineReleaseManifest → String → Bool → Action World OnlineReleaseManifest
    unfolding publish_from_release
    publish_image holding release image_prefix release_build = do
      flavour ← lift (identifier_flavour features depth release.identifier)
      flavour_identifier ← lift (flavour_identifier features depth holding flavour true)
      let image_tag =
          release.version
          <> ("-" <> (take_chars 6 release.build_committish <> ("-" <> flavour_identifier)))
      let image_reference = image_prefix <> (":" <> image_tag)
      publish_from_release holding release image_reference
          (if release_build then (release.version <> ("-" <> flavour_identifier)) ∷ [] else [])
      return (with_published (oci_image image_reference) release)
