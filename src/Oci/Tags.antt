-- ===== src/Oci/Tags.antt =====
-- What a registry holds when the tar file of a container image was published.
use gardenlinux.Prelude.{
  ℕ, ◌≡◌, ◌≢◌, ◌⊎◌, inl, inr, refl, beq_refl, sym, ap, subst, ◌∙◌, String, false, Option, some,
  List, [], ◌∷◌, ◌==◌, if◌then◌else◌, string_eq, length,
}
use gardenlinux.Prelude.Result.{ok, ok_injective}
use gardenlinux.Prelude.Action.{for_each, >>=-returned}
use gardenlinux.Oci.Layer.{Gzip, Bytes, layer_of}
use gardenlinux.Oci.{
  Registry, ContainerArchitecture, digest_of, image_references, put_manifests,
  publish_container_image_from_tarfile, image_name_of,
}

-- The documented behaviour of a registry: a manifest is put under its reference, blobs are kept apart.
pub record IsLawfulRegistry (Z : Gzip) (R : Registry Z)
    (manifest_of : R.World → String → Option Bytes) : Type 0 where
  pub put_manifest_lem :
      (reference : String) (manifest : Bytes) (w w' : R.World)
      → R.put_manifest reference manifest w ≡ (ok tt, w')
      → (tag : String)
      → manifest_of w' tag ≡ (if reference == tag then some manifest else manifest_of w tag)
  pub put_blob_lem :
      (reference digest : String) (octets : ℕ) (bytes : Bytes) (w w' : R.World)
      → R.put_blob reference digest octets bytes w ≡ (ok tt, w')
      → (tag : String) → manifest_of w' tag ≡ manifest_of w tag
  pub dump_config_lem :
      (architecture : ContainerArchitecture) (digest : String) (bytes : Bytes) (w w' : R.World)
      → R.dump_config architecture digest w ≡ (ok bytes, w')
      → (tag : String) → manifest_of w' tag ≡ manifest_of w tag

module _ (Z : Gzip) (R : Registry Z) (manifest_of : R.World → String → Option Bytes)
    (lawful : IsLawfulRegistry Z R manifest_of) where
  open R use {World}

  put_manifests-other :
      (reference : String) (references : List String) (manifest : Bytes) (w w' : World)
      (tag : String)
      → (reference == tag) ≡ false
      → put_manifests Z R reference references manifest w ≡ (ok tt, w')
      → manifest_of w' tag ≡ manifest_of w tag
  unfolding put_manifests for_each
  put_manifests-other reference [] manifest w w' tag other e =
      ap (λ u. manifest_of u tag) (sym (ap (λ p. p.1) e))
  put_manifests-other reference (r ∷ references) manifest w w' tag other e =
      let (_, u, e₁, k₁) =
        >>=-returned (R.put_manifest reference manifest)
          (λ _. put_manifests Z R reference references manifest) w e in
      put_manifests-other reference references manifest u w' tag other k₁
      ∙ (rw other at (lawful.put_manifest_lem reference manifest w u e₁ tag))

  -- Where a registry behaves as documented, publishing a container image that returns has changed
  -- the manifest of no reference but that of the image, whatever additional tags it was given.
  pub publish_container_image_from_tarfile-tags :
      (reads : List Bytes) (reference : String) (architecture : ContainerArchitecture)
      (additional_tags : List String) (digest : String) (size : ℕ) (w w' : World) (tag : String)
      → (R.normalise_image_reference reference == tag) ≡ false
      → publish_container_image_from_tarfile Z R reads reference architecture additional_tags w
        ≡ (ok (digest, size), w')
      → manifest_of w' tag ≡ manifest_of w tag
  unfolding publish_container_image_from_tarfile
  publish_container_image_from_tarfile-tags reads reference architecture additional_tags digest size
        w w' tag other e =
      let image_reference = R.normalise_image_reference reference in
      let image_name = image_name_of image_reference in
      let layer = layer_of Z reads in
      let (_, u₁, e₁, k₁) =
        >>=-returned
          (R.put_blob image_reference (digest_of Z layer.compressed_hash) layer.written
            layer.gzip_file)
          _ w e in
      let (config, u₂, e₂, k₂) =
        >>=-returned (R.dump_config architecture (digest_of Z layer.uncompressed_hash)) _ u₁ k₁ in
      let config_digest = digest_of Z (Z.update Z.sha256 config) in
      let (_, u₃, e₃, k₃) =
        >>=-returned (R.put_blob image_reference config_digest (length config) config) _ u₂ k₂ in
      let manifest =
        R.dump_manifest config_digest (length config) (digest_of Z layer.compressed_hash)
          layer.written in
      let (_, u₄, e₄, k₄) =
        >>=-returned
          (put_manifests Z R image_reference
            (image_references image_reference image_name additional_tags) manifest)
          _ u₃ k₃ in
      let same : u₄ ≡ w' = ap (λ p. p.1) k₄ in
      subst (λ u. manifest_of u tag ≡ manifest_of w tag) same
        (put_manifests-other image_reference
            (image_references image_reference image_name additional_tags) manifest u₃ u₄ tag other
            e₄
          ∙ (lawful.put_blob_lem image_reference config_digest (length config) config u₂ u₃ e₃ tag
              ∙ (lawful.dump_config_lem architecture (digest_of Z layer.uncompressed_hash) config u₁
                    u₂ e₂ tag
                  ∙ lawful.put_blob_lem image_reference (digest_of Z layer.compressed_hash)
                      layer.written layer.gzip_file w u₁ e₁ tag)))

  -- The manifest is under the reference of the image, which is the first one.
  put_manifests-there :
      (reference : String) (references : List String) (manifest : Bytes) (w w' : World)
      → (manifest_of w reference ≡ some manifest) ⊎ (references ≢ [])
      → put_manifests Z R reference references manifest w ≡ (ok tt, w')
      → manifest_of w' reference ≡ some manifest
  unfolding put_manifests for_each
  put_manifests-there reference [] manifest w w' (inl there) e =
      ap (λ u. manifest_of u reference) (sym (ap (λ p. p.1) e)) ∙ there
  put_manifests-there reference [] manifest w w' (inr h) e = absurd (h refl)
  put_manifests-there reference (r ∷ references) manifest w w' h e =
      let (_, u, e₁, k₁) =
        >>=-returned (R.put_manifest reference manifest)
          (λ _. put_manifests Z R reference references manifest) w e in
      put_manifests-there reference references manifest u w'
        (inl (
          rw (beq_refl reference) at (lawful.put_manifest_lem reference manifest w u e₁ reference)))
        k₁

  pub publish_container_image_from_tarfile-there :
      (reads : List Bytes) (reference : String) (architecture : ContainerArchitecture)
      (additional_tags : List String) (digest : String) (size : ℕ) (w w' : World)
      → publish_container_image_from_tarfile Z R reads reference architecture additional_tags w
        ≡ (ok (digest, size), w')
      → (manifest : Bytes) × (manifest_of w' (R.normalise_image_reference reference)
          ≡ some manifest)
        × (digest ≡ digest_of Z (Z.update Z.sha256 manifest))
        × (size ≡ length manifest)
  unfolding publish_container_image_from_tarfile image_references
  publish_container_image_from_tarfile-there reads reference architecture additional_tags digest
        size w w' e =
      let image_reference = R.normalise_image_reference reference in
      let layer = layer_of Z reads in
      let (_, u₁, e₁, k₁) =
        >>=-returned
          (R.put_blob image_reference (digest_of Z layer.compressed_hash) layer.written
            layer.gzip_file)
          _ w e in
      let (config, u₂, e₂, k₂) =
        >>=-returned (R.dump_config architecture (digest_of Z layer.uncompressed_hash)) _ u₁ k₁ in
      let config_digest = digest_of Z (Z.update Z.sha256 config) in
      let (_, u₃, e₃, k₃) =
        >>=-returned (R.put_blob image_reference config_digest (length config) config) _ u₂ k₂ in
      let manifest =
        R.dump_manifest config_digest (length config) (digest_of Z layer.compressed_hash)
          layer.written in
      let references =
        image_references image_reference (image_name_of image_reference) additional_tags in
      let (_, u₄, e₄, k₄) =
        >>=-returned (put_manifests Z R image_reference references manifest) _ u₃ k₃ in
      let there =
        put_manifests-there image_reference references manifest u₃ u₄ (inr (λ h. cc)) e₄ in
      let answer = ok_injective (ap (λ p. p.0) k₄) in
      (
        manifest,
        ap (λ u. manifest_of u image_reference) (sym (ap (λ p. p.1) k₄)) ∙ there,
        sym (ap (λ a. a.0) answer),
        sym (ap (λ a. a.1) answer),
      )
