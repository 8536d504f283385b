-- ===== src/Azure/Gallery/Recreated.antt =====
-- The image that the shared image gallery takes its version from.
use gardenlinux.Prelude.{
  ◌≡◌, refl, sym, ap, subst, ◌∙◌, String, false, Option, none, some, Option-cases, inl, inr,
}
use gardenlinux.Prelude.Result.{Result, ok, err, client_error}
use gardenlinux.Prelude.Action.{
  except, >>=-returned, lift-returned, return-returned, on_first-returned, on_second-returned,
}
use gardenlinux.Model.Manifests.{
  OnlineReleaseManifest, released, azure_image, with_published, path_by_suffix,
}
use gardenlinux.Model.Versions.{virtual_image_artifact_for_platform}
use gardenlinux.Azure.{
  Storage, StorageAccountCfg, get_image_url, copy_image_from_s3_to_az_storage_account,
}
use gardenlinux.Azure.Copied.{store_of, copy_image_from_s3_to_az_storage_account-get_image_url}
use gardenlinux.Azure.Publish.{get_target_blob_name}
use gardenlinux.Azure.Gallery.{
  Management, AzureSharedGalleryCfg, unless, delete_existing, create_shared_image,
  publish_azure_shared_image_gallery,
}

abbrev not_found : String
not_found = "ResourceNotFoundError"

-- The documented behaviour of the management clients: `uri` is the blob of an image, by resource
-- group and name.
pub record IsLawfulManagement (M : Management) (uri : M.World → String → String → Option String)
    : Type 0 where
  pub get_present :
      (group name u : String) (w : M.World)
      → uri w group name ≡ some u
      → (w' : M.World) × (M.get_image group name w ≡ (ok tt, w')) × (uri w' group name ≡ some u)
  pub get_absent :
      (group name : String) (w : M.World)
      → uri w group name ≡ none
      → (w' : M.World) × (M.get_image group name w ≡ (err (client_error not_found), w'))
        × (uri w' group name ≡ none)
  pub delete_present :
      (group name u : String) (w : M.World)
      → uri w group name ≡ some u
      → (w' : M.World) × (M.delete_image group name w ≡ (ok tt, w')) × (uri w' group name ≡ none)
  pub create_image_lem :
      (group name location u id : String) (w w' : M.World)
      → M.create_image group name location u w ≡ (ok id, w')
      → uri w' group name ≡ some u
  pub create_gallery_image_lem :
      (cfg : AzureSharedGalleryCfg) (group name : String) (w w' : M.World)
      → M.create_gallery_image cfg w ≡ (ok tt, w')
      → uri w' group name ≡ uri w group name
  pub create_gallery_image_version_lem :
      (cfg : AzureSharedGalleryCfg) (version source id group name : String) (w w' : M.World)
      → M.create_gallery_image_version cfg version source w ≡ (ok id, w')
      → uri w' group name ≡ uri w group name

module _ (M : Management) (uri : M.World → String → String → Option String)
    (lawful : IsLawfulManagement M uri) where
  -- Where the management clients behave as documented, the step before the creation of an image
  -- returns whether or not there is an image of the name, and leaves none.
  pub delete_existing-none :
      (group name : String) (w : M.World)
      → (w' : M.World) × (delete_existing M group name w ≡ (ok tt, w')) × (uri w' group name ≡ none)
  unfolding delete_existing
  delete_existing-none group name w = elim (Option-cases (uri w group name)) [
    | inl absent ↦
        let (w', e, gone) = lawful.get_absent group name w absent in (w', rw e refl, gone)
    | inr (u, present) ↦
        let (w₁, e₁, still) = lawful.get_present group name u w present in
        let (w₂, e₂, gone) = lawful.delete_present group name u w₁ still in
        (w₂, rw (e₁, e₂) refl, gone)
  ]

  create_shared_image-uri :
      (cfg : AzureSharedGalleryCfg) (version source id group name : String) (w w' : M.World)
      → create_shared_image M cfg version source w ≡ (ok id, w')
      → uri w' group name ≡ uri w group name
  unfolding create_shared_image
  create_shared_image-uri cfg version source id group name w w' e =
      let (_, u, e₁, e₂) = >>=-returned (M.create_gallery_image cfg) _ w e in
      lawful.create_gallery_image_version_lem cfg version source id group name u w' e₂
      ∙ lawful.create_gallery_image_lem cfg group name w u e₁

  module _ (S : Storage) (parse_to_semver : String → Result String) where
    -- Where the management clients behave as documented, publishing to the gallery that returns
    -- leaves an image under the name of the blob, with the URL of the blob without a token, and
    -- returns the release as released under the identifier of the shared image, with no operations.
    pub publish_azure_shared_image_gallery-uri :
        (release release' : OnlineReleaseManifest) (account : StorageAccountCfg)
        (cfg : AzureSharedGalleryCfg) (w w' : S.World) (m m' : M.World)
        → publish_azure_shared_image_gallery M S parse_to_semver release account cfg (w, m)
          ≡ (ok release', (w', m'))
        → let name = get_target_blob_name release.version in
          (url : String) × (id : String) × ((v : S.World)
            → get_image_url S (store_of account) name false v ≡ (ok url, v))
          × (uri m' cfg.resource_group_name name ≡ some url)
          × (release' ≡ with_published (azure_image released id "" "") release)
    unfolding publish_azure_shared_image_gallery
    publish_azure_shared_image_gallery-uri release release' account cfg w w' m m' e =
        let name = get_target_blob_name release.version in
        let (artifact, e₁, k₁) =
          lift-returned (virtual_image_artifact_for_platform "azure") _ (w, m) e in
        let (path, e₂, k₂) = lift-returned (path_by_suffix artifact release.paths) _ (w, m) k₁ in
        let (_, m₁, e₃, k₃) =
          on_second-returned
            (except
              (M.create_container cfg.resource_group_name account.storage_account_name
                account.container_name_sig)
              (unless "ResourceExistsError"))
            _ w m k₂ in
        let (url, w₁, e₄, k₄) =
          on_first-returned
            (copy_image_from_s3_to_az_storage_account S account path.s3_bucket_name path.s3_key name
              false)
            _ w m₁ k₃ in
        let (version, e₅, k₅) = lift-returned (parse_to_semver release.version) _ (w₁, m₁) k₄ in
        let (_, m₂, e₆, k₆) =
          on_second-returned (delete_existing M cfg.resource_group_name name) _ w₁ m₁ k₅ in
        let (id, m₃, e₇, k₇) =
          on_second-returned (M.create_image cfg.resource_group_name name cfg.location url) _ w₁ m₂
            k₆ in
        let (shared, m₄, e₈, k₈) =
          on_second-returned (create_shared_image M cfg version id) _ w₁ m₃ k₇ in
        let (whole, same) =
          return-returned (with_published (azure_image released shared "" "") release) release'
            (w₁, m₄) (w', m') k₈ in
        let kept =
          create_shared_image-uri cfg version id shared cfg.resource_group_name name m₃ m₄ e₈ in
        let made =
          lawful.create_image_lem cfg.resource_group_name name cfg.location url id m₂ m₃ e₇ in
        (
          url,
          shared,
          copy_image_from_s3_to_az_storage_account-get_image_url S account path.s3_bucket_name
              path.s3_key name url w w₁ e₄,
          subst (λ x. uri x cfg.resource_group_name name ≡ some url) (ap (λ p. p.1) same)
              (kept ∙ made),
          sym whole,
        )
