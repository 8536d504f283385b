-- ===== src/Azure/Publish/Staged.antt =====
-- What `upload_and_publish_image` leaves when it returns.
use gardenlinux.Prelude.{◌≡◌, refl, sym, ap, subst, ◌∙◌, String, true, List}
use gardenlinux.Prelude.Result.{Result, ok, ok_injective}
use gardenlinux.Prelude.Action.{
  lift-returned, return-returned, on_first-returned, on_second-returned,
}
use gardenlinux.Model.Manifests.{
  OnlineReleaseManifest, ReleaseFile, publishing, azure_image, with_published, path_by_suffix,
}
use gardenlinux.Model.Versions.{virtual_image_artifact_for_platform}
use gardenlinux.Azure.{
  Storage, StorageAccountCfg, image_blob_of, copy_image_from_s3_to_az_storage_account,
}
use gardenlinux.Azure.Copied.{
  View, IsLawfulStorage, IsCopy, store_of, copy_image_from_s3_to_az_storage_account-IsCopy,
}
use gardenlinux.Azure.Offers.{AzureMarketplaceCfg, generate_urn}
use gardenlinux.Azure.Market.{Web, Session, AzureServicePrincipalCfg}
use gardenlinux.Azure.Publish.{
  get_target_blob_name, update_and_publish_marketplace_offer, upload_and_publish_image,
}

-- The suffix of the files for Azure.
abbrev pub azure_artifact : String
azure_artifact = "rootfs.vhd"

pub platform_artifact : virtual_image_artifact_for_platform "azure" ≡ ok azure_artifact
unfolding virtual_image_artifact_for_platform
platform_artifact = refl

module _ (W : Web) (cfg : AzureMarketplaceCfg) (principal : AzureServicePrincipalCfg) (S : Storage)
    (parse_to_semver : String → Result String) where
  -- What publishing has done that returns: the image is copied, and the release has an image that
  -- is being published.
  pub record Staged (account : StorageAccountCfg) (release release' : OnlineReleaseManifest)
      (w w' : S.World) : Type 0 where
    pub path : ReleaseFile
    pub version : String
    pub operation_id : String
    pub url : String
    pub has_path : path_by_suffix azure_artifact release.paths ≡ ok path
    pub has_version : parse_to_semver release.version ≡ ok version
    pub copied :
        copy_image_from_s3_to_az_storage_account S account path.s3_bucket_name path.s3_key
          (get_target_blob_name release.version)
          true
          w
        ≡ (ok url, w')
    pub whole :
        release'
        ≡ with_published (azure_image publishing (generate_urn cfg version) operation_id "") release

  pub staged :
      (account : StorageAccountCfg) (release release' : OnlineReleaseManifest)
      (emails : List String) (w w' : S.World) (s s' : Session W)
      → upload_and_publish_image W cfg principal S parse_to_semver account release emails (w, s)
        ≡ (ok release', (w', s'))
      → Staged account release release' w w'
  unfolding upload_and_publish_image
  staged account release release' emails w w' s s' e =
      let (artifact, e₁, k₁) =
        lift-returned (virtual_image_artifact_for_platform "azure") _ (w, s) e in
      let (path, e₂, k₂) = lift-returned (path_by_suffix artifact release.paths) _ (w, s) k₁ in
      let (url, u, e₃, k₃) =
        on_first-returned
          (copy_image_from_s3_to_az_storage_account S account path.s3_bucket_name path.s3_key
            (get_target_blob_name release.version) true)
          _ w s k₂ in
      let (version, e₄, k₄) = lift-returned (parse_to_semver release.version) _ (u, s) k₃ in
      let (id, t, e₅, k₅) =
        on_second-returned (update_and_publish_marketplace_offer W cfg principal version url emails)
          _ u s k₄ in
      let (whole, same) =
        return-returned
          (with_published (azure_image publishing (generate_urn cfg version) id "") release)
          release' (u, t) (w', s') k₅ in
      let vhd : ok artifact ≡ ok azure_artifact = sym e₁ ∙ platform_artifact in
      record {
        path = path;
        version = version;
        operation_id = id;
        url = url;
        has_path = subst (λ a. path_by_suffix a release.paths ≡ ok path) (ok_injective vhd) e₂;
        has_version = e₄;
        copied = e₃ ∙ ap (λ p. (ok url, p.0)) same;
        whole = sym whole;
      }

module _ (W : Web) (cfg : AzureMarketplaceCfg) (principal : AzureServicePrincipalCfg) (S : Storage)
    (V : View S) (lawful : IsLawfulStorage S V) (parse_to_semver : String → Result String) where
  -- Where the storage behaves as documented, publishing that returns has copied the image of the
  -- release to the blob that is named after its version, and returns the release with an image that
  -- is being published, under the URN of the parsed version; nothing else of it has changed.
  pub upload_and_publish_image-IsCopy :
      (account : StorageAccountCfg) (release release' : OnlineReleaseManifest)
      (emails : List String) (w w' : S.World) (s s' : Session W)
      → upload_and_publish_image W cfg principal S parse_to_semver account release emails (w, s)
        ≡ (ok release', (w', s'))
      → (path : ReleaseFile) × (version : String) × (operation_id : String) × (path_by_suffix
            azure_artifact release.paths
          ≡ ok path)
        × (parse_to_semver release.version ≡ ok version)
        × IsCopy S V
            (image_blob_of S (store_of account) (get_target_blob_name release.version))
            path.s3_bucket_name
            path.s3_key
            w'
        × (release'
            ≡ with_published
                (azure_image publishing (generate_urn cfg version) operation_id "")
                release)
  upload_and_publish_image-IsCopy account release release' emails w w' s s' e =
      let d =
        staged W cfg principal S parse_to_semver account release release' emails w w' s s' e in
      (
        d.path,
        d.version,
        d.operation_id,
        d.has_path,
        d.has_version,
        copy_image_from_s3_to_az_storage_account-IsCopy S V lawful account d.path.s3_bucket_name
            d.path.s3_key (get_target_blob_name release.version) d.url true w w' d.copied,
        d.whole,
      )
