-- ===== src/Azure/Gallery.antt =====
-- `publish_azure_shared_image_gallery` of ci/glci/az.py.
pub mod Recreated
use gardenlinux.Prelude.{String, ◌<>◌, false, ◌==◌, string_eq, if◌then◌else◌}
use gardenlinux.Prelude.Result.{Result, Error, client_error}
use gardenlinux.Prelude.Action.{
  Action, return, raise, lift, except, on_first, on_second, ◌>>=◌, ◌>>◌,
}
use gardenlinux.Model.Manifests.{OnlineReleaseManifest, released, with_published, path_by_suffix}
use gardenlinux.Model.Versions.{virtual_image_artifact_for_platform}
use gardenlinux.Azure.{Storage, StorageAccountCfg, copy_image_from_s3_to_az_storage_account}
use gardenlinux.Azure.Publish.{get_target_blob_name}
use gardenlinux.Azure.Transport.{metadata}

pub record AzureSharedGalleryCfg : Type 0 where
  pub resource_group_name : String
  pub gallery_name : String
  pub location : String
  pub published_name : String
  pub description : String
  pub eula : String
  pub release_note_uri : String
  pub identifier_publisher : String
  pub identifier_offer : String
  pub identifier_sku : String

-- What the code uses of the management clients, each call waited for. Their exceptions are client
-- errors with the name of the class as code.
pub record Management : Type 1 where
  pub World : Type 0
  -- `blob_containers.create`: resource group, account and container
  pub create_container : String → String → String → Action World (Unit {0})
  -- `images.get`, `images.begin_delete`: resource group and name
  pub get_image : String → String → Action World (Unit {0})
  pub delete_image : String → String → Action World (Unit {0})
  -- `images.begin_create_or_update`: resource group, name, location and the URI of the blob; the
  -- identifier of the image
  pub create_image : String → String → String → String → Action World String
  -- `gallery_images.begin_create_or_update`, of a configuration
  pub create_gallery_image : AzureSharedGalleryCfg → Action World (Unit {0})
  -- `gallery_image_versions.begin_create_or_update`: the version and the identifier of the source
  pub create_gallery_image_version : AzureSharedGalleryCfg → String → String → Action World String

-- `except name: pass`
abbrev pub unless : {State : Type 0} → String → Error → Action State (Unit {0})
unless name (client_error raised) =
    if raised == name then return tt else raise (client_error raised)
unless name e = raise e

module _ (M : Management) where
  unfoldable pub create_shared_image :
      AzureSharedGalleryCfg → String → String → Action M.World String
  create_shared_image shared_gallery_cfg image_version source_id = do
    M.create_gallery_image shared_gallery_cfg
    M.create_gallery_image_version shared_gallery_cfg image_version source_id

  -- An image that exists is deleted, since its URL cannot be changed.
  unfoldable pub delete_existing : String → String → Action M.World (Unit {0})
  delete_existing resource_group_name published_name =
      except
        (do
          M.get_image resource_group_name published_name
          M.delete_image resource_group_name published_name)
        (unless "ResourceNotFoundError")

  module _ (S : Storage) (parse_to_semver : String → Result String) where
    unfoldable pub publish_azure_shared_image_gallery :
        OnlineReleaseManifest
        → StorageAccountCfg
        → AzureSharedGalleryCfg
        → Action (S.World × M.World) OnlineReleaseManifest
    unfolding delete_existing create_shared_image
    publish_azure_shared_image_gallery release storage_account_cfg shared_gallery_cfg = do
      azure_release_artifact ← lift (virtual_image_artifact_for_platform "azure")
      azure_release_artifact_path ← lift (path_by_suffix azure_release_artifact release.paths)
      on_second (
          except
            (M.create_container shared_gallery_cfg.resource_group_name
              storage_account_cfg.storage_account_name storage_account_cfg.container_name_sig)
            (unless "ResourceExistsError"))
      image_url ← on_first (
          copy_image_from_s3_to_az_storage_account S storage_account_cfg
            azure_release_artifact_path.s3_bucket_name azure_release_artifact_path.s3_key
            (get_target_blob_name release.version) false)
      published_version ← lift (parse_to_semver release.version)
      on_second (
          delete_existing shared_gallery_cfg.resource_group_name
            (get_target_blob_name release.version))
      image_id ← on_second (
          M.create_image shared_gallery_cfg.resource_group_name
            (get_target_blob_name release.version) shared_gallery_cfg.location image_url)
      shared_id ← on_second (create_shared_image shared_gallery_cfg published_version image_id)
      return (
          with_published
            (metadata (record {
              transport_state = released;
              urn = shared_id;
              publish_operation_id = "";
              golive_operation_id = "";
            }))
            release)
