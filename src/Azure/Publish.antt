-- ===== src/Azure/Publish.antt =====
-- `upload_and_publish_image` of ci/glci/az.py.
pub mod Staged
use gardenlinux.Prelude.{String, ◌<>◌, true, List}
use gardenlinux.Prelude.Result.{Result}
use gardenlinux.Prelude.Action.{Action, return, lift, on_first, on_second, ◌>>=◌, ◌>>◌}
use gardenlinux.Model.Manifests.{OnlineReleaseManifest, publishing, with_published, path_by_suffix}
use gardenlinux.Model.Versions.{virtual_image_artifact_for_platform}
use gardenlinux.Azure.{Storage, StorageAccountCfg, copy_image_from_s3_to_az_storage_account}
use gardenlinux.Azure.Offers.{AzureMarketplaceCfg, add_image_version_to_plan, generate_urn}
use gardenlinux.Azure.Operations.{staging}
use gardenlinux.Azure.Market.{
  Web, Session, AzureServicePrincipalCfg, marketplace_client, fetch_offer, update_offer,
  publish_offer, fetch_ongoing_operation_id,
}
use gardenlinux.Azure.Transport.{metadata}

-- `_get_target_blob_name`
unfoldable pub get_target_blob_name : String → String
get_target_blob_name version = "gardenlinux-az-" <> (version <> ".vhd")

module _ (W : Web) (marketplace_cfg : AzureMarketplaceCfg)
    (principal : AzureServicePrincipalCfg) where
  open marketplace_cfg use {publisher_id, offer_id, plan_id}

  unfoldable pub update_and_publish_marketplace_offer :
      String → String → List String → Action (Session W) String
  update_and_publish_marketplace_offer image_version image_url notification_recipients = do
    token ← marketplace_client W principal.tenant_id principal.client_id principal.client_secret
    offer_spec ← fetch_offer W token publisher_id offer_id
    modified_offer_spec ←
        lift (add_image_version_to_plan offer_spec plan_id image_version image_url)
    update_offer W token publisher_id offer_id modified_offer_spec
    publish_offer W token publisher_id offer_id notification_recipients
    fetch_ongoing_operation_id W token publisher_id offer_id staging

  -- The text of the version that `parse_to_semver` reads is a parameter.
  module _ (S : Storage) (parse_to_semver : String → Result String) where
    unfoldable pub upload_and_publish_image :
        StorageAccountCfg
        → OnlineReleaseManifest
        → List String
        → Action (S.World × Session W) OnlineReleaseManifest
    unfolding update_and_publish_marketplace_offer
    upload_and_publish_image storage_account_cfg release notification_emails = do
      azure_release_artifact ← lift (virtual_image_artifact_for_platform "azure")
      azure_release_artifact_path ← lift (path_by_suffix azure_release_artifact release.paths)
      image_url ← on_first (
          copy_image_from_s3_to_az_storage_account S storage_account_cfg
            azure_release_artifact_path.s3_bucket_name azure_release_artifact_path.s3_key
            (get_target_blob_name release.version) true)
      azure_version ← lift (parse_to_semver release.version)
      publish_operation_id ←
          on_second
            (update_and_publish_marketplace_offer azure_version image_url notification_emails)
      return (
          with_published
            (metadata (record {
              transport_state = publishing;
              urn = generate_urn marketplace_cfg azure_version;
              publish_operation_id = publish_operation_id;
              golive_operation_id = "";
            }))
            release)
