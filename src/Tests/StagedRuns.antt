-- ===== src/Tests/StagedRuns.antt =====
-- An image that is copied to a storage account and put into a plan of the Azure Marketplace.
use gardenlinux.Prelude.{◌≡◌, refl, String, ◌<>◌, string_eq, [], ◌∷◌}
use gardenlinux.Prelude.Result.{Result, ok}
use gardenlinux.Model.Manifests.{
  OnlineReleaseManifest, ReleaseFile, publishing, azure_image, with_published, path_by_suffix,
}
use gardenlinux.Model.Versions.{virtual_image_artifact_for_platform}
use gardenlinux.Azure.{
  copy_image_from_s3_to_az_storage_account, copy_from_s3, step_of, get_image_url, StorageAccountCfg,
  image_blob_of,
}
use gardenlinux.Azure.Copied.{IsCopy, store_of}
use gardenlinux.Azure.Offers.{add_image_version_to_plan, find_plan_spec, generate_urn}
use gardenlinux.Azure.Operations.{ongoing_id, operation_state, transport_dest, ongoing_id}
use gardenlinux.Azure.Market.{
  Session, fetch_offer, fetch_ongoing_operation_id, marketplace_client, publish_offer,
  request_by_default, request_with, update_offer,
}
use gardenlinux.Azure.Publish.{get_target_blob_name, upload_and_publish_image}
use gardenlinux.Azure.Publish.Staged.{azure_artifact, upload_and_publish_image-IsCopy}
use gardenlinux.Tests.ReleaseRuns.{first_release}
use gardenlinux.Tests.StorageRuns.{Blob, storage, view, storage-IsLawful}
use gardenlinux.Tests.MarketRuns.{cfg, principal, web, session}

abbrev image_path : ReleaseFile
image_path = record {
  name = "image";
  suffix = "rootfs.vhd";
  s3_key = "objects/1";
  s3_bucket_name = "bucket";
}

abbrev with_image : OnlineReleaseManifest
with_image = record first_release {
  manifest = record (first_release.manifest) { paths = image_path ∷ [] };
}

abbrev pub account : StorageAccountCfg
account = record {
  storage_account_name = "account";
  access_key = "key";
  container_name = "images";
  container_name_sig = "gallery";
}

abbrev blank : Blob
blank = record { size = 0; byte = λ i. 7 }

abbrev strict : String → Result String
strict version = ok (version <> ".0")

abbrev published_state : Blob × Session web
published_state =
    (upload_and_publish_image web cfg principal storage strict account with_image []
      (blank, session 0)).1

published :
    upload_and_publish_image web cfg principal storage strict account with_image []
      (blank, session 0)
    ≡ (
      ok (
          with_published
            (azure_image publishing "sap:gardenlinux:greatest:27.0.0" "stage" "")
            with_image),
      (published_state.0, published_state.1),
    )
unfolding upload_and_publish_image virtual_image_artifact_for_platform path_by_suffix
    copy_image_from_s3_to_az_storage_account copy_from_s3 step_of get_image_url marketplace_client
    fetch_offer request_by_default add_image_version_to_plan find_plan_spec update_offer
    request_with publish_offer fetch_ongoing_operation_id ongoing_id transport_dest operation_state
    generate_urn first_release
published = refl

upload_and_publish_image-IsCopy_example :
    (path : ReleaseFile) × (version : String) × (operation_id : String) × (path_by_suffix
        azure_artifact with_image.paths
      ≡ ok path)
    × (strict with_image.version ≡ ok version)
    × IsCopy storage view
        (image_blob_of storage (store_of account) (get_target_blob_name with_image.version))
        path.s3_bucket_name
        path.s3_key
        published_state.0
    × (with_published
          (azure_image publishing "sap:gardenlinux:greatest:27.0.0" "stage" "")
          with_image
        ≡ with_published
            (azure_image publishing (generate_urn cfg version) operation_id "")
            with_image)
upload_and_publish_image-IsCopy_example =
    upload_and_publish_image-IsCopy web cfg principal storage view storage-IsLawful strict account
      with_image
      (with_published (azure_image publishing "sap:gardenlinux:greatest:27.0.0" "stage" "")
        with_image)
      [] blank published_state.0 (session 0) published_state.1 published
