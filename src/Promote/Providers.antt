-- ===== src/Promote/Providers.antt =====
-- The publishing functions of ci/promote.py for Azure, GCP and OCI, over those of the other
-- providers. The clients and configurations that they fetch are parameters.
pub mod Kept
use gardenlinux.Prelude.{ℕ, String, true, List}
use gardenlinux.Prelude.Result.{Result}
use gardenlinux.Prelude.Action.{Action, on_first, on_second}
use gardenlinux.Model.Features.{FeatureDescriptor}
use gardenlinux.Model.Manifests.{OnlineReleaseManifest}
use gardenlinux.Azure.{Storage, StorageAccountCfg}
use gardenlinux.Azure.Offers.{AzureMarketplaceCfg}
use gardenlinux.Azure.Market.{Web, Session, AzureServicePrincipalCfg}
use gardenlinux.Azure.Publish.{upload_and_publish_image as upload_and_publish_on_azure}
use gardenlinux.Gcp.{Gcp, upload_and_publish_image as upload_and_publish_on_gcp}
use gardenlinux.Oci.Identifier.{Holding}
use gardenlinux.Oci.Layer.{Gzip}
use gardenlinux.Oci.{Registry, publish_image as publish_on_oci}
use gardenlinux.Promote.Image.{Publisher, Provider, ali, aws, gcp, azure, openstack, oci}

-- What `cicd_cfg` and the factories of configurations say.
pub record PublishCfg : Type 0 where
  pub service_principal_cfg : AzureServicePrincipalCfg
  pub storage_account_cfg : StorageAccountCfg
  pub azure_marketplace_cfg : AzureMarketplaceCfg
  pub notification_emails : List String
  pub gcp_bucket_name : String
  pub gcp_project_name : String
  pub image_prefix : String

-- The clients of the providers.
pub record Clients : Type 1 where
  pub storage : Storage
  pub web : Web
  pub parse_to_semver : String → Result String
  pub gcp : Gcp
  pub gzip : Gzip
  pub registry : Registry gzip

module _ (C : Clients) (cfg : PublishCfg) (holding : Holding) (features : List FeatureDescriptor)
    (depth : ℕ) where
  unfoldable pub publish_azure_image :
      OnlineReleaseManifest → Action (C.storage.World × Session C.web) OnlineReleaseManifest
  publish_azure_image release =
      upload_and_publish_on_azure C.web cfg.azure_marketplace_cfg cfg.service_principal_cfg
        C.storage C.parse_to_semver cfg.storage_account_cfg release cfg.notification_emails

  unfoldable pub publish_gcp_image :
      OnlineReleaseManifest → Action C.gcp.World OnlineReleaseManifest
  publish_gcp_image release =
      upload_and_publish_on_gcp C.gcp features depth cfg.gcp_bucket_name cfg.gcp_project_name
        release

  -- With the default of `release_build`. The holding says whether the release was read from the
  -- store or has just been built.
  unfoldable pub publish_oci_image :
      OnlineReleaseManifest → Action C.registry.World OnlineReleaseManifest
  publish_oci_image release =
      publish_on_oci C.gzip C.registry features depth holding release cfg.image_prefix true

  module _ (others : Publisher) where
    abbrev pub Worlds : Type 0
    Worlds = others.World × ((C.storage.World × Session C.web) × (C.gcp.World × C.registry.World))

    unfoldable pub publish_function :
        Provider → OnlineReleaseManifest → Action Worlds OnlineReleaseManifest
    unfolding publish_azure_image publish_gcp_image publish_oci_image
    publish_function azure release = on_second (on_first (publish_azure_image release))
    publish_function gcp release = on_second (on_second (on_first (publish_gcp_image release)))
    publish_function oci release = on_second (on_second (on_second (publish_oci_image release)))
    publish_function p release = on_first (others.publish_function p release)

    -- The functions of all providers.
    unfoldable pub providers : Publisher
    unfolding publish_function
    providers = record {
      World = Worlds;
      publish_function = publish_function;
      cleanup_function = λ p release. on_first (others.cleanup_function p release);
    }
