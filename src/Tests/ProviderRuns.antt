-- ===== src/Tests/ProviderRuns.antt =====
-- The publishing functions over the services of the other tests.
use gardenlinux.Prelude.{[], ◌∷◌}
use gardenlinux.Prelude.Result.{ok}
use gardenlinux.Model.Tests.{registry}
use gardenlinux.Oci.Identifier.{as_value}
use gardenlinux.Promote.Image.Published.{IsFaithful}
use gardenlinux.Promote.Providers.{PublishCfg, Clients, providers}
use gardenlinux.Promote.Providers.Kept.{providers-IsFaithful}
use gardenlinux.Tests.StorageRuns.{storage}
use gardenlinux.Tests.MarketRuns.{cfg, principal, web}
use gardenlinux.Tests.StagedRuns.{account}
use gardenlinux.Tests.CloudRuns.{gcp}
use gardenlinux.Tests.OciRuns.{gzip, images}
use gardenlinux.Tests.PromoteRuns.{publisher, publisher-IsFaithful}

abbrev clients : Clients
clients = record {
  storage = storage;
  web = web;
  parse_to_semver = λ version. ok version;
  gcp = gcp;
  gzip = gzip;
  registry = images;
}

abbrev publish_cfg : PublishCfg
publish_cfg = record {
  service_principal_cfg = principal;
  storage_account_cfg = account;
  azure_marketplace_cfg = cfg;
  notification_emails = "team@example.org" ∷ [];
  gcp_bucket_name = "images";
  gcp_project_name = "project";
  image_prefix = "registry/gardenlinux";
}

providers-IsFaithful_example :
    IsFaithful (providers clients publish_cfg as_value registry 9 publisher)
providers-IsFaithful_example =
    providers-IsFaithful clients publish_cfg as_value registry 9 publisher publisher-IsFaithful
