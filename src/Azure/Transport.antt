-- ===== src/Azure/Transport.antt =====
-- `check_offer_transport_state` of ci/glci/az.py.
pub mod Moves
pub mod Diagram
pub mod Checked
pub mod Released
use gardenlinux.Prelude.{String, Bool, true, false, Option, none, some, if◌then◌else◌}
use gardenlinux.Prelude.Result.{Result, ok, err, attribute_error}
use gardenlinux.Prelude.Action.{Action, return, raise, lift, ◌>>=◌, ◌>>◌}
use gardenlinux.Model.Manifests.{
  OnlineReleaseManifest, PublishedImage, AzureTransportState, provisional, publishing, going_live,
  released, azure_image, with_published,
}
use gardenlinux.Model.Manifests
use gardenlinux.Azure.Offers.{AzureMarketplaceCfg, generate_urn}
use gardenlinux.Azure.Operations.{OperationState, succeeded, production}
use gardenlinux.Azure.Market.{
  Web, Session, AzureServicePrincipalCfg, marketplace_client, fetch_operation_state, go_live,
  fetch_ongoing_operation_id,
}

-- `AzurePublishedImage`
pub record AzurePublishedImage : Type 0 where
  pub transport_state : AzureTransportState
  pub urn : String
  pub publish_operation_id : String
  pub golive_operation_id : String

abbrev pub metadata : AzurePublishedImage → PublishedImage
metadata i = azure_image i.transport_state i.urn i.publish_operation_id i.golive_operation_id

-- The attributes of the metadata, which other images and `None` do not have.
unfoldable pub azure_published_image : Option PublishedImage → Result AzurePublishedImage
azure_published_image
      (some (azure_image transport_state urn publish_operation_id golive_operation_id)) =
    ok (record {
      transport_state = transport_state;
      urn = urn;
      publish_operation_id = publish_operation_id;
      golive_operation_id = golive_operation_id;
    })
azure_published_image _ = err attribute_error

abbrev pub is_released : AzureTransportState → Bool
is_released released = true
is_released _ = false

module _ (W : Web) (marketplace_cfg : AzureMarketplaceCfg) where
  open marketplace_cfg use {publisher_id, offer_id}

  -- The branches on the state of the operation and on the transport state. An image that goes live
  -- is assigned to a field of a frozen dataclass when the operation has failed.
  unfoldable pub transport :
      OnlineReleaseManifest
      → AzurePublishedImage
      → String
      → OperationState
      → AzureTransportState
      → Action (Session W) OnlineReleaseManifest
  transport release image token OperationState.failed going_live = raise attribute_error
  transport release image token OperationState.failed transport_state = return (
      with_published
        (metadata (record {
          transport_state = Manifests.failed;
          urn = "";
          publish_operation_id = image.publish_operation_id;
          golive_operation_id = "";
        }))
        release)
  transport release image token succeeded publishing = do
    go_live W token publisher_id offer_id
    golive_operation_id ← fetch_ongoing_operation_id W token publisher_id offer_id production
    return (
        with_published
          (metadata (record {
            transport_state = going_live;
            urn = "";
            publish_operation_id = image.publish_operation_id;
            golive_operation_id = golive_operation_id;
          }))
          release)
  transport release image token succeeded going_live = return (
      with_published
        (metadata (record {
          transport_state = released;
          urn = generate_urn marketplace_cfg release.version;
          publish_operation_id = image.publish_operation_id;
          golive_operation_id = image.golive_operation_id;
        }))
        release)
  transport release image token operation_status transport_state = return release

  unfoldable pub check_offer_transport_state :
      AzureServicePrincipalCfg → OnlineReleaseManifest → Action (Session W) OnlineReleaseManifest
  unfolding azure_published_image transport
  check_offer_transport_state service_principal_cfg release = do
    image ← lift (azure_published_image release.published_image_metadata)
    let checked = (do
      token ←
          marketplace_client W service_principal_cfg.tenant_id service_principal_cfg.client_id
            service_principal_cfg.client_secret
      operation_status ←
          fetch_operation_state W token publisher_id offer_id image.publish_operation_id
      transport release image token operation_status image.transport_state)
    (if is_released image.transport_state then return release else checked)
