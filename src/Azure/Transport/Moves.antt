-- ===== src/Azure/Transport/Moves.antt =====
-- The diagram of the states of an image on the Azure Marketplace, and what a check of it comes to.
use gardenlinux.Prelude.{◌≡◌, ◌≢◌, String}
use gardenlinux.Prelude.Result.{ok}
use gardenlinux.Model.Manifests.{
  OnlineReleaseManifest, PublishedImage, AzureTransportState, provisional, publishing, going_live,
  released, azure_image, with_published,
}
use gardenlinux.Model.Manifests
use gardenlinux.Azure.Offers.{AzureMarketplaceCfg, generate_urn}
use gardenlinux.Azure.Operations.{OperationState, succeeded, production}
use gardenlinux.Azure.Market.{
  Web, Session, AzureServicePrincipalCfg, marketplace_client, fetch_operation_state, go_live,
  fetch_ongoing_operation_id,
}
use gardenlinux.Azure.Transport.{AzurePublishedImage, metadata}

-- The diagram, for the state of the operation that published the image: where that has succeeded, an
-- image that is published goes live, and one that went live is released with its URN; where it has
-- failed, an image that does not go live fails; and otherwise an image stays. `IsAsked` says of an
-- identifier that going live was asked for, and that it is that of the operation to production.
pub data Moves (status : OperationState) (IsAsked : String → Type 0) (before : AzurePublishedImage)
    (urn : String) (after : AzurePublishedImage) : Type 0 where
  stays :
      status ≢ OperationState.failed
      → (status ≡ succeeded
          → (before.transport_state ≢ publishing) × (before.transport_state ≢ going_live))
      → after ≡ before
      → Moves status IsAsked before urn after
  goes_live :
      (operation_id : String)
      → status ≡ succeeded
      → before.transport_state ≡ publishing
      → IsAsked operation_id
      → after ≡ record {
        transport_state = going_live;
        urn = "";
        publish_operation_id = before.publish_operation_id;
        golive_operation_id = operation_id;
      }
      → Moves status IsAsked before urn after
  is_out :
      status ≡ succeeded
      → before.transport_state ≡ going_live
      → after ≡ record before { transport_state = released; urn = urn }
      → Moves status IsAsked before urn after
  fails :
      status ≡ OperationState.failed
      → before.transport_state ≢ going_live
      → after ≡ record {
        transport_state = Manifests.failed;
        urn = "";
        publish_operation_id = before.publish_operation_id;
        golive_operation_id = "";
      }
      → Moves status IsAsked before urn after

module _ (cfg : AzureMarketplaceCfg) (W : Web) where
  -- Going live was asked for, and the operation to production has this identifier.
  pub record IsGoLive (token : String) (s s' : Session W) (operation_id : String) : Type 0 where
    pub between : Session W
    pub asked : go_live W token cfg.publisher_id cfg.offer_id s ≡ (ok tt, between)
    pub ongoing :
        fetch_ongoing_operation_id W token cfg.publisher_id cfg.offer_id production between
        ≡ (ok operation_id, s')

  -- The release with an image that a way of the diagram leads to, from the session in which the
  -- state of the operation was answered to the last one.
  abbrev pub IsMoved :
      String
      → OperationState
      → OnlineReleaseManifest
      → AzurePublishedImage
      → OnlineReleaseManifest
      → Session W
      → Session W
      → Type 0
  IsMoved token status release before release' s s' =
      (after : AzurePublishedImage) × Moves status (IsGoLive token s s') before
        (generate_urn cfg release.version) after
      × (release' ≡ with_published (metadata after) release)

  -- A released image is left alone. For any other the state of the operation that published it is
  -- asked for, with a new token, and the image moves by it.
  pub data IsChecked (principal : AzureServicePrincipalCfg) (release : OnlineReleaseManifest)
      (image : AzurePublishedImage) (release' : OnlineReleaseManifest) (s s' : Session W)
      : Type 0 where
    is_done :
        image.transport_state ≡ released
        → release' ≡ release
        → s' ≡ s
        → IsChecked principal release image release' s s'
    is_asked :
        (token : String) (status : OperationState) (u₁ u₂ : Session W)
        → image.transport_state ≢ released
        → marketplace_client W principal.tenant_id principal.client_id principal.client_secret s
          ≡ (ok token, u₁)
        → fetch_operation_state W token cfg.publisher_id cfg.offer_id image.publish_operation_id u₁
          ≡ (ok status, u₂)
        → IsMoved token status release image release' u₂ s'
        → IsChecked principal release image release' s s'
