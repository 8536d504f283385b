-- ===== src/Azure/Transport/Diagram.antt =====
-- The ways that the state of an image on the Azure Marketplace may change.
use gardenlinux.Prelude.{
  ◌≡◌, ◌≢◌, refl, sym, ap, ◌∙◌, String, true, false, Option, none, some, Bool-cases, inl, inr,
  arith,
}
use gardenlinux.Prelude.Result.{ok, ok_injective}
use gardenlinux.Prelude.Action.{return, lift, >>=-returned}
use gardenlinux.Model.Manifests.{
  OnlineReleaseManifest, PublishedImage, AzureTransportState, provisional, publishing, going_live,
  released, azure_image, with_published,
}
use gardenlinux.Model.Manifests
use gardenlinux.Azure.Offers.{AzureMarketplaceCfg, generate_urn}
use gardenlinux.Azure.Operations.{
  OperationState, not_started, running, completed, succeeded, production,
}
use gardenlinux.Azure.Market.{
  Web, Session, AzureServicePrincipalCfg, marketplace_client, fetch_operation_state, go_live,
  fetch_ongoing_operation_id,
}
use gardenlinux.Azure.Transport.{
  AzurePublishedImage, metadata, azure_published_image, is_released, transport,
  check_offer_transport_state,
}
use gardenlinux.Azure.Transport.Moves.{
  Moves, stays, goes_live, is_out, fails, IsGoLive, IsMoved, IsChecked, is_done, is_asked,
}

metadata_of :
    (o : Option PublishedImage) (image : AzurePublishedImage)
    → azure_published_image o ≡ ok image
    → o ≡ some (metadata image)
unfolding azure_published_image
metadata_of (some (azure_image a b c d)) image h = ap (λ i. some (metadata i)) (ok_injective h)
metadata_of (some (Manifests.alicloud_set l)) image h = cc
metadata_of (some (Manifests.aws_set l)) image h = cc
metadata_of (some (Manifests.gcp_image l k)) image h = cc
metadata_of (some (Manifests.oci_image l)) image h = cc
metadata_of (some (Manifests.openstack_set l)) image h = cc
metadata_of none image h = cc

is_released-eq : (state : AzureTransportState) → is_released state ≡ true → state ≡ released
is_released-eq released h = refl
is_released-eq provisional h = cc
is_released-eq publishing h = cc
is_released-eq going_live h = cc
is_released-eq Manifests.failed h = cc

is_released-ne : (state : AzureTransportState) → is_released state ≡ false → state ≢ released
is_released-ne state h e = ground arith

module _ (cfg : AzureMarketplaceCfg) (W : Web) where
  returned :
      (token : String) (status : OperationState) (release release' : OnlineReleaseManifest)
      (image after : AzurePublishedImage) (x : OnlineReleaseManifest) (s u s' : Session W)
      → Moves status (IsGoLive cfg W token s s') image (generate_urn cfg release.version) after
      → x ≡ with_published (metadata after) release
      → return x u ≡ (ok release', s')
      → IsMoved cfg W token status release image release' s s'
  returned token status release release' image after x s u s' m e r =
      (after, m, sym (ok_injective (ap (λ p. p.0) r)) ∙ e)

  module _ (release : OnlineReleaseManifest) (image : AzurePublishedImage) (token : String)
      (has : release.published_image_metadata ≡ some (metadata image)) where
    same : release ≡ with_published (metadata image) release
    same =
        ap
          (λ o. record release {
            manifest = record (release.manifest) { published_image_metadata = o };
          })
          has

    still :
        (status : OperationState) (s s' : Session W) (release' : OnlineReleaseManifest)
        → status ≢ OperationState.failed
        → (status ≡ succeeded
            → (image.transport_state ≢ publishing) × (image.transport_state ≢ going_live))
        → return release s ≡ (ok release', s')
        → IsMoved cfg W token status release image release' s s'
    still status s s' release' h k e =
        returned token status release release' image image release s s s' (stays h k refl) same e

    failing :
        (s s' : Session W) (release' : OnlineReleaseManifest)
        → image.transport_state ≢ going_live
        → return
            (with_published
              (metadata (record {
                transport_state = Manifests.failed;
                urn = "";
                publish_operation_id = image.publish_operation_id;
                golive_operation_id = "";
              }))
              release)
            s
          ≡ (ok release', s')
        → IsMoved cfg W token OperationState.failed release image release' s s'
    failing s s' release' h e =
        returned token OperationState.failed release release' image _ _ s s s' (fails refl h refl)
          refl e

    transport-IsMoved :
        (status : OperationState) (state : AzureTransportState) (s s' : Session W)
        (release' : OnlineReleaseManifest)
        → image.transport_state ≡ state
        → state ≢ released
        → transport W cfg release image token status state s ≡ (ok release', s')
        → IsMoved cfg W token status release image release' s s'
    unfolding transport
    transport-IsMoved OperationState.failed going_live s s' release' at other e = cc
    transport-IsMoved OperationState.failed released s s' release' at other e = absurd (other refl)
    transport-IsMoved OperationState.failed provisional s s' release' at other e =
        failing s s' release' (λ h. cc) e
    transport-IsMoved OperationState.failed publishing s s' release' at other e =
        failing s s' release' (λ h. cc) e
    transport-IsMoved OperationState.failed Manifests.failed s s' release' at other e =
        failing s s' release' (λ h. cc) e
    transport-IsMoved succeeded publishing s s' release' at other e =
        let (_, u₁, e₁, k₁) = >>=-returned (go_live W token cfg.publisher_id cfg.offer_id) _ s e in
        let (id, u₂, e₂, k₂) =
          >>=-returned (fetch_ongoing_operation_id W token cfg.publisher_id cfg.offer_id production)
            _ u₁ k₁ in
        let asked : IsGoLive cfg W token s s' id = record {
          between = u₁;
          asked = e₁;
          ongoing = e₂ ∙ ap (λ v. (ok id, v)) (ap (λ p. p.1) k₂);
        } in
        returned token succeeded release release' image _ _ s u₂ s'
          (goes_live id refl at asked refl) refl k₂
    transport-IsMoved succeeded going_live s s' release' at other e =
        returned token succeeded release release' image _ _ s s s' (is_out refl at refl) refl e
    transport-IsMoved succeeded released s s' release' at other e = absurd (other refl)
    transport-IsMoved succeeded provisional s s' release' at other e =
        still succeeded s s' release' (λ h. cc) (λ _. (λ h. cc, λ h. cc)) e
    transport-IsMoved succeeded Manifests.failed s s' release' at other e =
        still succeeded s s' release' (λ h. cc) (λ _. (λ h. cc, λ h. cc)) e
    transport-IsMoved not_started x s s' release' at other e =
        still not_started s s' release' (λ h. cc) (λ h. cc) e
    transport-IsMoved running x s s' release' at other e =
        still running s s' release' (λ h. cc) (λ h. cc) e
    transport-IsMoved completed x s s' release' at other e =
        still completed s s' release' (λ h. cc) (λ h. cc) e

  -- A check of the transport that returns has left a released image and the session as they were.
  -- For any other image it has asked for the state of the operation that published it, and has
  -- changed nothing of the release but the image: where the operation has succeeded, one whose
  -- transport state says that it is published goes live, as was asked for and under the identifier
  -- of the operation to production, and one that goes live is released with the URN of the version
  -- of the release; where it has failed, the image fails, and did not go live; otherwise it stays.
  pub check_offer_transport_state-IsMoved :
      (principal : AzureServicePrincipalCfg) (release : OnlineReleaseManifest) (s s' : Session W)
      (release' : OnlineReleaseManifest)
      → check_offer_transport_state W cfg principal release s ≡ (ok release', s')
      → (image : AzurePublishedImage) × (release.published_image_metadata ≡ some (metadata image))
        × IsChecked cfg W principal release image release' s s'
  unfolding check_offer_transport_state
  check_offer_transport_state-IsMoved principal release s s' release' e =
      let (image, u, e₁, k) =
        >>=-returned (lift (azure_published_image release.published_image_metadata)) _ s e in
      let has = metadata_of release.published_image_metadata image (ap (λ p. p.0) e₁) in
      let here : s ≡ u = ap (λ p. p.1) e₁ in
      (
        image,
        has,
        elim (Bool-cases (is_released image.transport_state)) [
          | inl out ↦
              let k' = rw out at k in
              is_done (is_released-eq image.transport_state out)
                (sym (ok_injective (ap (λ p. p.0) k'))) (sym (ap (λ p. p.1) k') ∙ sym here)
          | inr on ↦
              let (token, u₁, e₂, k₂) =
                >>=-returned
                  (marketplace_client W principal.tenant_id principal.client_id
                    principal.client_secret)
                  _ u (rw on at k) in
              let (status, u₂, e₃, k₃) =
                >>=-returned
                  (fetch_operation_state W token cfg.publisher_id cfg.offer_id
                    image.publish_operation_id)
                  _ u₁ k₂ in
              let other = is_released-ne image.transport_state on in
              is_asked token status u₁ u₂ other
                (ap
                    (marketplace_client W principal.tenant_id principal.client_id
                      principal.client_secret)
                    here
                  ∙ e₂)
                e₃
                (transport-IsMoved release image token has status image.transport_state u₂ s'
                  release' refl other k₃)
        ],
      )
