-- ===== src/Azure/Transport/Checked.antt =====
-- Checks of the transport of an image, one after the other.
use gardenlinux.Prelude.{◌≡◌, ◌≢◌, refl, sym, ap, subst, ◌∙◌, String, some, arith}
use gardenlinux.Prelude.Result.{ok}
use gardenlinux.Model.Manifests.{OnlineReleaseManifest, released, with_published}
use gardenlinux.Azure.Offers.{AzureMarketplaceCfg, generate_urn}
use gardenlinux.Azure.Operations.{OperationState}
use gardenlinux.Azure.Market.{Web, Session, AzureServicePrincipalCfg}
use gardenlinux.Azure.Transport.{AzurePublishedImage, metadata, check_offer_transport_state}
use gardenlinux.Azure.Transport.Moves.{
  Moves, stays, goes_live, is_out, fails, IsGoLive, is_done, is_asked,
}
use gardenlinux.Azure.Transport.Diagram.{check_offer_transport_state-IsMoved}

module _ (cfg : AzureMarketplaceCfg) (W : Web) (principal : AzureServicePrincipalCfg) where
  -- What checks lead to that return, whatever else happens to the session between them.
  pub data Checked (release : OnlineReleaseManifest) : OnlineReleaseManifest → Type 0 where
    here : Checked release release
    next :
        {m m' : OnlineReleaseManifest} (s s' : Session W)
        → Checked release m
        → check_offer_transport_state W cfg principal m s ≡ (ok m', s')
        → Checked release m'

  -- The metadata of a release on its way, with the operation that published it.
  abbrev pub IsOnItsWay : OnlineReleaseManifest → String → OnlineReleaseManifest → Type 0
  IsOnItsWay release operation_id m =
      (image : AzurePublishedImage) × (m ≡ with_published (metadata image) release)
      × (image.publish_operation_id ≡ operation_id)
      × (image.transport_state ≡ released → image.urn ≡ generate_urn cfg release.version)

  Moves-kept :
      (status : OperationState) (IsAsked : String → Type 0) (urn : String)
      (before after : AzurePublishedImage)
      → Moves status IsAsked before urn after
      → (before.transport_state ≡ released → before.urn ≡ urn)
      → (after.publish_operation_id ≡ before.publish_operation_id)
        × (after.transport_state ≡ released → after.urn ≡ urn)
  Moves-kept status IsAsked urn before after (stays _ _ e) h = rw e (refl, h)
  Moves-kept status IsAsked urn before after (goes_live id _ _ _ e) h = rw e (refl, λ r. cc)
  Moves-kept status IsAsked urn before after (is_out _ _ e) h = rw e (refl, λ r. refl)
  Moves-kept status IsAsked urn before after (fails _ _ e) h = rw e (refl, λ r. cc)

  metadata_injective : (i j : AzurePublishedImage) → some (metadata i) ≡ some (metadata j) → i ≡ j
  metadata_injective i j h = ground arith

  -- Whatever checks a release with an image that is not released yet goes through, it differs from
  -- the first release in its image alone, which keeps the operation that published it, and which
  -- has, once it is released, the URN that generate_urn makes of the version of the release.
  pub Checked-IsOnItsWay :
      (release : OnlineReleaseManifest) (first : AzurePublishedImage) (m : OnlineReleaseManifest)
      → release.published_image_metadata ≡ some (metadata first)
      → first.transport_state ≢ released
      → Checked release m
      → IsOnItsWay release first.publish_operation_id m
  Checked-IsOnItsWay release first m has fresh here = (
    first,
    ap
        (λ o. record release {
          manifest = record (release.manifest) { published_image_metadata = o };
        })
        has,
    refl,
    λ r. absurd (fresh r),
  )
  Checked-IsOnItsWay release first m has fresh (next {m = middle} s s' before e) =
      let (image, at, id, urn) = Checked-IsOnItsWay release first middle has fresh before in
      let (image', has', checked) =
        check_offer_transport_state-IsMoved cfg W principal middle s s' m e in
      let held : middle.published_image_metadata ≡ some (metadata image) =
        ap (λ (x : OnlineReleaseManifest). x.published_image_metadata) at in
      let same : image ≡ image' = metadata_injective image image' (sym held ∙ has') in
      let version : middle.version ≡ release.version =
        ap (λ (x : OnlineReleaseManifest). x.version) at in
      elim checked [
        | is_done _ left _ ↦ (image, left ∙ at, id, urn)
        | is_asked token status u₁ u₂ _ _ _ (after, moves, e') ↦
            let asked = IsGoLive cfg W token u₂ s' in
            let moved : Moves status asked image (generate_urn cfg release.version) after =
              subst (λ i. Moves status asked i (generate_urn cfg release.version) after) (sym same)
                (subst (λ v. Moves status asked image' (generate_urn cfg v) after) version moves) in
            let (kept, out) =
              Moves-kept status asked (generate_urn cfg release.version) image after moved urn in
            (after, e' ∙ ap (with_published (metadata after)) at, kept ∙ id, out)
      ]
