-- ===== src/Promote/Providers/Kept.antt =====
-- What the publishing functions of ci/promote.py keep of a release.
use gardenlinux.Prelude.{ℕ, ◌≡◌, refl, sym, ap, subst, true, false, is_none, List}
use gardenlinux.Prelude.Result.{ok}
use gardenlinux.Prelude.Action.{>>=-returned}
use gardenlinux.Model.Features.{FeatureDescriptor}
use gardenlinux.Model.Manifests.{OnlineReleaseManifest, PublishedImage, with_published}
use gardenlinux.Azure.Market.{Session}
use gardenlinux.Azure.Publish.Staged.{staged}
use gardenlinux.Gcp.{
  upload_image_to_gcp_store, upload_and_publish_image as upload_and_publish_on_gcp,
}
use gardenlinux.Gcp.Public.{upload_image_from_gcp_store-IsPublic}
use gardenlinux.Oci.Identifier.{Holding}
use gardenlinux.Oci.Published.{publish_image-with_published}
use gardenlinux.Promote.Image.{Publisher, Provider, ali, aws, gcp, azure, openstack, oci}
use gardenlinux.Promote.Image.Published.{IsFaithful}
use gardenlinux.Promote.Providers.{
  PublishCfg, Clients, Worlds, publish_azure_image, publish_gcp_image, publish_oci_image,
  publish_function, providers,
}

-- A release that is published is the same release, with metadata.
abbrev IsKept : OnlineReleaseManifest → OnlineReleaseManifest → Type 0
IsKept m m' = (m'.identifier ≡ m.identifier) × (is_none m'.published_image_metadata ≡ false)

with_published-IsKept :
    (image : PublishedImage) (m m' : OnlineReleaseManifest)
    → m' ≡ with_published image m
    → IsKept m m'
with_published-IsKept image m m' e = subst (IsKept m) (sym e) (refl, refl)

module _ (C : Clients) (cfg : PublishCfg) (holding : Holding) (features : List FeatureDescriptor)
    (depth : ℕ) where
  publish_azure_image-IsKept :
      (m m' : OnlineReleaseManifest) (w w' : C.storage.World) (s s' : Session C.web)
      → publish_azure_image C cfg holding features depth m (w, s) ≡ (ok m', (w', s'))
      → IsKept m m'
  unfolding publish_azure_image
  publish_azure_image-IsKept m m' w w' s s' h =
      let d =
        staged C.web cfg.azure_marketplace_cfg cfg.service_principal_cfg C.storage C.parse_to_semver
          cfg.storage_account_cfg m m' cfg.notification_emails w w' s s' h in
      with_published-IsKept _ m m' d.whole

  publish_gcp_image-IsKept :
      (m m' : OnlineReleaseManifest) (w w' : C.gcp.World)
      → publish_gcp_image C cfg holding features depth m w ≡ (ok m', w')
      → IsKept m m'
  unfolding publish_gcp_image upload_and_publish_on_gcp
  publish_gcp_image-IsKept m m' w w' h =
      let (blob, u, _, k) =
        >>=-returned (upload_image_to_gcp_store C.gcp cfg.gcp_bucket_name m) _ w h in
      let (_, _, _, whole) =
        upload_image_from_gcp_store-IsPublic C.gcp features depth cfg.gcp_bucket_name blob
          cfg.gcp_project_name m m' u w' k in
      with_published-IsKept _ m m' whole

  publish_oci_image-IsKept :
      (m m' : OnlineReleaseManifest) (w w' : C.registry.World)
      → publish_oci_image C cfg holding features depth m w ≡ (ok m', w')
      → IsKept m m'
  unfolding publish_oci_image
  publish_oci_image-IsKept m m' w w' h =
      let (_, whole) =
        publish_image-with_published C.gzip C.registry features depth holding m m' cfg.image_prefix
          true w w' h in
      with_published-IsKept _ m m' whole

  module _ (others : Publisher) (F : IsFaithful others) where
    publish_function-IsKept :
        (p : Provider) (m : OnlineReleaseManifest) (w : Worlds C cfg holding features depth others)
        (m' : OnlineReleaseManifest) (w' : Worlds C cfg holding features depth others)
        → publish_function C cfg holding features depth others p m w ≡ (ok m', w')
        → IsKept m m'
    unfolding publish_function
    publish_function-IsKept azure m (o, ((b, s), rest)) m' (o', ((b', s'), rest')) h =
        publish_azure_image-IsKept m m' b b' s s' (ap (λ x. (x.0, x.1.1.0)) h)
    publish_function-IsKept gcp m (o, (z, (g, r))) m' (o', (z', (g', r'))) h =
        publish_gcp_image-IsKept m m' g g' (ap (λ x. (x.0, x.1.1.1.0)) h)
    publish_function-IsKept oci m (o, (z, (g, r))) m' (o', (z', (g', r'))) h =
        publish_oci_image-IsKept m m' r r' (ap (λ x. (x.0, x.1.1.1.1)) h)
    publish_function-IsKept ali m (o, rest) m' (o', rest') h =
        F.publishes ali m o m' o' (ap (λ x. (x.0, x.1.0)) h)
    publish_function-IsKept aws m (o, rest) m' (o', rest') h =
        F.publishes aws m o m' o' (ap (λ x. (x.0, x.1.0)) h)
    publish_function-IsKept openstack m (o, rest) m' (o', rest') h =
        F.publishes openstack m o m' o' (ap (λ x. (x.0, x.1.0)) h)

    -- If the publishing functions of Alibaba Cloud, AWS and OpenStack return a release with the
    -- identifier it had and with metadata, then so do those of all providers.
    pub providers-IsFaithful : IsFaithful (providers C cfg holding features depth others)
    unfolding providers
    providers-IsFaithful = record { publishes = publish_function-IsKept }
