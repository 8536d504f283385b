-- ===== src/Openstack/Environments.antt =====
-- The images that OpenStack has when publishing returns.
use gardenlinux.Prelude.{
  ℕ, ◌≡◌, refl, sym, ap, ◌∙◌, String, ◌<>◌, List, [], ◌∷◌, ◌++◌, some, All, ◌*◌, length,
}
use mathlib.Core.List.{append_assoc, append-nil}
use gardenlinux.Prelude.Result.{ok, ok_injective}
use gardenlinux.Prelude.Run.{lift, perform, >>=-returned}
use gardenlinux.Prelude.Dicts.{Dict}
use gardenlinux.Model.Manifests.{
  OnlineReleaseManifest, OpenstackPublishedImage, openstack_set, with_published, path_by_suffix,
}
use gardenlinux.Model.Versions.{virtual_image_artifact_for_platform}
use gardenlinux.Openstack.{
  Glance, OpenstackEnvironment, ImageMeta, upload_image_from_url, wait_image_ready, publish_each,
  upload_and_publish_image,
}

abbrev pub region_of : OpenstackPublishedImage → String
region_of image = image.region_name

abbrev pub environment_region : OpenstackEnvironment → String
environment_region environment = environment.region

some_injective : {A : Type 0} {x y : A} → some x ≡ some y → x ≡ y
some_injective e = cc

module _ (G : Glance) where
  -- Every image was ready at some time after it was uploaded.
  abbrev pub WereReady : ℕ → List OpenstackEnvironment → List OpenstackPublishedImage → Type 0
  WereReady passes [] [] = Unit
  WereReady passes (environment ∷ environments) (image ∷ images) =
      (image.region_name ≡ environment.region)
      × ((w : G.World) × (w' : G.World) × (wait_image_ready G passes environment image.image_id w
            ≡ some (ok tt, w')))
      × WereReady passes environments images
  WereReady passes _ _ = ⊥

  publish_each-WereReady :
      (passes : ℕ) (name url : String) (meta : ImageMeta) (environments : List OpenstackEnvironment)
      (before after : List OpenstackPublishedImage) (w w' : G.World)
      → publish_each G passes name url meta environments before w ≡ some (ok after, w')
      → (new : List OpenstackPublishedImage) × (after ≡ before ++ new)
        × WereReady passes environments new
        × All (λ image. image.image_name ≡ name) new
  unfolding publish_each
  publish_each-WereReady passes name url meta [] before after w w' e =
      ([], sym (ok_injective (ap (λ p. p.0) (some_injective e))) ∙ sym (append-nil before), tt, tt)
  publish_each-WereReady passes name url meta (environment ∷ environments) before after w w' e =
      let (id, u₁, e₁, k₁) =
        >>=-returned (upload_image_from_url G environment name url meta) _ w e in
      let (_, u₂, e₂, k₂) = >>=-returned (wait_image_ready G passes environment id) _ u₁ k₁ in
      let image : OpenstackPublishedImage = record {
        region_name = environment.region;
        image_id = id;
        image_name = name;
      } in
      let (new, same, ready, named) =
        publish_each-WereReady passes name url meta environments (before ++ image ∷ []) after u₂ w'
          k₂ in
      (
        image ∷ new,
        same ∙ append_assoc before (image ∷ []) new,
        (refl, (u₁, u₂, e₂), ready),
        (refl, named),
      )

  -- Publishing that returns has changed nothing of the release but its images: there is one for each
  -- environment, in their order, with its region and the name after the version of the release, and
  -- the wait for it to be ready has returned.
  pub upload_and_publish_image-WereReady :
      (passes : ℕ) (environments : List OpenstackEnvironment) (properties : Dict String)
      (release release' : OnlineReleaseManifest) (w w' : G.World)
      → upload_and_publish_image G passes environments properties release w ≡ some (ok release', w')
      → (images : List OpenstackPublishedImage) × (release'
          ≡ with_published (openstack_set images) release)
        × WereReady passes environments images
        × All (λ image. image.image_name ≡ "gardenlinux-" <> release.version) images
  unfolding upload_and_publish_image
  upload_and_publish_image-WereReady passes environments properties release release' w w' e =
      let meta : ImageMeta = record {
        architecture = release.architecture;
        properties = properties;
      } in
      let (artifact, u₁, e₁, k₁) =
        >>=-returned (lift (virtual_image_artifact_for_platform "openstack")) _ w e in
      let (path, u₂, e₂, k₂) =
        >>=-returned (lift (path_by_suffix artifact release.paths)) _ u₁ k₁ in
      let (url, u₃, e₃, k₃) =
        >>=-returned
          (perform
            (G.generate_presigned_url (1200 * length environments) path.s3_bucket_name path.s3_key))
          _ u₂ k₂ in
      let (images, u₄, e₄, k₄) =
        >>=-returned
          (publish_each G passes ("gardenlinux-" <> release.version) url meta environments []) _ u₃
          k₃ in
      let (new, same, ready, named) =
        publish_each-WereReady passes ("gardenlinux-" <> release.version) url meta environments []
          images u₃ u₄ e₄ in
      let whole : with_published (openstack_set images) release ≡ release' =
        ok_injective (ap (λ p. p.0) (some_injective k₄)) in
      (new, sym whole ∙ ap (λ l. with_published (openstack_set l) release) same, ready, named)
