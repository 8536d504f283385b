-- ===== src/Aws/Regions.antt =====
-- The regions that an image is published in.
use gardenlinux.Prelude.{
  ℕ, ◌≡◌, refl, sym, ap, subst, String, false, ◌&&◌, ◌||◌, not, Option, none, some, List, [], ◌∷◌,
  ◌==◌, string_eq, map, contains, NoDup, Bool-cases, inl, inr, arith,
}
use gardenlinux.Prelude.Result.{Result, ok, err, Error, ok_injective}
use gardenlinux.Prelude.Dicts.{Dict, insert, keys, keys-insert, insert-NoDup}
use gardenlinux.Prelude.Run.{
  Run, lift, raise, perform, except, handled, proceed, ◌>>◌, >>=-returned,
}
use gardenlinux.Model.Features.{FeatureDescriptor}
use gardenlinux.Model.Manifests.{
  OnlineReleaseManifest, AwsPublishedImage, aws_set, with_published, path_by_suffix,
}
use gardenlinux.Model.Versions.{virtual_image_artifact_for_platform}
use gardenlinux.Aws.{
  Ec2, response_ok, copy_image, image_map_of, unregister_images_by_name, published_images,
  target_image_name_for_release, wait_for_snapshot_import, register_image, wait_for_images,
  set_images_public, distributed, upload_and_register_gardenlinux_image,
}

abbrev pub region_of : AwsPublishedImage → String
region_of image = image.aws_region_id

some_injective : {A : Type 0} {x y : A} → some x ≡ some y → x ≡ y
some_injective e = cc

module _ (E : Ec2) where
  open E use {World}

  -- A copy that returns has an image for each region of the list but the source.
  copy_image-keys :
      (ami name src : String) (regions : List String) (before after : Dict String) (w w' : World)
      → NoDup (keys before)
      → copy_image E ami name src regions before w ≡ some (ok after, w')
      → NoDup (keys after)
        × ((r : String)
            → contains (keys after) r
              ≡ (contains (keys before) r || (contains regions r && not (r == src))))
  unfolding copy_image contains
  copy_image-keys ami name src [] before after w w' h e =
      let same : before ≡ after = ground (arith, e) in
      subst
        (λ d.
          NoDup (keys d)
          × ((r : String)
              → contains (keys d) r ≡ (contains (keys before) r || (false && not (r == src)))))
        same (h, λ r. ground arith)
  copy_image-keys ami name src (target ∷ regions) before after w w' h e =
      elim (Bool-cases (target == src)) [
        | inl here ↦
            let (once, all) =
              copy_image-keys ami name src regions before after w w' h (rw here at e) in
            (
              once,
              λ r. ground (
                arith,
                all r,
                string_eq.equals_iff target src,
                string_eq.equals_iff target r,
                string_eq.equals_iff r src,
              ),
            )
        | inr there ↦
            let (res, w₁, e₁, k₁) =
              >>=-returned (perform (E.copy_to target ami src name)) _ w (rw there at e) in
            let (_, w₂, e₂, k₂) = >>=-returned (lift (response_ok res)) _ w₁ k₁ in
            let (once, all) =
              copy_image-keys ami name src regions (insert target res.image_id before) after w₂ w'
                (insert-NoDup target res.image_id before h) k₂ in
            (
              once,
              λ r. ground (
                arith,
                all r,
                keys-insert target r res.image_id before,
                string_eq.equals_iff target src,
                string_eq.equals_iff target r,
                string_eq.equals_iff r src,
              ),
            )
      ]

  handled-returned :
      (m : Option (Result (Dict String) × World)) (handler : Error → Run World (Unit {0}))
      {d : Dict String} {w' : World}
      → handled m (λ e. handler e >> raise e) ≡ some (ok d, w')
      → m ≡ some (ok d, w')
  handled-returned none handler h = cc
  handled-returned (some (ok d, w)) handler h = h
  handled-returned (some (err e, w)) handler h = absurd (never (handler e w) h)
    where
      never :
          (m : Option (Result (Unit {0}) × World)) {d : Dict String} {w' : World}
          → proceed m (λ _. raise {A = Dict String} e) ≡ some (ok d, w')
          → ⊥
      never none h = cc
      never (some (ok u, w)) h = cc
      never (some (err f, w)) h = cc

  image_map_of-keys :
      (ami name src : String) (regions : List String) (image_map : Dict String) (w w' : World)
      → image_map_of E ami name src regions w ≡ some (ok image_map, w')
      → NoDup (keys image_map)
        × ((r : String) → contains (keys image_map) r ≡ (src == r || contains regions r))
  unfolding image_map_of contains
  image_map_of-keys ami name src regions image_map w w' e =
      let (copies, w₁, e₁, k₁) =
        >>=-returned
          (except (copy_image E ami name src regions [])
            (λ e. unregister_images_by_name E name regions >> raise e))
          _ w e in
      let (once, all) = copy_image-keys ami name src regions [] copies w w₁ tt (
        handled-returned (copy_image E ami name src regions [] w)
          (λ e. unregister_images_by_name E name regions) e₁) in
      let same : insert src ami copies ≡ image_map = ground (arith, k₁) in
      subst
        (λ d.
          NoDup (keys d) × ((r : String) → contains (keys d) r ≡ (src == r || contains regions r)))
        same
        (
          insert-NoDup src ami copies once,
          λ r. ground (
            arith,
            all r,
            keys-insert src r ami copies,
            string_eq.equals_iff src r,
            string_eq.equals_iff r src,
          ),
        )

  published-keys :
      (name : String) (d : Dict String) → map region_of (published_images name d) ≡ keys d
  published-keys name [] = refl
  published-keys name ((r, i) ∷ d) = ap (λ l. r ∷ l) (published-keys name d)

  -- One image in each region, which EC2 has named, and in that of the build.
  abbrev pub IsDistributed : String → OnlineReleaseManifest → OnlineReleaseManifest → Type 0
  IsDistributed aws_region release release' =
      (regions : List String) × (images : List AwsPublishedImage) × (u : World) × (v : World)
      × (E.describe_regions (some aws_region) u ≡ (ok regions, v))
      × (release' ≡ with_published (aws_set images) release)
      × ((r : String) → contains (map region_of images) r ≡ (aws_region == r || contains regions r))
      × NoDup (map region_of images)

  distributed-IsDistributed :
      (polls : ℕ) (aws_region name ami : String) (release release' : OnlineReleaseManifest)
      (w w' : World)
      → distributed E polls aws_region name ami release w ≡ some (ok release', w')
      → IsDistributed aws_region release release'
  unfolding distributed
  distributed-IsDistributed polls aws_region name ami release release' w w' e =
      let (regions, u₁, e₁, k₁) =
        >>=-returned (perform (E.describe_regions (some aws_region))) _ w e in
      let (images, u₂, e₂, k₂) =
        >>=-returned (image_map_of E ami name aws_region regions) _ u₁ k₁ in
      let (_, u₃, e₃, k₃) = >>=-returned (wait_for_images E polls images) _ u₂ k₂ in
      let (_, u₄, e₄, k₄) = >>=-returned (set_images_public E images) _ u₃ k₃ in
      let (once, all) = image_map_of-keys ami name aws_region regions images u₁ u₂ e₂ in
      let whole : with_published (aws_set (published_images name images)) release ≡ release' =
        ok_injective (ap (λ p. p.0) (some_injective k₄)) in
      (
        regions,
        published_images name images,
        w,
        u₁,
        some_injective e₁,
        sym whole,
        rw (published-keys name images) all,
        rw (published-keys name images) once,
      )

  -- Publishing that returns has changed nothing of the release but its images: there is one of them
  -- in the region of the build and in each region that EC2 names, and in no other, and no region
  -- has two.
  pub upload_and_register_gardenlinux_image-IsDistributed :
      (features : List FeatureDescriptor) (depth polls : ℕ) (aws_region : String)
      (release release' : OnlineReleaseManifest) (w w' : World)
      → upload_and_register_gardenlinux_image E features depth polls aws_region release w
        ≡ some (ok release', w')
      → IsDistributed aws_region release release'
  unfolding upload_and_register_gardenlinux_image
  upload_and_register_gardenlinux_image-IsDistributed features depth polls aws_region release
        release' w w' e =
      let (name, u₁, e₁, k₁) =
        >>=-returned (lift (target_image_name_for_release E features depth release)) _ w e in
      let (artifact, u₂, e₂, k₂) =
        >>=-returned (lift (virtual_image_artifact_for_platform "aws")) _ u₁ k₁ in
      let (path, u₃, e₃, k₃) =
        >>=-returned (lift (path_by_suffix artifact release.paths)) _ u₂ k₂ in
      let (task, u₄, e₄, k₄) =
        >>=-returned (perform (E.import_snapshot aws_region path.s3_bucket_name path.s3_key)) _ u₃
          k₃ in
      let (snapshot, u₅, e₅, k₅) =
        >>=-returned (wait_for_snapshot_import E polls aws_region task) _ u₄ k₄ in
      let (ami, u₆, e₆, k₆) = >>=-returned (register_image E aws_region snapshot name) _ u₅ k₅ in
      distributed-IsDistributed polls aws_region name ami release release' u₆ w' k₆
