-- ===== src/Aws/Served.antt =====
-- Publishing on AWS where EC2 serves.
use gardenlinux.Prelude.{
  ℕ, zero, suc, ◌≡◌, ◌<◌, refl, ◌⊎◌, inl, inr, String, false, Option, some, List, [], ◌∷◌, ◌==◌,
  string_eq, Bool-cases, arith,
}
use gardenlinux.Prelude.Result.{ok}
use gardenlinux.Prelude.Dicts.{Dict, insert}
use gardenlinux.Prelude.Run.{Returns, for_each-Returns}
use gardenlinux.Model.Features.{FeatureDescriptor}
use gardenlinux.Model.Manifests.{
  OnlineReleaseManifest, ReleaseFile, aws_set, with_published, path_by_suffix,
}
use gardenlinux.Model.Versions.{virtual_image_artifact_for_platform}
use gardenlinux.Aws.{
  Ec2, Response, SnapshotTask, TaskStatus, active, completed, task_status, ImageState, available,
  image_state, is_erroneous, state_beq, published_images, response_ok, copy_image, image_map_of,
  current_task, current_image_state, target_image_name_for_release, wait_for_snapshot_import,
  register_image, wait_for_image_state, wait_for_images, set_images_public, distributed,
  upload_and_register_gardenlinux_image,
}
use gardenlinux.Aws.Regions.{IsDistributed, upload_and_register_gardenlinux_image-IsDistributed}

-- EC2 serves: its calls return and are answered with success, a task or an image that it is asked
-- about is done or comes nearer to it, and never more than so many polls are left.
pub record IsServing (E : Ec2) (rank : E.World → ℕ) (polls : ℕ) : Type 0 where
  pub near : (w : E.World) → rank w < polls
  pub imports :
      (region bucket key : String) (w : E.World)
      → (task : String) × (w' : E.World) × (E.import_snapshot region bucket key w ≡ (ok task, w'))
  pub tasks :
      (region task_id : String) (w : E.World)
      → (task : SnapshotTask) × (status : TaskStatus) × (w' : E.World) × (E.describe_tasks region
            task_id w
          ≡ (ok (task ∷ []), w'))
        × (task_status task.status ≡ ok status)
        × ((status ≡ completed) ⊎ ((status ≡ active) × (rank w' < rank w)))
  pub registers :
      (region snapshot name : String) (w : E.World)
      → (image : String) × (w' : E.World) × (E.register region snapshot name w ≡ (ok image, w'))
  pub tags :
      (region image : String) (w : E.World)
      → (w' : E.World) × (E.create_tags region image w ≡ (ok tt, w'))
  pub regions :
      (region : Option String) (w : E.World)
      → (names : List String) × (w' : E.World) × (E.describe_regions region w ≡ (ok names, w'))
  pub copies :
      (region image src name : String) (w : E.World)
      → (response : Response) × (w' : E.World) × (E.copy_to region image src name w
          ≡ (ok response, w'))
        × (response.status_code ≡ 200)
  pub states :
      (region image : String) (w : E.World)
      → (text : String) × (state : ImageState) × (w' : E.World) × (E.describe_states region image w
          ≡ (ok (text ∷ []), w'))
        × (image_state text ≡ ok state)
        × ((state ≡ available) ⊎ ((is_erroneous state ≡ false) × (rank w' < rank w)))
  pub allows :
      (region image : String) (w : E.World)
      → (response : Response) × (w' : E.World) × (E.allow_all region image w ≡ (ok response, w'))
        × (response.status_code ≡ 200)

platform_artifact : virtual_image_artifact_for_platform "aws" ≡ ok "rootfs.raw"
unfolding virtual_image_artifact_for_platform
platform_artifact = refl

module _ (E : Ec2) (rank : E.World → ℕ) (polls : ℕ) (serving : IsServing E rank polls) where
  open E use {World}
  open serving use {near, imports, tasks, registers, tags, regions, copies, states, allows}

  wait_for_snapshot_import_returns :
      (left : ℕ) (region task_id : String) (w : World)
      → rank w < left
      → (snapshot : String) × (w' : World) × (wait_for_snapshot_import E left region task_id w
          ≡ some (ok snapshot, w'))
  unfolding wait_for_snapshot_import current_task
  wait_for_snapshot_import_returns zero region task_id w h = absurd (omega arith)
  wait_for_snapshot_import_returns (suc left) region task_id w h =
      let (task, status, w₁, e, read, which) = tasks region task_id w in
      elim which [
        | inl done ↦
            let (again, _, w₂, e₂, _, _) = tasks region task_id w₁ in
            (again.snapshot_id, w₂, rw (e, read, done, e₂) refl)
        | inr (pending, less) ↦
            let (snapshot, w₂, later) =
              wait_for_snapshot_import_returns left region task_id w₁ (omega arith) in
            (snapshot, w₂, rw (e, read, pending) later)
      ]

  wait_for_image_state_returns :
      (left : ℕ) (region image : String) (w : World)
      → rank w < left
      → (state : ImageState) × (w' : World) × (wait_for_image_state E left region image available w
          ≡ some (ok state, w'))
  unfolding wait_for_image_state current_image_state
  wait_for_image_state_returns zero region image w h = absurd (omega arith)
  wait_for_image_state_returns (suc left) region image w h =
      let (text, state, w₁, e, read, which) = states region image w in
      elim which [
        | inl done ↦ (available, w₁, rw (e, read, done) refl)
        | inr (good, less) ↦ elim (Bool-cases (state_beq state available)) [
          | inl there ↦ (state, w₁, rw (e, read, there) refl)
          | inr other ↦
              let (end, w₂, later) =
                wait_for_image_state_returns left region image w₁ (omega arith) in
              (end, w₂, rw (e, read, other, good) later)
        ]
      ]

  register_image-Returns :
      (region snapshot name : String) → Returns (register_image E region snapshot name)
  unfolding register_image
  register_image-Returns region snapshot name w =
      let (image, w₁, e) = registers region snapshot name w in
      let (w₂, e₂) = tags region image w₁ in (image, w₂, rw (e, e₂) refl)

  copy_image-Returns :
      (image name src : String) (targets : List String) (before : Dict String)
      → Returns (copy_image E image name src targets before)
  unfolding copy_image response_ok
  copy_image-Returns image name src [] before w = (before, w, refl)
  copy_image-Returns image name src (target ∷ targets) before w =
      elim (Bool-cases (target == src)) [
        | inl here ↦
            let (after, w₁, e) = copy_image-Returns image name src targets before w in
            (after, w₁, rw here e)
        | inr there ↦
            let (response, w₁, e, fine) = copies target image src name w in
            let (after, w₂, later) =
              copy_image-Returns image name src targets (insert target response.image_id before)
                w₁ in
            (after, w₂, rw (there, e, fine) later)
      ]

  image_map_of-Returns :
      (image name src : String) (targets : List String)
      → Returns (image_map_of E image name src targets)
  unfolding image_map_of
  image_map_of-Returns image name src targets w =
      let (after, w₁, e) = copy_image-Returns image name src targets [] w in
      (insert src image after, w₁, rw e refl)

  wait_for_images-Returns : (image_map : Dict String) → Returns (wait_for_images E polls image_map)
  unfolding wait_for_images
  wait_for_images-Returns image_map = for_each-Returns _ image_map (λ (region, image) w.
      let (state, w₁, e) = wait_for_image_state_returns polls region image w (near w) in
      (tt, w₁, rw e refl))

  set_images_public-Returns : (image_map : Dict String) → Returns (set_images_public E image_map)
  unfolding set_images_public response_ok
  set_images_public-Returns image_map = for_each-Returns _ image_map (λ (region, image) w.
      let (response, w₁, e, fine) = allows region image w in (tt, w₁, rw (e, fine) refl))

  distributed-Returns :
      (aws_region name image : String) (release : OnlineReleaseManifest)
      → Returns (distributed E polls aws_region name image release)
  unfolding distributed
  distributed-Returns aws_region name image release w =
      let (names, w₁, e₁) = regions (some aws_region) w in
      let (image_map, w₂, e₂) = image_map_of-Returns image name aws_region names w₁ in
      let (_, w₃, e₃) = wait_for_images-Returns image_map w₂ in
      let (_, w₄, e₄) = set_images_public-Returns image_map w₃ in
      (
        with_published (aws_set (published_images name image_map)) release,
        w₄,
        rw (e₁, e₂, e₃, e₄) refl,
      )

  -- Where EC2 serves, and never more polls are left than a wait may take, publishing a release that
  -- has a key and an image for AWS returns: with one image in the region of the build and in each
  -- region that EC2 names, in no other and in none twice, and nothing else of the release changed.
  pub upload_and_register_gardenlinux_image_returns :
      (features : List FeatureDescriptor) (depth : ℕ) (aws_region name : String)
      (path : ReleaseFile) (release : OnlineReleaseManifest) (w : World)
      → target_image_name_for_release E features depth release ≡ ok name
      → path_by_suffix "rootfs.raw" release.paths ≡ ok path
      → (release' : OnlineReleaseManifest) × (w' : World) × (upload_and_register_gardenlinux_image E
            features depth polls aws_region release w
          ≡ some (ok release', w'))
        × IsDistributed E aws_region release release'
  unfolding upload_and_register_gardenlinux_image
  upload_and_register_gardenlinux_image_returns features depth aws_region name path release w named
        found =
      let (task, w₁, e₁) = imports aws_region path.s3_bucket_name path.s3_key w in
      let (snapshot, w₂, e₂) =
        wait_for_snapshot_import_returns polls aws_region task w₁ (near w₁) in
      let (image, w₃, e₃) = register_image-Returns aws_region snapshot name w₂ in
      let (release', w₄, e₄) = distributed-Returns aws_region name image release w₃ in
      let whole : upload_and_register_gardenlinux_image E features depth polls aws_region release w
          ≡ some (ok release', w₄) =
        rw (named, platform_artifact, found, e₁, e₂, e₃) e₄ in
      (
        release',
        w₄,
        whole,
        upload_and_register_gardenlinux_image-IsDistributed E features depth polls aws_region
            release release' w w₄ whole,
      )
