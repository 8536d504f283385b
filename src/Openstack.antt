-- ===== src/Openstack.antt =====
-- Publishing on OpenStack (ci/glci/openstack_image.py).
pub mod Ready
pub mod Environments
use gardenlinux.Prelude.{
  ℕ, zero, suc, ◌-◌, ◌*◌, ◌≡◌, String, ◌<>◌, Bool, ◌||◌, List, [], ◌∷◌, ◌++◌, ◌==◌, if◌then◌else◌,
  string_eq, ltb, length,
}
use gardenlinux.Prelude.Result.{Result, ok, err, runtime_error}
use gardenlinux.Prelude.Action.{Action}
use gardenlinux.Prelude.Dicts.{Dict}
use gardenlinux.Prelude.Run.{Run, return, raise, lift, perform, waiting, ◌>>=◌, ◌>>◌}
use gardenlinux.Model.Flavours.{Architecture}
use gardenlinux.Model.Manifests.{
  OnlineReleaseManifest, OpenstackPublishedImage, openstack_set, with_published, path_by_suffix,
}
use gardenlinux.Model.Versions.{virtual_image_artifact_for_platform}

pub record OpenstackEnvironment : Type 0 where
  pub auth_url : String
  pub domain : String
  pub region : String
  pub project_name : String
  pub username : String
  pub password : String

-- `image_meta`
pub record ImageMeta : Type 0 where
  pub architecture : Architecture
  pub properties : Dict String

-- What the code uses of the OpenStack SDK, of the S3 client and of the clock, in seconds. The
-- connection of an environment is made once and is part of the state.
pub record Glance : Type 1 where
  pub World : Type 0
  -- `create_image`, of a name and the metadata; the identifier
  pub create_image : OpenstackEnvironment → String → ImageMeta → Action World String
  -- `import_image(…, method="web-download", uri=url)`
  pub import_image : OpenstackEnvironment → String → String → Action World (Unit {0})
  -- `get_image(image_id)['status']`
  pub image_status : OpenstackEnvironment → String → Action World String
  pub now : Action World ℕ
  pub sleep : ℕ → Action World (Unit {0})
  -- `generate_presigned_url`, of the seconds of validity, a bucket and a key
  pub generate_presigned_url : ℕ → String → String → Action World String

abbrev pub wait_interval_seconds : ℕ
wait_interval_seconds = 10

abbrev pub ready_timeout : ℕ
ready_timeout = 3600

unfoldable pub is_pending : String → Bool
is_pending status = status == "queued" || (status == "saving" || status == "importing")

module _ (G : Glance) where
  open G use {World}

  unfoldable pub upload_image_from_url :
      OpenstackEnvironment → String → String → ImageMeta → Run World String
  upload_image_from_url environment name url meta = do
    image_id ← perform (G.create_image environment name meta)
    perform (G.import_image environment image_id url)
    return image_id

  -- The `while` loop, for so many passes at most.
  unfoldable pub ready_from : ℕ → OpenstackEnvironment → String → ℕ → Run World (Unit {0})
  ready_from zero environment image_id start_time = waiting
  ready_from (suc passes) environment image_id start_time =
      let again = (do
        perform (G.sleep wait_interval_seconds)
        ready_from passes environment image_id start_time) in
      (do
        now ← perform G.now
        (if ltb ready_timeout (now - start_time) then raise runtime_error else return tt)
        status ← perform (G.image_status environment image_id)
        (if is_pending status
            then again
            else if status == "active"
            then return tt
            else raise runtime_error))

  unfoldable pub wait_image_ready : ℕ → OpenstackEnvironment → String → Run World (Unit {0})
  wait_image_ready passes environment image_id = do
    start_time ← perform G.now
    ready_from passes environment image_id start_time

  -- The loop over the environments, with the images published so far.
  unfoldable pub publish_each :
      ℕ
      → String
      → String
      → ImageMeta
      → List OpenstackEnvironment
      → List OpenstackPublishedImage
      → Run World (List OpenstackPublishedImage)
  publish_each passes image_name url meta [] published_images = return published_images
  publish_each passes image_name url meta (environment ∷ environments) published_images = do
    image_id ← upload_image_from_url environment image_name url meta
    wait_image_ready passes environment image_id
    publish_each passes image_name url meta environments (
        published_images
        ++ (record {
          region_name = environment.region;
          image_id = image_id;
          image_name = image_name;
        })
          ∷ [])

  unfoldable pub upload_and_publish_image :
      ℕ
      → List OpenstackEnvironment
      → Dict String
      → OnlineReleaseManifest
      → Run World OnlineReleaseManifest
  upload_and_publish_image passes environments image_properties release = do
    artifact ← lift (virtual_image_artifact_for_platform "openstack")
    path ← lift (path_by_suffix artifact release.paths)
    url ←
        perform
          (G.generate_presigned_url (1200 * length environments) path.s3_bucket_name path.s3_key)
    images ←
        publish_each passes ("gardenlinux-" <> release.version) url
          (record { architecture = release.architecture; properties = image_properties })
          environments []
    return (with_published (openstack_set images) release)
