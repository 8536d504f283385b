-- ===== src/Aws.antt =====
-- Publishing on AWS (ci/glci/aws.py).
pub mod Waits
pub mod Regions
pub mod Unregister
pub mod Served
use gardenlinux.Prelude.{
  ℕ, zero, suc, ◌≡◌, String, ◌<>◌, Bool, true, false, ◌||◌, Option, none, some, List, [], ◌∷◌, ◌==◌,
  if◌then◌else◌, string_eq, map, nat_eq, is_nil,
}
use gardenlinux.Prelude.Result.{Result, ok, err, Error, value_error, runtime_error, index_error}
use gardenlinux.Prelude.Action.{Action}
use gardenlinux.Prelude.Dicts.{Dict, insert}
use gardenlinux.Prelude.Run.{
  Run, return, raise, lift, perform, waiting, except, for_each, ◌>>=◌, ◌>>◌,
}
use gardenlinux.Model.Features.{FeatureDescriptor}
use gardenlinux.Model.Manifests.{
  OnlineReleaseManifest, AwsPublishedImage, aws_set, with_published, path_by_suffix,
  canonical_release_manifest_key_suffix,
}
use gardenlinux.Model.Versions.{virtual_image_artifact_for_platform}

pub data TaskStatus : Type 0 where
  active completed deleted : TaskStatus

pub data ImageState : Type 0 where
  pending available invalid deregistered transient failed error : ImageState

-- `TaskStatus(text)`
unfoldable pub task_status : String → Result TaskStatus
task_status text =
    if text == "active"
    then ok active
    else if text == "completed"
    then ok completed
    else if text == "deleted"
    then ok deleted
    else err value_error

-- `ImageState(text)`
unfoldable pub image_state : String → Result ImageState
image_state text =
    if text == "pending"
    then ok pending
    else if text == "available"
    then ok available
    else if text == "invalid"
    then ok invalid
    else if text == "deregistered"
    then ok deregistered
    else if text == "transient"
    then ok transient
    else if text == "failed"
    then ok failed
    else if text == "error"
    then ok error
    else err value_error

unfoldable pub is_erroneous : ImageState → Bool
is_erroneous invalid = true
is_erroneous failed = true
is_erroneous error = true
is_erroneous _ = false

abbrev pub state_beq : ImageState → ImageState → Bool
state_beq pending pending = true
state_beq available available = true
state_beq invalid invalid = true
state_beq deregistered deregistered = true
state_beq transient transient = true
state_beq failed failed = true
state_beq error error = true
state_beq _ _ = false

-- What an import task says of itself.
pub record SnapshotTask : Type 0 where
  pub status : String
  pub snapshot_id : String

-- An answer with its HTTP status.
pub record Response : Type 0 where
  pub status_code : ℕ
  pub image_id : String

-- What the code uses of EC2: the client of a region. Waiting between polls is part of the state.
pub record Ec2 : Type 1 where
  pub World : Type 0
  -- `import_snapshot`, of a bucket and a key: the identifier of the task
  pub import_snapshot : String → String → String → Action World String
  -- `describe_import_snapshot_tasks`
  pub describe_tasks : String → String → Action World (List SnapshotTask)
  -- `register_image` of a snapshot and a name, and `create_tags`
  pub register : String → String → String → Action World String
  pub create_tags : String → String → Action World (Unit {0})
  -- `describe_regions`, by the client of a region or of no region
  pub describe_regions : Option String → Action World (List String)
  -- `describe_images(ImageIds=…)`: the states
  pub describe_states : String → String → Action World (List String)
  -- `describe_images(Filters=…)`: the images of a name
  pub describe_named : String → String → Action World (List String)
  -- `copy_image`: the region of the client, the image, the source region and the name
  pub copy_to : String → String → String → String → Action World Response
  -- `modify_image_attribute`
  pub allow_all : String → String → Action World Response
  pub deregister_image : String → String → Action World (Unit {0})

-- `response_ok(response)`
unfoldable pub response_ok : Response → Result Response
response_ok response = if response.status_code == 200 then ok response else err runtime_error

-- `l[0]`
abbrev pub first_of : {A : Type 0} → List A → Result A
first_of [] = err index_error
first_of (a ∷ l) = ok a

-- There is one image of a name in a region, or none.
unfoldable pub at_most_one : List String → Result (Option String)
at_most_one [] = ok none
at_most_one (image ∷ []) = ok (some image)
at_most_one (image ∷ other ∷ images) = err value_error

abbrev pub published_images : String → Dict String → List AwsPublishedImage
published_images image_name = map (λ region_img. record {
  ami_id = region_img.1;
  aws_region_id = region_img.0;
  image_name = image_name;
})

-- `f'gardenlinux-{suffix}'`
abbrev with_prefix : Result String → Result String
with_prefix (ok suffix) = ok ("gardenlinux-" <> suffix)
with_prefix (err e) = err e

module _ (E : Ec2) where
  open E use {World}

  -- `current_status` and, of the same task, `snapshot_id`
  unfoldable pub current_task : String → String → Run World SnapshotTask
  current_task region snapshot_task_id = do
    tasks ← perform (E.describe_tasks region snapshot_task_id)
    lift (first_of tasks)

  -- The loop, for so many polls at most.
  unfoldable pub wait_for_snapshot_import : ℕ → String → String → Run World String
  wait_for_snapshot_import zero region snapshot_task_id = waiting
  wait_for_snapshot_import (suc polls) region snapshot_task_id =
      let again = wait_for_snapshot_import polls region snapshot_task_id in
      (do
        task ← current_task region snapshot_task_id
        status ← lift (task_status task.status)
        elim status [
          | completed ↦ (do done ← current_task region snapshot_task_id; return done.snapshot_id)
          | deleted ↦ raise runtime_error
          | active ↦ again
        ])

  unfoldable pub register_image : String → String → String → Run World String
  register_image region snapshot_id image_name = do
    image_id ← perform (E.register region snapshot_id image_name)
    perform (E.create_tags region image_id)
    return image_id

  unfoldable pub current_image_state : String → String → Run World ImageState
  current_image_state region image_id = do
    states ← perform (E.describe_states region image_id)
    state ← lift (first_of states)
    lift (image_state state)

  unfoldable pub wait_for_image_state : ℕ → String → String → ImageState → Run World ImageState
  wait_for_image_state zero region image_id target_state = waiting
  wait_for_image_state (suc polls) region image_id target_state =
      let again = wait_for_image_state polls region image_id target_state in
      (do
        state ← current_image_state region image_id
        (if state_beq state target_state
            then return state
            else if is_erroneous state
            then raise runtime_error
            else again))

  unfoldable pub wait_for_images : ℕ → Dict String → Run World (Unit {0})
  wait_for_images polls =
      for_each
        (λ region_img. do wait_for_image_state polls region_img.0 region_img.1 available; return tt)

  unfoldable pub set_images_public : Dict String → Run World (Unit {0})
  set_images_public = for_each (λ region_img. do
    res ← perform (E.allow_all region_img.0 region_img.1)
    lift (response_ok res)
    return tt)

  -- `dict(copy_image(…))`, with what was copied before
  unfoldable pub copy_image :
      String → String → String → List String → Dict String → Run World (Dict String)
  copy_image ami_image_id image_name src_region_name [] image_map = return image_map
  copy_image ami_image_id image_name src_region_name (target_region ∷ target_regions) image_map =
      let skipped = copy_image ami_image_id image_name src_region_name target_regions image_map in
      let copied = (do
        res ← perform (E.copy_to target_region ami_image_id src_region_name image_name)
        lift (response_ok res)
        copy_image ami_image_id image_name src_region_name target_regions
            (insert target_region res.image_id image_map)) in
      if target_region == src_region_name then skipped else copied

  -- The task that is submitted for an image; an exception stays with its future.
  unregister_image : String → Option String → Run World (Unit {0})
  unregister_image region_name none = return tt
  unregister_image region_name (some image_id) =
      except (perform (E.deregister_image region_name image_id)) (λ e. return tt)

  -- The images that `image_ids_by_name` yields, up to its first exception. Each task runs when it is
  -- submitted.
  unfoldable pub unregister_each : String → List String → Run World (Unit {0})
  unfolding unregister_image
  unregister_each image_name = for_each (λ region_name. do
    images ← perform (E.describe_named region_name image_name)
    found ← lift (at_most_one images)
    unregister_image region_name found)

  -- A pool of no threads cannot be made.
  unfoldable pub unregister_images_by_name : String → List String → Run World (Unit {0})
  unfolding unregister_each
  unregister_images_by_name image_name regions = do
    region_names ← (if is_nil regions then perform (E.describe_regions none) else return regions)
    (if is_nil region_names then raise value_error else return tt)
    unregister_each image_name region_names

  -- The images of a registered one in all regions, with the origin; what was copied is removed
  -- where a copy fails.
  unfoldable pub image_map_of : String → String → String → List String → Run World (Dict String)
  unfolding unregister_images_by_name
  image_map_of initial_ami_id target_image_name aws_region region_names = do
    image_map ←
        except (copy_image initial_ami_id target_image_name aws_region region_names [])
          (λ e. do unregister_images_by_name target_image_name region_names; raise e)
    return (insert aws_region initial_ami_id image_map)

  -- From the enumeration of the regions on, for an image that is registered.
  unfoldable pub distributed :
      ℕ → String → String → String → OnlineReleaseManifest → Run World OnlineReleaseManifest
  distributed polls aws_region target_image_name initial_ami_id release = do
    region_names ← perform (E.describe_regions (some aws_region))
    image_map ← image_map_of initial_ami_id target_image_name aws_region region_names
    wait_for_images polls image_map
    set_images_public image_map
    return (with_published (aws_set (published_images target_image_name image_map)) release)

  module _ (features : List FeatureDescriptor) (depth : ℕ) where
    unfoldable pub target_image_name_for_release : OnlineReleaseManifest → Result String
    target_image_name_for_release release =
        with_prefix (canonical_release_manifest_key_suffix features depth release.identifier)

    unfoldable pub upload_and_register_gardenlinux_image :
        ℕ → String → OnlineReleaseManifest → Run World OnlineReleaseManifest
    unfolding target_image_name_for_release
    upload_and_register_gardenlinux_image polls aws_region release = do
      target_image_name ← lift (target_image_name_for_release release)
      aws_release_artifact ← lift (virtual_image_artifact_for_platform "aws")
      path ← lift (path_by_suffix aws_release_artifact release.paths)
      snapshot_task_id ← perform (E.import_snapshot aws_region path.s3_bucket_name path.s3_key)
      snapshot_id ← wait_for_snapshot_import polls aws_region snapshot_task_id
      initial_ami_id ← register_image aws_region snapshot_id target_image_name
      distributed polls aws_region target_image_name initial_ami_id release
