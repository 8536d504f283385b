-- ===== src/Alicloud.antt =====
-- Publishing on Alicloud (ci/glci/alicloud.py).
pub mod Regions
pub mod Served
use gardenlinux.Prelude.{
  ℕ, zero, suc, ◌+◌, ◌-◌, ◌≡◌, String, ◌<>◌, Bool, true, false, ◌||◌, not, Option, none, some, List,
  [], ◌∷◌, ◌++◌, ◌==◌, if◌then◌else◌, string_eq, ltb, nat_eq, keep, map,
}
use Prim.Native.Nat.{◌%◌}
use gardenlinux.Prelude.Result.{Result, ok, err, Error, runtime_error, index_error, exception}
use gardenlinux.Prelude.Action.{Action}
use gardenlinux.Prelude.Dicts.{Dict, insert}
use gardenlinux.Prelude.Run.{Run, return, raise, lift, waiting, except, for_each, ◌>>=◌, ◌>>◌}
use gardenlinux.Model.Features.{FeatureDescriptor}
use gardenlinux.Model.Manifests.{
  OnlineReleaseManifest, AlicloudPublishedImage, alicloud_set, with_published, path_by_suffix,
}
use gardenlinux.Model.Versions.{virtual_image_artifact_for_platform}

-- `TIME_OUT`
abbrev pub time_out : ℕ
time_out = 7200

-- `ImageShareOption`
pub data ImageShareOption : Type 0 where
  share unshare : ImageShareOption

-- The answer to a request for the images of a name.
pub record ImageList : Type 0 where
  pub total_count : ℕ
  pub image_ids : List String

-- What the code uses of the clients of Alicloud, S3 and OSS and of the clock, in seconds. A request
-- is answered by the region that its first argument names; all statuses are asked for.
pub record Acs : Type 1 where
  pub World : Type 0
  pub Document : Type 0
  -- `DescribeImagesRequest`, of a name and of an image: its statuses
  pub describe_images : String → String → Action World ImageList
  pub describe_statuses : String → String → Action World (List String)
  -- `ImportImageRequest`, of a name, a bucket and a key: the image
  pub import_image : String → String → String → String → Action World String
  -- `CopyImageRequest`, of an image, a region and a name: the copy
  pub copy_image : String → String → String → String → Action World String
  pub modify_share_permission : String → String → ImageShareOption → Action World (Unit {0})
  pub delete_image : String → String → Action World (Unit {0})
  pub describe_regions : String → Action World (List String)
  pub now : Action World ℕ
  pub sleep : ℕ → Action World (Unit {0})
  -- `download_fileobj`, of a bucket and a key
  pub download : String → String → Action World Document
  -- `put_object`, of a region, a bucket and a key
  pub put_object : String → String → String → Document → Action World (Unit {0})

-- `AlicloudImageMaker`
pub record AlicloudImageMaker : Type 0 where
  pub release : OnlineReleaseManifest
  pub bucket_name : String
  pub region : String
  pub image_oss_key : String
  pub image_name : String

-- `AlicloudImageMaker(…)`, with the canonical suffix of the release
unfoldable pub image_maker : OnlineReleaseManifest → String → String → String → AlicloudImageMaker
image_maker release oss_bucket_name alicloud_region suffix = record {
  release = release;
  bucket_name = oss_bucket_name;
  region = alicloud_region;
  image_oss_key = "gardenlinux-" <> (release.version <> ".qcow2");
  image_name = "gardenlinux-" <> suffix;
}

-- `timedelta.seconds`: the seconds of the last day that has begun
unfoldable pub elapsed_seconds : ℕ → ℕ → ℕ
elapsed_seconds start now =
    if ltb now start then (86400 - (start - now) % 86400) % 86400 else (now - start) % 86400

abbrev pub first_of : {A : Type 0} → List A → Result A
first_of [] = err index_error
first_of (a ∷ l) = ok a

abbrev pub published_images : String → Dict String → List AlicloudPublishedImage
published_images image_name = map (λ region_img. record {
  image_id = region_img.1;
  region_id = region_img.0;
  image_name = image_name;
})

module _ (A : Acs) where
  -- The client, with the region that its requests go to.
  pub record Client : Type 0 where
    pub world : A.World
    pub region_id : String

  abbrev pub beside : {X : Type 0} → Client → Result X × A.World → Option (Result X × Client)
  beside c (r, w) = some (r, record c { world = w })

  -- `do_action_with_exception(request)`
  abbrev pub do_action : {X : Type 0} → (String → Action A.World X) → Run Client X
  do_action request c = beside c (request c.region_id c.world)

  abbrev pub set_region_id : String → Run Client (Unit {0})
  set_region_id region c = some (ok tt, record c { region_id = region })

  module _ (self : AlicloudImageMaker) where
    unfoldable pub cp_image_from_s3 : Run Client (Unit {0})
    cp_image_from_s3 = do
      artifact ← lift (virtual_image_artifact_for_platform "ali")
      path ← lift (path_by_suffix artifact self.release.paths)
      image ← do_action (λ _. A.download path.s3_bucket_name path.s3_key)
      do_action (λ _. A.put_object self.region self.bucket_name self.image_oss_key image)

    -- The image of a name in a region, or none.
    unfoldable pub check_image_existance : String → String → Run Client (Option String)
    check_image_existance region image_name = do
      set_region_id region
      response ← do_action (λ r. A.describe_images r image_name)
      set_region_id self.region
      (if response.total_count == 0
          then return none
          else (do image_id ← lift (first_of response.image_ids); return (some image_id)))

    -- The `while` loop, for so many passes at most.
    unfoldable pub available_from : ℕ → String → ℕ → Run Client (Unit {0})
    available_from zero image_id start_time = waiting
    available_from (suc passes) image_id start_time =
        let again = (do do_action (λ _. A.sleep 30); available_from passes image_id start_time) in
        (do
          now ← do_action (λ _. A.now)
          (if ltb time_out (elapsed_seconds start_time now) then raise exception else return tt)
          statuses ← do_action (λ r. A.describe_statuses r image_id)
          status ← lift (first_of statuses)
          (if status == "Available" then return tt else again))

    unfoldable pub wait_for_image : ℕ → String → String → Run Client (Unit {0})
    wait_for_image passes region image_id = do
      start_time ← do_action (λ _. A.now)
      set_region_id region
      available_from passes image_id start_time
      set_region_id self.region

    unfoldable pub list_regions : Run Client (List String)
    list_regions = do
      regions ← do_action A.describe_regions
      return (keep (λ region_id. not (region_id == self.region)) regions)

    unfoldable pub copy_image : String → String → Run Client String
    copy_image src_image_id dest_region = do
      found ← check_image_existance dest_region self.image_name
      elim found [
        | some image_id ↦ return image_id
        | none ↦ do_action (λ r. A.copy_image r src_image_id dest_region self.image_name)
      ]

    unfoldable pub import_image : ℕ → Run Client String
    import_image passes = do
      found ← check_image_existance self.region self.image_name
      elim found [
        | some image_id ↦ (do wait_for_image passes self.region image_id; return image_id)
        | none ↦ (do
          image_id ←
              do_action (λ r. A.import_image r self.image_name self.bucket_name self.image_oss_key)
          wait_for_image passes self.region image_id
          return image_id)
      ]

    unfoldable pub share_images : Dict String → Run Client (Unit {0})
    share_images region_image_map = do
      for_each
          (λ region_img. do
            set_region_id region_img.0
            do_action (λ r. A.modify_share_permission r region_img.1 share))
          region_image_map
      set_region_id self.region

    -- The copies to the other regions, with those made before.
    unfoldable pub copy_each : String → List String → Dict String → Run Client (Dict String)
    copy_each image_id [] region_image_map = return region_image_map
    copy_each image_id (region ∷ regions) region_image_map = do
      copied ← copy_image image_id region
      copy_each image_id regions (insert region copied region_image_map)

    unfoldable pub make_image : ℕ → Run Client OnlineReleaseManifest
    make_image passes = do
      image_id ← import_image passes
      other_regions ← list_regions
      copies ← copy_each image_id other_regions []
      for_each (λ region_img. wait_for_image passes region_img.0 region_img.1) copies
      let region_image_map = insert self.region image_id copies
      share_images region_image_map
      return (
          with_published (alicloud_set (published_images self.image_name region_image_map))
            self.release)

    unfoldable pub del_image : String → String → Run Client (Unit {0})
    del_image region image_id = do
      set_region_id region
      do_action (λ r. A.modify_share_permission r image_id unshare)
      do_action (λ r. A.delete_image r image_id)

    -- One region, with what `did_raise` was before.
    unfoldable pub delete_in : Bool → Bool → String → Run Client Bool
    unfolding del_image
    delete_in keep_going did_raise region = do
      found ← check_image_existance region self.image_name
      elim found [
        | none ↦ return did_raise
        | some image_id ↦
            except (do del_image region image_id; return did_raise)
              (λ e. if keep_going then return true else raise e)
      ]

    unfoldable pub delete_each : Bool → Bool → List String → Run Client Bool
    delete_each keep_going did_raise [] = return did_raise
    delete_each keep_going did_raise (region ∷ regions) = do
      raised ← delete_in keep_going did_raise region
      delete_each keep_going raised regions

    -- There is no exception to raise again at the end, so that a `RuntimeError` is raised.
    unfoldable pub delete_images : Bool → Run Client (Unit {0})
    delete_images keep_going = do
      regions ← list_regions
      did_raise ← delete_each keep_going false (regions ++ self.region ∷ [])
      (if did_raise then raise runtime_error else return tt)
