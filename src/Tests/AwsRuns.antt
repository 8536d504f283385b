-- ===== src/Tests/AwsRuns.antt =====
-- Publishing on AWS, with images that become available at once or after some polls.
use gardenlinux.Prelude.Dicts.{insert}
use gardenlinux.Prelude.Run.{for_each}
use gardenlinux.Model.Versions.{virtual_image_artifact_for_platform}
use gardenlinux.Model.Features.{descriptor_beq, included_features, feature_by_name}
use gardenlinux.Model.Modifiers.{canonicalised_features}
use gardenlinux.Prelude.{
  take_chars, contains, to_set, keep, difference, sorted, join, ℕ, zero, suc, ◌-◌, ◌≡◌, refl, inl,
  inr, String, some, List, [], ◌∷◌, string_eq, arith, ◌<◌, ◌⊎◌, Bool, true, false, if◌then◌else◌,
}
use gardenlinux.Prelude.Result.{map_result, ok}
use gardenlinux.Model.Manifests.{
  path_by_suffix, canonical_release_manifest_key_suffix, OnlineReleaseManifest, ReleaseFile,
  AwsPublishedImage, aws_set, with_published,
}
use gardenlinux.Model.Tests.{registry}
use gardenlinux.Aws.{
  set_images_public, current_image_state, wait_for_images, response_ok, copy_image, image_map_of,
  SnapshotTask, TaskStatus, active, completed, target_image_name_for_release, distributed,
  register_image, task_status, current_task, wait_for_snapshot_import, Ec2, ImageState, available,
  image_state, is_erroneous, wait_for_image_state, upload_and_register_gardenlinux_image,
}
use gardenlinux.Aws.Served.{IsServing, upload_and_register_gardenlinux_image_returns}
use gardenlinux.Aws.Waits.{IsSettling}
use gardenlinux.Aws.Regions.{IsDistributed, upload_and_register_gardenlinux_image-IsDistributed}
use gardenlinux.Aws.Unregister.{Image, Pool, Reach, IsDone, In, started, started_late}
use gardenlinux.Tests.ReleaseRuns.{first_release}

-- An image is pending for so many polls.
abbrev ec2 : Ec2
ec2 = record {
  World = ℕ;
  import_snapshot = λ region bucket key w. (ok "task", w);
  describe_tasks =
      λ region task w. (ok (record { status = "completed"; snapshot_id = "snapshot" } ∷ []), w);
  register = λ region snapshot name w. (ok "ami-1", w);
  create_tags = λ region image w. (ok tt, w);
  describe_regions = λ region w. (ok ("eu-west-1" ∷ "eu-central-1" ∷ "us-east-1" ∷ []), w);
  describe_states =
      λ region image w. (ok (elim w [ zero ↦ "available" | suc n ↦ "pending" ] ∷ []), w - 1);
  describe_named = λ region name w. (ok [], w);
  copy_to =
      λ region image source name w. (ok (record { status_code = 200; image_id = "ami-2" }), w);
  allow_all = λ region image w. (ok (record { status_code = 200; image_id = image }), w);
  deregister_image = λ region image w. (ok tt, w);
}

settles : IsSettling ec2 "eu-central-1" "ami-1" available (λ w. w)
unfolding image_state
settles zero = ("available", available, 0, refl, refl, inl refl)
settles (suc n) = ("pending", ImageState.pending, suc n - 1, refl, refl, inr (inr (omega arith)))

abbrev aws_path : ReleaseFile
aws_path = record {
  name = "image";
  suffix = "rootfs.raw";
  s3_key = "objects/1";
  s3_bucket_name = "bucket";
}

abbrev with_image : OnlineReleaseManifest
with_image = record first_release {
  manifest = record (first_release.manifest) { paths = aws_path ∷ [] };
}

abbrev image_in : String → String → AwsPublishedImage
image_in region image = record {
  ami_id = image;
  aws_region_id = region;
  image_name = "gardenlinux-aws-cloud-27.0-012345";
}

abbrev published : OnlineReleaseManifest
published =
    with_published
      (aws_set (
        image_in "eu-west-1" "ami-2"
        ∷ image_in "us-east-1" "ami-2"
        ∷ image_in "eu-central-1" "ami-1"
        ∷ []))
      with_image

uploaded :
    upload_and_register_gardenlinux_image ec2 registry 9 3 "eu-central-1" with_image 1
    ≡ some (ok published, 0)
unfolding upload_and_register_gardenlinux_image canonical_release_manifest_key_suffix
    canonicalised_features feature_by_name first_release map_result included_features
    virtual_image_artifact_for_platform path_by_suffix wait_for_snapshot_import current_task
    task_status register_image distributed image_map_of copy_image response_ok wait_for_images
    for_each insert wait_for_image_state current_image_state image_state is_erroneous
    set_images_public join sorted difference keep to_set contains descriptor_beq take_chars
uploaded = refl

upload_and_register_gardenlinux_image-IsDistributed_example :
    IsDistributed ec2 "eu-central-1" with_image published
upload_and_register_gardenlinux_image-IsDistributed_example =
    upload_and_register_gardenlinux_image-IsDistributed ec2 registry 9 3 "eu-central-1" with_image
      published 1 0 uploaded

abbrev two_images : List Image
two_images = ("eu-west-1", "ami-2") ∷ ("us-east-1", "ami-3") ∷ []

started_late_example :
    (pool : Pool) × Reach (started two_images) pool
    × IsDone pool
    × ((image : Image) → In image pool.removed → image ≡ ("us-east-1", "ami-3"))
started_late_example = started_late two_images ("us-east-1", "ami-3") refl

-- What is asked for is pending once.
abbrev served_ec2 : Ec2
served_ec2 = record {
  World = Bool;
  import_snapshot = λ region bucket key w. (ok "task", w);
  describe_tasks = λ region task w. (
    ok (record { status = if w then "active" else "completed"; snapshot_id = "snapshot" } ∷ []),
    false,
  );
  register = λ region snapshot name w. (ok "ami-1", w);
  create_tags = λ region image w. (ok tt, true);
  describe_regions = λ region w. (ok ("eu-west-1" ∷ "eu-central-1" ∷ []), w);
  describe_states = λ region image w. (ok ((if w then "pending" else "available") ∷ []), false);
  describe_named = λ region name w. (ok [], w);
  copy_to =
      λ region image source name w. (ok (record { status_code = 200; image_id = "ami-2" }), w);
  allow_all = λ region image w. (ok (record { status_code = 200; image_id = image }), w);
  deregister_image = λ region image w. (ok tt, w);
}

abbrev left_over : Bool → ℕ
left_over w = if w then 1 else 0

left_over-bounded : (w : Bool) → left_over w < 2
left_over-bounded true = omega arith
left_over-bounded false = omega arith

served_tasks :
    (region task_id : String) (w : Bool)
    → (task : SnapshotTask) × (status : TaskStatus) × (w' : Bool) × (served_ec2.describe_tasks
          region task_id w
        ≡ (ok (task ∷ []), w'))
      × (task_status task.status ≡ ok status)
      × ((status ≡ completed) ⊎ ((status ≡ active) × (left_over w' < left_over w)))
unfolding task_status
served_tasks region task_id true = (_, active, false, refl, refl, inr (refl, omega arith))
served_tasks region task_id false = (_, completed, false, refl, refl, inl refl)

served_states :
    (region image : String) (w : Bool)
    → (text : String) × (state : ImageState) × (w' : Bool) × (served_ec2.describe_states region
          image w
        ≡ (ok (text ∷ []), w'))
      × (image_state text ≡ ok state)
      × ((state ≡ available) ⊎ ((is_erroneous state ≡ false) × (left_over w' < left_over w)))
unfolding image_state is_erroneous
served_states region image true =
    ("pending", ImageState.pending, false, refl, refl, inr (refl, omega arith))
served_states region image false = ("available", available, false, refl, refl, inl refl)

served : IsServing served_ec2 left_over 2
served = record {
  near = left_over-bounded;
  imports = λ region bucket key w. (_, _, refl);
  tasks = served_tasks;
  registers = λ region snapshot name w. (_, _, refl);
  tags = λ region image w. (_, refl);
  regions = λ region w. (_, _, refl);
  copies = λ region image src name w. (_, _, refl, refl);
  states = served_states;
  allows = λ region image w. (_, _, refl, refl);
}

named :
    target_image_name_for_release served_ec2 registry 9 with_image
    ≡ ok "gardenlinux-aws-cloud-27.0-012345"
unfolding target_image_name_for_release canonical_release_manifest_key_suffix canonicalised_features
    feature_by_name first_release map_result included_features join sorted difference keep to_set
    contains descriptor_beq take_chars
named = refl

found : path_by_suffix "rootfs.raw" with_image.paths ≡ ok aws_path
unfolding path_by_suffix
found = refl

upload_and_register_gardenlinux_image_returns_example :
    (release : OnlineReleaseManifest) × (w : Bool) × (upload_and_register_gardenlinux_image
        served_ec2 registry 9 2 "eu-central-1" with_image false
      ≡ some (ok release, w))
    × IsDistributed served_ec2 "eu-central-1" with_image release
upload_and_register_gardenlinux_image_returns_example =
    upload_and_register_gardenlinux_image_returns served_ec2 left_over 2 served registry 9
      "eu-central-1" "gardenlinux-aws-cloud-27.0-012345" aws_path with_image false named found
