-- ===== src/Tests/CloudRuns.antt =====
-- Publishing on OpenStack, GCP and Alicloud and to the gallery of Azure.
use gardenlinux.Prelude.Dicts.{insert}
use gardenlinux.Prelude.Run.{for_each}
use gardenlinux.Model.Features.{descriptor_beq, included_features, feature_by_name}
use gardenlinux.Model.Modifiers.{canonicalised_features}
use gardenlinux.Prelude.{
  take_chars, to_set, keep, difference, sorted, join, ℕ, ◌+◌, ◌≡◌, refl, String, ◌<>◌, none, some,
  List, [], ◌∷◌, contains, string_eq, arith, ◌<◌, ◌⊎◌, inl, inr, if◌then◌else◌, ltb, Bool-cases,
}
use gardenlinux.Prelude.Result.{map_result, ok}
use gardenlinux.Model.Manifests.{
  OnlineReleaseManifest, AlicloudPublishedImage, alicloud_set, gcp_image, with_published,
  canonical_release_manifest_key_suffix,
}
use gardenlinux.Model.Tests.{registry}
use gardenlinux.Openstack.{Glance, OpenstackEnvironment}
use gardenlinux.Openstack.Ready.{IsTicking}
use gardenlinux.Gcp.{Gcp, without_dots, upload_image_from_gcp_store}
use gardenlinux.Gcp.Public.{IsPublic, upload_image_from_gcp_store-IsPublic}
use gardenlinux.Alicloud.{
  share_images, copy_image, copy_each, list_regions, elapsed_seconds, available_from,
  wait_for_image, check_image_existance, import_image, Acs, Client, AlicloudImageMaker, make_image,
}
use gardenlinux.Alicloud.Regions.{IsDistributed}
use gardenlinux.Alicloud.Served.{IsBrief, IsServing, make_image_returns}
use gardenlinux.Tests.ReleaseRuns.{first_release}

-- A clock, and an image that is saved until a time.
abbrev glance : Glance
glance = record {
  World = ℕ;
  create_image = λ environment name meta w. (ok "image", w);
  import_image = λ environment image url w. (ok tt, w);
  image_status = λ environment image w. (ok "saving", w);
  now = λ w. (ok w, w);
  sleep = λ seconds w. (ok tt, w + seconds);
  generate_presigned_url = λ seconds bucket key w. (ok "url", w);
}

glance-IsTicking : IsTicking glance (λ w. w)
glance-IsTicking = record {
  now_lem = λ w. (w, refl, omega arith);
  image_status_lem = λ environment image w. ("saving", w, refl, omega arith);
  sleep_lem = λ seconds w. (w + seconds, refl, omega arith);
}

abbrev environment : OpenstackEnvironment
environment = record {
  auth_url = "url";
  domain = "domain";
  region = "eu";
  project_name = "project";
  username = "user";
  password = "password";
}

-- The names of the images whose policy was set.
abbrev pub gcp : Gcp
gcp = record {
  World = List String;
  Document = String;
  download = λ bucket key w. (ok "image", w);
  upload = λ bucket blob image w. (ok tt, w);
  generate_signed_url = λ bucket blob w. (ok "url", w);
  insert_image = λ project name source w. (ok "operation", w);
  wait = λ project operation w. (ok tt, w);
  delete_blob = λ bucket blob w. (ok tt, w);
  get_iam_policy = λ project name w. (ok none, w);
  set_iam_policy = λ project name bindings w. (ok tt, name ∷ w);
}

abbrev gcp_name : String
gcp_name = "gardenlinux-aws-cloud-27-0-012345"

public :
    upload_image_from_gcp_store gcp registry 9 "bucket" "blob" "project" first_release []
    ≡ (ok (with_published (gcp_image gcp_name "project") first_release), gcp_name ∷ [])
unfolding upload_image_from_gcp_store canonical_release_manifest_key_suffix canonicalised_features
    feature_by_name first_release map_result included_features without_dots join sorted difference
    keep to_set contains descriptor_beq take_chars
public = refl

upload_image_from_gcp_store-IsPublic_example :
    (suffix : String) × (canonical_release_manifest_key_suffix registry 9 first_release.identifier
      ≡ ok suffix)
    × IsPublic gcp "project" (without_dots ("gardenlinux-" <> suffix)) (gcp_name ∷ [])
    × (with_published (gcp_image gcp_name "project") first_release
        ≡ with_published
            (gcp_image (without_dots ("gardenlinux-" <> suffix)) "project")
            first_release)
upload_image_from_gcp_store-IsPublic_example =
    upload_image_from_gcp_store-IsPublic gcp registry 9 "bucket" "blob" "project" first_release
      (with_published (gcp_image gcp_name "project") first_release) [] (gcp_name ∷ []) public

abbrev acs : Acs
acs = record {
  World = ℕ;
  Document = String;
  describe_images = λ region name w. (ok (record { total_count = 0; image_ids = [] }), w);
  describe_statuses = λ region image w. (ok ("Available" ∷ []), w);
  import_image = λ region name bucket key w. (ok "m-1", w);
  copy_image = λ region image target name w. (ok "m-2", w);
  modify_share_permission = λ region image option w. (ok tt, w);
  delete_image = λ region image w. (ok tt, w);
  describe_regions = λ region w. (ok ("cn-beijing" ∷ "eu-central-1" ∷ []), w);
  now = λ w. (ok w, w);
  sleep = λ seconds w. (ok tt, w + seconds);
  download = λ bucket key w. (ok "image", w);
  put_object = λ region bucket key image w. (ok tt, w);
}

abbrev maker : AlicloudImageMaker
maker = record {
  release = first_release;
  bucket_name = "bucket";
  region = "eu-central-1";
  image_oss_key = "key";
  image_name = "name";
}

abbrev client : Client acs
client = record { world = 0; region_id = "eu-central-1" }

abbrev ali_image : String → String → AlicloudPublishedImage
ali_image region image = record { image_id = image; region_id = region; image_name = "name" }

abbrev ali_release : OnlineReleaseManifest
ali_release =
    with_published
      (alicloud_set (ali_image "cn-beijing" "m-2" ∷ ali_image "eu-central-1" "m-1" ∷ []))
      first_release

made : make_image acs maker 3 client ≡ some (ok ali_release, client)
unfolding make_image import_image check_image_existance wait_for_image available_from
    elapsed_seconds list_regions copy_each keep copy_image for_each insert share_images
made = refl

-- An image is pending until a time.
abbrev busy_acs : Acs
busy_acs = record acs {
  describe_statuses =
      λ region image w. (ok ((if ltb w 100 then "Waiting" else "Available") ∷ []), w);
}

busy_statuses :
    (region image : String) (w : ℕ)
    → (status : String) × (w' : ℕ) × (busy_acs.describe_statuses region image w
        ≡ (ok (status ∷ []), w'))
      × IsBrief (λ u. u) (λ _. 100) w w'
      × ((status ≡ "Available") ⊎ (w' < 100))
busy_statuses region image w = elim (Bool-cases (ltb w 100)) [
  | inl early ↦
      ("Waiting", w, rw early refl, (omega arith, omega arith, omega arith), inr (ground arith))
  | inr late ↦ ("Available", w, rw late refl, (omega arith, omega arith, omega arith), inl refl)
]

busy_acs-serves : IsServing busy_acs (λ w. w) (λ _. 100)
busy_acs-serves = record {
  near = λ w. omega arith;
  reads = λ w. (w, w, refl, omega arith, omega arith, (omega arith, omega arith, omega arith));
  sleeps = λ w. (w + 30, refl, omega arith, (omega arith, omega arith, omega arith));
  statuses = busy_statuses;
  lists = λ region name w. (_, _, refl, inl refl);
  imports = λ region name bucket key w. (_, _, refl);
  copies = λ region image target name w. (_, _, refl);
  shares = λ region image w. (_, refl);
  regions = λ region w. (_, _, refl);
}

make_image_returns_example :
    (release : OnlineReleaseManifest) × (c : Client busy_acs) × (make_image busy_acs maker 240
        (record { world = 0; region_id = "eu-central-1" })
      ≡ some (ok release, c))
    × IsDistributed busy_acs maker c release
make_image_returns_example =
    make_image_returns busy_acs (λ w. w) (λ _. 100) busy_acs-serves maker
      (record { world = 0; region_id = "eu-central-1" })
