-- ===== src/Tests/CleanRuns.antt =====
-- The clean-up jobs of ci/clean.py, run on a bucket in memory.
use gardenlinux.Prelude.{
  flat_map, difference, take_chars, keep, to_set, ◌≡◌, refl, false, none, some, List, [], ◌∷◌,
  contains, string_eq, here, arith,
}
use gardenlinux.Model.Flavours.{amd64}
use gardenlinux.Model.Manifests.{ReleaseFile, OnlineReleaseManifest, OnlineReleaseManifestSet}
use gardenlinux.Clean.{clean_orphaned_objects}
use gardenlinux.Clean.Referenced.{by_single}
use gardenlinux.Clean.Orphans.{referred, clean_orphaned_objects_keeps, clean_orphaned_objects_total}
use gardenlinux.Tests.Memory.{other, Entry, memory, memory-IsLawful}
use gardenlinux.Tests.Paged.{paged, paged-IsLawful, paged-IsProgressing, left_behind}

abbrev pub image : ReleaseFile
image = record {
  name = "rootfs";
  suffix = "raw";
  s3_key = "objects/used";
  s3_bucket_name = "bucket";
}

abbrev old_release : OnlineReleaseManifest
old_release = record {
  manifest = record {
    identifier = record {
      build_committish = "0123456789";
      version = "27.0";
      gardenlinux_epoch = 27;
      architecture = amd64;
      platform = "aws";
      modifiers = [];
    };
    build_timestamp = 5;
    paths = image ∷ [];
    base_image = none;
    published_image_metadata = none;
  };
  s3_key = "meta/singles/old";
  s3_bucket = "bucket";
  test_result = none;
  logs = none;
}

abbrev old_set : OnlineReleaseManifestSet
old_set = record {
  manifests = old_release ∷ [];
  flavour_set_name = "small";
  s3_key = "meta/sets/old";
  s3_bucket = "bucket";
  logs = none;
}

abbrev bucket_contents : List Entry
bucket_contents =
    (record { bucket = "bucket"; key = "objects/used"; contents = some other })
    ∷ (record { bucket = "bucket"; key = "objects/loose"; contents = some other })
    ∷ (record { bucket = "bucket"; key = "meta/singles/old"; contents = some other })
    ∷ (record { bucket = "bucket"; key = "meta/sets/old"; contents = some other })
    ∷ []

abbrev cleaned : List Entry
cleaned = record { bucket = "bucket"; key = "objects/loose"; contents = none } ∷ bucket_contents

loose_cleaned :
    clean_orphaned_objects memory "bucket" "objects" [] (old_release ∷ []) false 4 bucket_contents
    ≡ some cleaned
unfolding clean_orphaned_objects to_set keep take_chars contains difference flat_map
loose_cleaned = refl

clean_orphaned_objects_keeps_example :
    memory.download cleaned "bucket" "objects/used"
    ≡ memory.download bucket_contents "bucket" "objects/used"
clean_orphaned_objects_keeps_example =
    clean_orphaned_objects_keeps memory "bucket" "objects" [] (old_release ∷ []) false 4
      memory-IsLawful bucket_contents cleaned "bucket" "objects/used" loose_cleaned
      (referred image (by_single old_release here here))

-- With one key on each page, of which the first is deleted.
clean_orphaned_objects_total_example :
    (t : List Entry) × (clean_orphaned_objects paged "bucket" "objects" []
        (old_release ∷ [])
        false
        3
        bucket_contents
      ≡ some t)
unfolding keep take_chars
clean_orphaned_objects_total_example =
    clean_orphaned_objects_total paged "bucket" "objects" [] (old_release ∷ []) false 3
      paged-IsLawful (left_behind "bucket" "objects") bucket_contents
      (paged-IsProgressing "bucket" "objects") (omega arith)
