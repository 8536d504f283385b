-- ===== src/Tests/CommandRuns.antt =====
-- The command of ci/promote.py, run on a bucket in memory.
use gardenlinux.Prelude.{
  flat_map, keep, difference, sorted, union, text_leb, upper, join, take_chars, ℕ, ◌≡◌, ◌≢◌, refl,
  subst, true, false, none, some, List, [], ◌∷◌, length, contains, to_set, In, In-cons, inl, inr,
  string_eq, arith,
}
use gardenlinux.Prelude.Result.{map_result, Result, ok}
use gardenlinux.Model.Targets.{value, build, manifest, target_eq}
use gardenlinux.Model.Features.{feature_by_name, included_features, of_type, descriptor_beq}
use gardenlinux.Model.Modifiers.{normalised_modifiers, canonicalised_features}
use gardenlinux.Model.Flavours.{Flavour, flavour_eq, flavour_beq, flavours}
use gardenlinux.Model.Manifests.{
  with_published, identifier_beq, canonical_release_manifest_key, normalised_release_identifier,
  OnlineReleaseManifest, OnlineReleaseManifestSet, aws_set,
}
use gardenlinux.Model.Tests.{registry, small_set, small_flavours, small_declared}
use gardenlinux.Releases.{
  find_each, find_release, release_manifest, online_manifest, attributes, upload_release_manifest,
  snapshot, release_manifest_set, upload_release_manifest_set, find_releases,
}
use gardenlinux.Promote.Image.{publish_image, provider_of}
use gardenlinux.Promote.Command.{
  manifest_path, Parsed, version_of, promotion_of, promote, releases_of, main,
}
use gardenlinux.Promote.Command.Published.{ArePublished, AreKnown, main-ArePublished}
use gardenlinux.Tests.Memory.{Entry, memory, memory-IsLawful}
use gardenlinux.Tests.ReleaseRuns.{first_release, second_release, two_releases, both_found}
use gardenlinux.Tests.PromoteRuns.{publisher, publisher-IsFaithful, known, one_release}

abbrev gallery : OnlineReleaseManifest → ℕ → Result OnlineReleaseManifest × ℕ
gallery m w = (ok m, w)

abbrev arguments : Parsed
arguments = record {
  bucket = "bucket";
  flavour_set = small_set;
  committish = "0123456789";
  gardenlinux_epoch = 27;
  epoch_text = "27";
  build_targets = some (build ∷ manifest ∷ []);
  version = "27.0";
  target = snapshot;
  allow_partial = false;
  azure_sig = false;
}

abbrev after_promotion : List Entry
unfolding upload_release_manifest_set manifest_path promotion_of first_release second_release
after_promotion =
    upload_release_manifest_set memory two_releases "bucket"
      (manifest_path (promotion_of arguments))
      (record {
        manifests =
            with_published (aws_set []) first_release
            ∷ with_published (aws_set []) second_release
            ∷ [];
        flavour_set_name = "small";
        logs = none;
      })

both_known : AreKnown (first_release ∷ second_release ∷ [])
unfolding first_release second_release
both_known = (known, (known, tt))

builds : contains (build ∷ manifest ∷ []) build ≡ true
unfolding contains value
builds = refl

lists : contains (build ∷ manifest ∷ []) manifest ≡ true
unfolding contains value
lists = refl

promotion_ran :
    (promote publisher memory
      (promotion_of arguments)
      (build ∷ manifest ∷ [])
      (first_release ∷ second_release ∷ [])
      two_releases
      0).0
    ≡ ok after_promotion
unfolding promote after_promotion first_release second_release contains value map_result
    publish_image
promotion_ran = refl

-- Only the first release is there.
one_found :
    find_releases memory registry 9 one_release "bucket" small_set "0123456789" "27.0" 27
    ≡ ok (first_release ∷ [])
unfolding find_releases flavours map_result flat_map normalised_modifiers feature_by_name to_set
    included_features contains of_type keep difference sorted union text_leb upper flavour_beq
    canonical_release_manifest_key descriptor_beq identifier_beq canonicalised_features join
    take_chars find_each find_release online_manifest release_manifest two_releases first_release
    second_release upload_release_manifest attributes normalised_release_identifier one_release
one_found = refl

too_few : length (first_release ∷ []) ≢ length (to_set small_flavours)
unfolding to_set flavour_beq contains
too_few h = absurd (omega (arith, h))

all_known : (f : Flavour) → In f small_flavours → provider_of f.platform ≢ none
all_known f m = elim (In-cons m) [
  | inl e ↦ subst (λ (x : Flavour). provider_of x.platform ≢ none) e known
  | inr k ↦ elim (In-cons k) [
    | inl e ↦ subst (λ (x : Flavour). provider_of x.platform ≢ none) e known
    | inr n ↦ elim n [ ]
  ]
]

command_ran :
    (main publisher memory registry 9 gallery arguments two_releases 0).0 ≡ ok after_promotion
unfolding main releases_of promote after_promotion version_of to_set flavour_beq contains
command_ran = rw (small_declared, both_found) promotion_ran

main-ArePublished_example :
    (ms : List OnlineReleaseManifest) × (m : OnlineReleaseManifestSet) × (find_releases memory
        registry 9 two_releases "bucket" small_set "0123456789"
        (version_of arguments)
        27
      ≡ ok ms)
    × (length ms ≡ length (to_set small_flavours))
    × (release_manifest_set memory after_promotion "bucket"
          (manifest_path (promotion_of arguments))
          true
        ≡ ok (some m))
    × (m.flavour_set_name ≡ "small")
    × ArePublished ms m.manifests
main-ArePublished_example =
    main-ArePublished publisher publisher-IsFaithful memory registry 9 gallery arguments
      two_releases after_promotion 0 small_flavours (build ∷ manifest ∷ []) memory-IsLawful refl
      refl refl builds lists small_declared all_known command_ran
