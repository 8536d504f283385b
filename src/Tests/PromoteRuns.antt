-- ===== src/Tests/PromoteRuns.antt =====
-- The promote step of ci/steps/promote_step.py, run on a bucket in memory.
use gardenlinux.Prelude.{
  flat_map, suc, sym, ap, subst, ◌∙◌, inl, inr, ◌==◌, to_set, keep, sorted, union, text_leb, upper,
  difference, join, take_chars, split, ℕ, ◌≡◌, ◌≢◌, refl, String, true, false, none, some, is_none,
  List, [], ◌∷◌, contains, string_eq, eq_of_beq, Bool-cases, arith,
}
use gardenlinux.Prelude.Result.{ok, err, system_exit, map_result, ok_injective}
use gardenlinux.Model.Features.{of_type, feature_by_name, descriptor_beq, included_features}
use gardenlinux.Model.Modifiers.{normalised_modifiers, canonicalised_features}
use gardenlinux.Model.Targets.{requires, BuildTarget, target_eq, manifest, set_from_str}
use gardenlinux.Model.Flavours.{amd64, Flavour, flavour_beq, flavours}
use gardenlinux.Model.Manifests.{
  OnlineReleaseManifest, OnlineReleaseManifestSet, aws_set, with_published,
  canonical_release_manifest_key, identifier_beq, normalised_release_identifier,
}
use gardenlinux.Model.Tests.{registry, small_set}
use gardenlinux.Releases.{
  find_each, find_releases, release_set_manifest_name, upload_release_manifest_set, daily, online,
  plain, attributes, online_manifest, upload_release_manifest, find_release, release_manifest,
  release_manifest_set,
}
use gardenlinux.Releases.Find.{release_manifest-upload}
use gardenlinux.Promote.Image.{has_cleanup, publish_image, provider_of, Publisher}
use gardenlinux.Promote.Image.Published.{IsFaithful}
use gardenlinux.Promote.Single.{SingleStep, prepared, tolerated, promote_single_step}
use gardenlinux.Promote.Single.Chosen.{some_injective}
use gardenlinux.Promote.Single.Again.{
  IsKeyed, promote_single_step_again, promote_single_step-IsKeyed,
}
use gardenlinux.Promote.Sets.{SetStep, promote_step}
use gardenlinux.Promote.Sets.Complete.{IsComplete, promote_step-IsComplete}
use gardenlinux.Tests.Memory.{Entry, memory, memory-IsLawful}
use gardenlinux.Tests.ReleaseRuns.{
  first_key, first_identifier, first_has_key, first_release, second_release, unpublished,
  two_releases,
}

-- A publisher that succeeds, and counts.
abbrev pub publisher : Publisher
publisher = record {
  World = ℕ;
  publish_function = λ p m w. (ok (with_published (aws_set []) m), suc w);
  cleanup_function = λ p m w. (ok tt, w);
}

pub publisher-IsFaithful : IsFaithful publisher
publisher-IsFaithful = record {
  publishes = λ p m w m' w' e.
      let same : with_published (aws_set []) m ≡ m' = ok_injective (ap (λ x. x.0) e) in
      subst
        (λ (x : OnlineReleaseManifest).
          (x.identifier ≡ m.identifier) × (is_none x.published_image_metadata ≡ false))
        same (refl, refl);
}

abbrev step : SingleStep
step = record {
  bucket = "bucket";
  committish = "0123456789";
  architecture = amd64;
  platform_name = "aws";
  gardenlinux_epoch = 27;
  modifiers = "base,cloud";
  version = "27.0";
  build_targets = "build,manifest,component-descriptor,publish";
  publisher_id = "sap";
  offer_id = "gardenlinux";
  plan_id = "greatest";
  parse_to_semver = λ version. ok version;
}

unfoldable pub one_release : List Entry
unfolding upload_release_manifest
one_release =
    upload_release_manifest memory [] "bucket" first_key (plain (unpublished first_identifier))

abbrev one_published : List Entry
unfolding upload_release_manifest
one_published =
    upload_release_manifest memory one_release "bucket" first_key
      (online (with_published (aws_set []) first_release))

pub one_release-IsKeyed : IsKeyed memory registry 9 one_release "bucket"
unfolding IsKeyed one_release release_manifest attributes online_manifest
one_release-IsKeyed k m e =
    let e' =
      sym (
        release_manifest-upload memory registry 9 [] "bucket" first_key "bucket" k
          (plain (unpublished first_identifier)) memory-IsLawful)
      ∙ e in
    elim (Bool-cases (k == first_key)) [
      | inl same ↦
          let held = some_injective (ok_injective (rw same at e')) in
          ap (λ (x : OnlineReleaseManifest). canonical_release_manifest_key registry 9 x.identifier)
            (sym held)
          ∙ (first_has_key ∙ ap ok (sym (eq_of_beq k first_key same)))
      | inr apart ↦ absurd (ground (arith, rw apart at e'))
    ]

published_once :
    (promote_single_step memory registry 9 publisher step one_release 0).0 ≡ ok one_published
unfolding promote_single_step map_result to_set contains requires of_type keep normalised_modifiers
    feature_by_name descriptor_beq included_features find_release canonical_release_manifest_key
    canonicalised_features sorted union text_leb upper difference join take_chars identifier_beq
    normalised_release_identifier release_manifest upload_release_manifest attributes
    online_manifest one_release one_published first_release provider_of has_cleanup prepared
    tolerated publish_image split
published_once = refl

pub known : provider_of "aws" ≢ none
unfolding provider_of
known h = ground arith

promote_single_step_again_example :
    promote_single_step memory registry 9 publisher step one_published 5 ≡ (err (system_exit 0), 5)
promote_single_step_again_example =
    promote_single_step_again memory registry 9 publisher step one_release one_published 0 5
      memory-IsLawful publisher-IsFaithful one_release-IsKeyed known published_once

promote_single_step-IsKeyed_example : IsKeyed memory registry 9 one_published "bucket"
promote_single_step-IsKeyed_example =
    promote_single_step-IsKeyed memory registry 9 publisher step one_release one_published 0
      memory-IsLawful one_release-IsKeyed published_once

abbrev set_step : SetStep
set_step = record {
  bucket = "bucket";
  flavour_set = small_set;
  build_targets = "build,manifest";
  gardenlinux_epoch = 27;
  epoch_text = "27";
  committish = "0123456789";
  version = "27.0";
  build_type = daily;
  timestamp = "20210101-000000";
}

abbrev set_key : String
set_key = "meta/sets/daily/27-012345-small-20210101-000000"

abbrev after_set_step : List Entry
unfolding upload_release_manifest_set
after_set_step = upload_release_manifest_set memory two_releases "bucket" set_key (record {
  manifests = first_release ∷ second_release ∷ [];
  flavour_set_name = "small";
  logs = none;
})

set_written : promote_step memory registry 9 set_step two_releases ≡ ok (after_set_step, set_key)
unfolding promote_step map_result to_set contains requires of_type keep normalised_modifiers
    feature_by_name descriptor_beq flavour_beq flavours find_releases find_each flat_map
    included_features find_release canonical_release_manifest_key canonicalised_features sorted
    union text_leb upper difference join take_chars identifier_beq normalised_release_identifier
    release_manifest upload_release_manifest attributes online_manifest two_releases first_release
    second_release release_set_manifest_name upload_release_manifest_set after_set_step
set_written = refl

promote_step-IsComplete_example :
    (targets : List BuildTarget) × (fs : List Flavour) × (m : OnlineReleaseManifestSet)
    × (set_from_str "build,manifest" ≡ ok targets)
    × (contains targets manifest ≡ true)
    × (flavours registry 9 small_set ≡ ok fs)
    × (release_manifest_set memory after_set_step "bucket" set_key true ≡ ok (some m))
    × (m.flavour_set_name ≡ "small")
    × IsComplete memory registry 9 set_step two_releases fs m.manifests
promote_step-IsComplete_example =
    promote_step-IsComplete memory registry 9 set_step two_releases after_set_step set_key
      memory-IsLawful set_written
