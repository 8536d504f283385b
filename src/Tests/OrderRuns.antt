-- ===== src/Tests/OrderRuns.antt =====
-- A release that is looked for with its modifiers in another order.
use mathlib.Core.Equiv.{IsContr}
use mathlib.Core.Quot
use gardenlinux.Prelude.{
  ◌≡◌, refl, String, Option, some, List, [], ◌∷◌, string_eq, contains, upper, to_set, keep, sorted,
  union, text_leb, difference, join, take_chars, arith,
}
use gardenlinux.Prelude.Result.{ok, map_result}
use gardenlinux.Model.Features.{feature_by_name, descriptor_beq, included_features}
use gardenlinux.Model.Modifiers.{normalised_modifiers, canonicalised_features}
use gardenlinux.Model.Modifiers.Unordered.{SameNames, IsCased, IsCased-names}
use gardenlinux.Model.Manifests.{
  canonical_release_manifest_key, identifier_beq, normalised_release_identifier,
}
use gardenlinux.Model.Tests.{registry}
use gardenlinux.Releases.{
  attributes, online_manifest, upload_release_manifest, find_release, release_manifest,
}
use gardenlinux.Releases.Unordered.{
  with_modifiers, find_release_unordered, Names, key_of, canonical_release_manifest_key-IsContr,
}
use gardenlinux.Tests.Memory.{memory}
use gardenlinux.Tests.ReleaseRuns.{first_identifier, first_release, second_release, two_releases}

registry-IsCased : IsCased registry
unfolding contains upper
registry-IsCased = IsCased-names registry (refl, (refl, (refl, (refl, tt))))

abbrev other_order : List String
other_order = "cloud" ∷ "base" ∷ "cloud" ∷ []

same_names : SameNames first_identifier.modifiers other_order
unfolding contains
same_names x = ground arith

first_found :
    find_release memory registry 9 two_releases "bucket" first_identifier ≡ ok (some first_release)
unfolding map_result to_set contains keep normalised_modifiers feature_by_name descriptor_beq
    included_features find_release canonical_release_manifest_key canonicalised_features sorted
    union text_leb upper difference join take_chars identifier_beq normalised_release_identifier
    release_manifest upload_release_manifest attributes online_manifest two_releases first_release
    second_release
first_found = refl

find_release_unordered_example :
    find_release memory registry 9 two_releases "bucket"
      (with_modifiers other_order first_identifier)
    ≡ ok (some first_release)
find_release_unordered_example =
    find_release_unordered registry 9 registry-IsCased memory two_releases "bucket" first_identifier
      other_order (some first_release) same_names first_found

canonical_release_manifest_key-IsContr_example : IsContr (
    (f : Names → Option String) × ((ns : List String)
      → f (Quot.mk ns) ≡ key_of registry 9 first_identifier ns))
canonical_release_manifest_key-IsContr_example =
    canonical_release_manifest_key-IsContr registry 9 registry-IsCased first_identifier
