-- ===== src/Oci/Sorted.antt =====
-- The release manifests of a set by the tags of their images, as `publish_from_release_set` of
-- ci/glci/oci.py sorts them.
use gardenlinux.Prelude.{
  ℕ, ◌≡◌, ◌≢◌, refl, String, ◌<>◌, false, Option, none, some, List, [], ◌∷◌, ◌++◌, ◌==◌, string_eq,
  Bool-cases, inl, inr,
}
use gardenlinux.Prelude.Result.{Result, ok, ok_injective, ◌>>=◌, >>=-ok}
use gardenlinux.Prelude.Dicts.{Dict, lookup, insert}
use gardenlinux.Model.Features.{FeatureDescriptor}
use gardenlinux.Model.Manifests.{OnlineReleaseManifest, identifier_flavour}
use gardenlinux.Oci.Identifier.{as_member, flavour_identifier}

-- The list under a key of a `defaultdict(list)`.
abbrev or_empty : Option (List OnlineReleaseManifest) → List OnlineReleaseManifest
or_empty none = []
or_empty (some ms) = ms

module _ (features : List FeatureDescriptor) (depth : ℕ) where
  -- The manifests by their tags, with those that were sorted before.
  unfoldable pub sorted_release_manifests :
      String
      → List OnlineReleaseManifest
      → Dict (List OnlineReleaseManifest)
      → Result (Dict (List OnlineReleaseManifest))
  sorted_release_manifests version [] sorted = ok sorted
  sorted_release_manifests version (m ∷ ms) sorted = do
    flavour ← identifier_flavour features depth m.identifier
    identifier ← flavour_identifier features depth as_member flavour false
    let image_tag = version <> ("-" <> identifier)
    sorted_release_manifests version ms
        (insert image_tag (or_empty (lookup image_tag sorted) ++ m ∷ []) sorted)

-- Each tag has a manifest.
unfoldable pub IsFilled : Dict (List OnlineReleaseManifest) → Type 0
IsFilled [] = Unit {0}
IsFilled ((tag, ms) ∷ sorted) = (ms ≢ []) × IsFilled sorted

append-IsNonEmpty :
    (ms : List OnlineReleaseManifest) (m : OnlineReleaseManifest) → (ms ++ m ∷ []) ≢ []
append-IsNonEmpty [] m h = cc
append-IsNonEmpty (n ∷ ms) m h = cc

insert-IsFilled :
    (tag : String) (ms : List OnlineReleaseManifest) (sorted : Dict (List OnlineReleaseManifest))
    → ms ≢ []
    → IsFilled sorted
    → IsFilled (insert tag ms sorted) × (insert tag ms sorted ≢ [])
unfolding insert IsFilled
insert-IsFilled tag ms [] some_there h = ((some_there, tt), λ e. cc)
insert-IsFilled tag ms ((t, old) ∷ sorted) some_there (before, h) = elim (Bool-cases (t == tag)) [
  | inl same ↦ rw same ((some_there, h), λ e. cc)
  | inr other ↦ rw other ((before, (insert-IsFilled tag ms sorted some_there h).0), λ e. cc)
]

-- What is sorted has a manifest for each tag, and a tag if there was one or there is a manifest.
pub sorted_release_manifests-IsFilled :
    (features : List FeatureDescriptor) (depth : ℕ) (version : String)
    (ms : List OnlineReleaseManifest) (before after : Dict (List OnlineReleaseManifest))
    → IsFilled before
    → sorted_release_manifests features depth version ms before ≡ ok after
    → IsFilled after × ((before ≢ []) → after ≢ []) × ((ms ≢ []) → after ≢ [])
unfolding sorted_release_manifests
sorted_release_manifests-IsFilled features depth version [] before after h e =
    (rw (ok_injective e) at h, λ k. rw (ok_injective e) at k, λ k. absurd (k refl))
sorted_release_manifests-IsFilled features depth version (m ∷ ms) before after h e =
    let (flavour, e₁, k₁) = >>=-ok (identifier_flavour features depth m.identifier) _ e in
    let (identifier, e₂, k₂) =
      >>=-ok (flavour_identifier features depth as_member flavour false) _ k₁ in
    let tag = version <> ("-" <> identifier) in
    let ms' = or_empty (lookup tag before) ++ m ∷ [] in
    let (filled, there) =
      insert-IsFilled tag ms' before (append-IsNonEmpty (or_empty (lookup tag before)) m) h in
    let (filled', kept, _) =
      sorted_release_manifests-IsFilled features depth version ms (insert tag ms' before) after
        filled k₂ in
    (filled', λ _. kept there, λ _. kept there)
