-- ===== src/Releases/Unordered.antt =====
-- Releases of builds whose modifiers are given in another order.
use mathlib.Core.Path.{fun_ext}
use mathlib.Core.HLevel.{Σ_prop_path}
use mathlib.Core.Equiv.{IsContr}
use mathlib.Core.Quot
use mathlib.Core.Quot.{Quot}
use text.Mathlib.TextEquality.{IsScalar-prop}
use gardenlinux.Prelude.{
  ℕ, ◌≡◌, refl, sym, ap, String, true, Option, none, some, List, string_eq, arith,
}
use gardenlinux.Prelude.Result.{Result, ok, err, >>=-ok}
use gardenlinux.Model.Features.{FeatureDescriptor}
use gardenlinux.Model.Modifiers.{normalised_modifiers, canonicalised_features}
use gardenlinux.Model.Modifiers.Unordered.{SameNames, IsCased, normalised_modifiers_unordered}
use gardenlinux.Model.Modifiers.Unordered.Features.{canonicalised_features_unordered}
use gardenlinux.Model.Manifests.{
  ReleaseIdentifier, OnlineReleaseManifest, normalised_release_identifier,
  canonical_release_manifest_key_suffix, canonical_release_manifest_key,
}
use gardenlinux.Store.{Store}
use gardenlinux.Releases.{release_manifest, confirm, find_release}

-- The identifier of the same build, with other modifiers.
abbrev pub with_modifiers : List String → ReleaseIdentifier → ReleaseIdentifier
with_modifiers ns i = record i { modifiers = ns }

-- Sets of names.
abbrev pub Names : Type 0
Names = Quot SameNames

abbrev returned : Result String → Option String
returned (ok key) = some key
returned (err e) = none

-- The key of a build with these modifiers, as far as one is returned.
abbrev pub key_of : List FeatureDescriptor → ℕ → ReleaseIdentifier → List String → Option String
key_of features depth i ns =
    returned (canonical_release_manifest_key features depth (with_modifiers ns i))

module _ (features : List FeatureDescriptor) (depth : ℕ) (cased : IsCased features) where
  pub canonical_release_manifest_key_unordered :
      (i : ReleaseIdentifier) (ns : List String) (key : String)
      → SameNames i.modifiers ns
      → canonical_release_manifest_key features depth i ≡ ok key
      → canonical_release_manifest_key features depth (with_modifiers ns i) ≡ ok key
  unfolding canonical_release_manifest_key canonical_release_manifest_key_suffix
  canonical_release_manifest_key_unordered i ns key same e =
      let (suffix, e₁, k₁) = >>=-ok (canonical_release_manifest_key_suffix features depth i) _ e in
      let (canonical, e₂, k₂) =
        >>=-ok (canonicalised_features features depth i.platform i.modifiers) _ e₁ in
      let again =
        canonicalised_features_unordered features depth i.platform i.modifiers ns canonical cased
          same e₂ in
      let read = rw e₂ at e in rw again read

  normalised_release_identifier_unordered :
      (i n : ReleaseIdentifier) (ns : List String)
      → SameNames i.modifiers ns
      → normalised_release_identifier features depth i ≡ ok n
      → normalised_release_identifier features depth (with_modifiers ns i) ≡ ok n
  unfolding normalised_release_identifier
  normalised_release_identifier_unordered i n ns same e =
      let (l, e₁, k₁) = >>=-ok (normalised_modifiers features depth i.platform i.modifiers) _ e in
      let again =
        normalised_modifiers_unordered features depth i.platform i.modifiers ns l cased same e₁ in
      rw again k₁

  module _ (S : Store) where
    confirm_unordered :
        (i : ReleaseIdentifier) (ns : List String) (found : Option OnlineReleaseManifest)
        (o : Option OnlineReleaseManifest)
        → SameNames i.modifiers ns
        → confirm S features depth i found ≡ ok o
        → confirm S features depth (with_modifiers ns i) found ≡ ok o
    unfolding confirm
    confirm_unordered i ns none o same e = e
    confirm_unordered i ns (some m) o same e =
        let (f, e₁, k₁) = >>=-ok (normalised_release_identifier features depth m.identifier) _ e in
        let (n, e₂, k₂) = >>=-ok (normalised_release_identifier features depth i) _ k₁ in
        rw (e₁, normalised_release_identifier_unordered i n ns same e₂) k₂

    -- Where no two features differ in case alone, `find_release` returns for modifiers in another
    -- order, or with repetitions, what it returns for these.
    pub find_release_unordered :
        (s : S.State) (bucket : String) (i : ReleaseIdentifier) (ns : List String)
        (o : Option OnlineReleaseManifest)
        → SameNames i.modifiers ns
        → find_release S features depth s bucket i ≡ ok o
        → find_release S features depth s bucket (with_modifiers ns i) ≡ ok o
    unfolding find_release
    find_release_unordered s bucket i ns o same e =
        let (key, e₁, k₁) = >>=-ok (canonical_release_manifest_key features depth i) _ e in
        let (found, e₂, k₂) = >>=-ok (release_manifest S s bucket key true) _ k₁ in
        rw
          (
            canonical_release_manifest_key_unordered i ns key same e₁,
            e₂,
            confirm_unordered i ns found o same k₂,
          )
          refl

  key_of-SameNames :
      (i : ReleaseIdentifier) (ms ns : List String)
      → SameNames ms ns
      → key_of features depth i ms ≡ key_of features depth i ns
  key_of-SameNames i ms ns same =
      agree _ _ (λ k. canonical_release_manifest_key_unordered (with_modifiers ms i) ns k same)
        (λ k.
          canonical_release_manifest_key_unordered (with_modifiers ns i) ms k (λ x. sym (same x)))
    where
      agree :
          (r t : Result String)
          → ((k : String) → r ≡ ok k → t ≡ ok k)
          → ((k : String) → t ≡ ok k → r ≡ ok k)
          → returned r ≡ returned t
      agree (ok k) t h g = ap returned (sym (h k refl))
      agree (err e) (ok k) h g = absurd (ground (arith, g k refl))
      agree (err e) (err f) h g = refl

  -- Where no two features differ in case alone, exactly one function of the set of the modifiers
  -- gives the key of a build wherever one is returned, and nothing elsewhere.
  pub canonical_release_manifest_key-IsContr :
      (i : ReleaseIdentifier)
      → IsContr (
          (f : Names → Option String) × ((ns : List String)
            → f (Quot.mk ns) ≡ key_of features depth i ns))
  canonical_release_manifest_key-IsContr i = (
    (Quot.lift option_set (key_of features depth i) (key_of-SameNames i), λ ns. refl),
    λ (f, computes).
        Σ_prop_path
          (λ g x y.
            fun_ext (λ ns. option_set (g (Quot.mk ns)) (key_of features depth i ns) (x ns) (y ns)))
          (fun_ext (Quot.ind (λ q. option_set _ _) computes)),
  )
    where
      option_set : IsSet (Option String)
      option_set = hlevel (IsScalar-prop)
