-- ===== src/Oci/Multiarch.antt =====
-- When `publish_from_release_set` of ci/glci/oci.py returns.
use gardenlinux.Prelude.{
  ℕ, ◌≡◌, ◌≢◌, ◌↔◌, refl, ap, sym, ◌∙◌, String, List, [], ◌∷◌, ◌==◌, string_eq, keep,
}
use gardenlinux.Prelude.Result.{ok, ok_injective}
use gardenlinux.Prelude.Action.{for_each, >>=-returned, lift-returned}
use gardenlinux.Prelude.Dicts.{Dict}
use gardenlinux.Model.Features.{FeatureDescriptor}
use gardenlinux.Model.Manifests.{OnlineReleaseManifest, OnlineReleaseManifestSet, path_by_suffix}
use gardenlinux.Oci.Identifier.{as_member}
use gardenlinux.Oci.Layer.{Gzip, Bytes}
use gardenlinux.Oci.{Registry, publish_from_release, container_architecture}
use gardenlinux.Oci.Sorted.{sorted_release_manifests, IsFilled, sorted_release_manifests-IsFilled}
use gardenlinux.Oci.Sets.{
  ManifestListEntry, first_of, publish_variant, publish_variants, publish_multiarch,
  publish_from_release_set,
}

-- The manifests that images of several architectures are made of.
abbrev pub oci_manifests : List OnlineReleaseManifest → List OnlineReleaseManifest
oci_manifests = keep (λ m. m.platform == "oci")

first_of-there :
    (ms : List OnlineReleaseManifest) (m : OnlineReleaseManifest) → first_of ms ≡ ok m → ms ≢ []
first_of-there [] m e h = cc
first_of-there (n ∷ ms) m e h = cc

-- A list that is not without elements, unless another is, is empty where that is.
empty_if : {A B : Type 0} (xs : List A) (ys : List B) → ((xs ≢ []) → ys ≢ []) → ys ≡ [] → xs ≡ []
empty_if [] ys h e = refl
empty_if (x ∷ xs) ys h e = absurd (h (λ k. cc) e)

first_of-some :
    (ms : List OnlineReleaseManifest) → ms ≢ [] → (m : OnlineReleaseManifest) × (first_of ms ≡ ok m)
first_of-some [] h = absurd (h refl)
first_of-some (m ∷ ms) h = (m, refl)

module _ (Z : Gzip) (R : Registry Z) (dump_list : List ManifestListEntry → Bytes) where
  open R use {World}

  publish_from_release_raises :
      (m : OnlineReleaseManifest) (reference : String) (tags : List String) (a : String × ℕ)
      (w w' : World)
      → publish_from_release Z R as_member m reference tags w ≢ (ok a, w')
  unfolding publish_from_release container_architecture
  publish_from_release_raises m reference tags a w w' e =
      let (path, e₁, k₁) = lift-returned (path_by_suffix "rootfs.tar.xz" m.paths) _ w e in
      let (reads, u, e₂, k₂) = >>=-returned (R.download path.s3_bucket_name path.s3_key) _ w k₁ in
      cc k₂

  publish_variants-nil :
      (reference : String) (ms : List OnlineReleaseManifest) (a : List ManifestListEntry)
      (w w' : World)
      → publish_variants Z R dump_list reference ms w ≡ (ok a, w')
      → ms ≡ []
  unfolding publish_variants publish_variant
  publish_variants-nil reference [] a w w' e = refl
  publish_variants-nil reference (m ∷ ms) a w w' e =
      let (entry, u, e₁, k₁) = >>=-returned (publish_variant Z R dump_list reference m) _ w e in
      let (pushed, v, e₂, k₂) =
        >>=-returned (publish_from_release Z R as_member m reference []) _ w e₁ in
      absurd (publish_from_release_raises m reference [] pushed w v e₂)

  multiarch-nil :
      (image_prefix version : String) (sorted : Dict (List OnlineReleaseManifest)) (w w' : World)
      → IsFilled sorted
      → for_each (publish_multiarch Z R dump_list image_prefix version) sorted w ≡ (ok tt, w')
      → sorted ≡ []
  unfolding for_each publish_multiarch IsFilled
  multiarch-nil image_prefix version [] w w' h e = refl
  multiarch-nil image_prefix version ((tag, ms) ∷ sorted) w w' (filled, h) e =
      let (_, u, e₁, k₁) =
        >>=-returned (publish_multiarch Z R dump_list image_prefix version (tag, ms)) (λ _. _) w
          e in
      let (entries, v, e₂, k₂) = >>=-returned (publish_variants Z R dump_list _ ms) _ w e₁ in
      absurd (filled (publish_variants-nil _ ms entries w v e₂))

  -- Publishing a release set returns exactly if the set has manifests and none of them is of the
  -- platform oci; it then returns the set as it was, and the registry stays as it is.
  pub publish_from_release_set_iff :
      (features : List FeatureDescriptor) (depth : ℕ) (image_prefix : String)
      (set set' : OnlineReleaseManifestSet) (w w' : World)
      → (publish_from_release_set Z R dump_list features depth image_prefix set w ≡ (ok set', w'))
        ↔ ((set.manifests ≢ []) × (oci_manifests set.manifests ≡ []) × (set' ≡ set) × (w' ≡ w))
  unfolding publish_from_release_set IsFilled for_each
  publish_from_release_set_iff features depth image_prefix set set' w w' = (returned, returns)
    where
      returned :
          publish_from_release_set Z R dump_list features depth image_prefix set w ≡ (ok set', w')
          → (set.manifests ≢ []) × (oci_manifests set.manifests ≡ []) × (set' ≡ set) × (w' ≡ w)
      returned e =
          let (first, e₁, k₁) = lift-returned (first_of set.manifests) _ w e in
          let (sorted, e₂, k₂) =
            lift-returned
              (sorted_release_manifests features depth first.version (oci_manifests set.manifests)
                [])
              _ w k₁ in
          let (_, u, e₃, k₃) =
            >>=-returned
              (for_each (publish_multiarch Z R dump_list image_prefix first.version) sorted)
              (λ _. _) w k₂ in
          let (filled, _, there) =
            sorted_release_manifests-IsFilled features depth first.version
              (oci_manifests set.manifests) [] sorted tt e₂ in
          let none_sorted = multiarch-nil image_prefix first.version sorted w u filled e₃ in
          let nothing_done : w ≡ u = ap (λ p. p.1) (rw none_sorted at e₃) in
          (
            first_of-there set.manifests first e₁,
            empty_if (oci_manifests set.manifests) sorted there none_sorted,
            sym (ok_injective (ap (λ p. p.0) k₃)),
            sym (nothing_done ∙ ap (λ p. p.1) k₃),
          )

      returns :
          (set.manifests ≢ []) × (oci_manifests set.manifests ≡ []) × (set' ≡ set) × (w' ≡ w)
          → publish_from_release_set Z R dump_list features depth image_prefix set w ≡ (ok set', w')
      returns (some_there, no_oci, same, still) =
          let (first, e) = first_of-some set.manifests some_there in
          rw (e, no_oci, sorted_release_manifests, same, still) refl
