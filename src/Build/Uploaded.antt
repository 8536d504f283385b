-- ===== src/Build/Uploaded.antt =====
-- What a build that was uploaded can be found by.
use gardenlinux.Prelude.{
  ℕ, ◌≡◌, refl, sym, ap, subst, String, ◌<>◌, Bool, true, false, Option, none, some, List, ◌==◌,
  string_eq, contains, not, Bool-cases, inl, inr,
}
use gardenlinux.Prelude.Result.{Error, ok, system_exit, ok_injective}
use gardenlinux.Prelude.Action.{Action, ◌>>◌, check, lift-returned, on_first-returned}
use gardenlinux.Model.Features.{FeatureDescriptor}
use gardenlinux.Model.Targets.{BuildTarget, target_eq, set_from_str, manifest, tests}
use gardenlinux.Model.Manifests.{
  ReleaseFile, ReleaseIdentifier, ReleaseManifest, OnlineReleaseManifest, manifest_key_prefix,
  normalised_release_identifier, canonical_release_manifest_key_suffix,
  canonical_release_manifest_key,
}
use gardenlinux.Store.{Store, IsLawful}
use gardenlinux.Releases.{plain, attributes, online_manifest, upload_release_manifest, find_release}
use gardenlinux.Releases.Find.{find_release-upload}
use gardenlinux.Build.{
  Arguments, Upload, identifier_of_build, manifest_of_build, tests_passed, pre_check_tests,
  uploaded_paths, published_on_oci, store_manifest, upload_build, upload_results_step,
}

module _ (S : Store) (features : List FeatureDescriptor) (depth : ℕ) where
  open S use {State}

  -- What a step has done that returns, on a platform other than oci: the files are uploaded, then
  -- the manifest of their paths under its key, and the key is the result.
  record Finished (a : Arguments) (u : Upload S) (s t : State) (result : Option String)
      : Type 0 where
    paths : List ReleaseFile
    before : State
    suffix : String
    files : uploaded_paths S a u s ≡ (ok paths, before)
    has_suffix :
        canonical_release_manifest_key_suffix features depth (identifier_of_build a) ≡ ok suffix
    uploaded :
        upload_release_manifest S before a.bucket
          (manifest_key_prefix <> ("/" <> suffix))
          (plain (manifest_of_build S a u paths))
        ≡ t
    written : some (manifest_key_prefix <> ("/" <> suffix)) ≡ result

  stored :
      (bucket : String) (m : ReleaseManifest) (s t : State) (before result : Option String)
      (x : Unit {0})
      → store_manifest S features depth bucket m (s, before) ≡ (ok x, (t, result))
      → (suffix : String) × (canonical_release_manifest_key_suffix features depth m.identifier
          ≡ ok suffix)
        × (upload_release_manifest S s bucket (manifest_key_prefix <> ("/" <> suffix)) (plain m)
            ≡ t)
        × (some (manifest_key_prefix <> ("/" <> suffix)) ≡ result)
  unfolding store_manifest
  stored bucket m s t before result x h =
      let (suffix, has, e) =
        lift-returned (canonical_release_manifest_key_suffix features depth m.identifier) _
          (s, before) h in
      (suffix, has, ap (λ p. p.1.0) e, ap (λ p. p.1.1) e)

  check-returned :
      {State A : Type 0} (condition : Bool) (e : Error) (next : Action State A) (s : State) {b : A}
      {t : State}
      → (check condition e >> next) s ≡ (ok b, t)
      → (condition ≡ true) × (next s ≡ (ok b, t))
  check-returned true e next s h = (refl, h)
  check-returned false e next s h = cc

  Finished-build :
      (a : Arguments) (u : Upload S) (targets : List BuildTarget) (s t : State)
      (before result : Option String) (x : Unit {0})
      → (a.platform == "oci") ≡ false
      → upload_build S features depth a u targets (s, before) ≡ (ok x, (t, result))
      → Finished a u s t result
  unfolding upload_build published_on_oci store_manifest
  Finished-build a u targets s t before result x other h =
      let (paths, s₁, files, h₁) = on_first-returned (uploaded_paths S a u) _ s before h in
      let m = manifest_of_build S a u paths in
      let (m', is, h₂) = lift-returned (published_on_oci S u targets m) _ (s₁, before) h₁ in
      let same : m ≡ m' = ok_injective (rw other at is) in
      let (suffix, has, uploaded, written) = stored a.bucket m s₁ t before result x (
        subst (λ n. store_manifest S features depth a.bucket n (s₁, before) ≡ (ok x, (t, result)))
          (sym same) h₂) in
      record {
        paths = paths;
        before = s₁;
        suffix = suffix;
        files = files;
        has_suffix = has;
        uploaded = uploaded;
        written = written;
      }

  finished :
      (a : Arguments) (u : Upload S) (s t : State) (before result : Option String) (x : Unit {0})
      → (a.platform == "oci") ≡ false
      → upload_results_step S features depth a u (s, before) ≡ (ok x, (t, result))
      → Finished a u s t result
  unfolding upload_results_step
  finished a u s t before result x other h =
      let (targets, _, h₁) = lift-returned (set_from_str a.build_targets) _ (s, before) h in
      let (_, h₂) = check-returned (contains targets manifest) (system_exit 0) _ (s, some "") h₁ in
      let (_, h₃) = check-returned (not u.skip_build) (system_exit 0) _ (s, some "") h₂ in
      let (_, h₄) = check-returned u.is_directory (system_exit 1) _ (s, some "") h₃ in
      Finished-build a u targets s t (some "") result x other h₄

  -- In a lawful store, after a build of a platform other than oci was uploaded, the manifest is
  -- found by the identifier of the build, if that can be normalised: with the paths that were
  -- uploaded, under the key that was written as the result, and neither published nor tested, so
  -- that `pre_check_tests` lets no tests be skipped.
  pub upload_results_step-find_release :
      (a : Arguments) (u : Upload S) (s t : State) (before result : Option String) (x : Unit {0})
      (normal : ReleaseIdentifier)
      → IsLawful S
      → (a.platform == "oci") ≡ false
      → normalised_release_identifier features depth (identifier_of_build a) ≡ ok normal
      → upload_results_step S features depth a u (s, before) ≡ (ok x, (t, result))
      → (m : OnlineReleaseManifest) × (s' : State) × (find_release S features depth t a.bucket
            (identifier_of_build a)
          ≡ ok (some m))
        × (uploaded_paths S a u s ≡ (ok m.paths, s'))
        × (result ≡ some m.s3_key)
        × (m.published_image_metadata ≡ none)
        × (m.test_result ≡ none)
        × (pre_check_tests S features depth a t ≡ ok false)
  unfolding upload_results_step pre_check_tests online_manifest attributes tests_passed
      canonical_release_manifest_key
  upload_results_step-find_release a u s t before result x normal L other n h =
      let (targets, parsed, _) = lift-returned (set_from_str a.build_targets) _ (s, before) h in
      let d = finished a u s t before result x other h in
      let m = manifest_of_build S a u d.paths in
      let key = manifest_key_prefix <> ("/" <> d.suffix) in
      let has_key : canonical_release_manifest_key features depth (identifier_of_build a) ≡ ok key =
        rw d.has_suffix refl in
      let law =
        find_release-upload S features depth d.before a.bucket key (plain m) normal L has_key n in
      let found : find_release S features depth t a.bucket (identifier_of_build a)
          ≡ ok (some (online_manifest a.bucket key (attributes (plain m)))) =
        subst
          (λ w.
            find_release S features depth w a.bucket (identifier_of_build a)
            ≡ ok (some (online_manifest a.bucket key (attributes (plain m)))))
          d.uploaded law in
      (
        online_manifest a.bucket key (attributes (plain m)),
        d.before,
        found,
        d.files,
        sym d.written,
        refl,
        refl,
        elim (Bool-cases (contains targets tests)) [
          | inl tested ↦ rw (parsed, tested, found) refl
          | inr untested ↦ rw (parsed, untested) refl
        ],
      )
