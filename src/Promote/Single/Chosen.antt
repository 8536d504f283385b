-- ===== src/Promote/Single/Chosen.antt =====
-- The release that `promote_single_step` chooses to publish.
use gardenlinux.Prelude.{
  is_none, ℕ, ◌≡◌, refl, sym, ap, ◌∙◌, String, Bool, true, false, Option, none, some, List, ◌==◌,
  if◌then◌else◌, string_eq, Bool-cases, inl, inr, ◌⊎◌, split, contains, to_set, arith,
}
use gardenlinux.Prelude.Result.{
  Result, ok, err, Error, value_error, system_exit, guard, >>=-ok, ok_injective,
}
use gardenlinux.Model.Targets.{BuildTarget, publish, target_eq, set_from_str}
use gardenlinux.Model.Features.{FeatureDescriptor, platform, of_type}
use gardenlinux.Model.Modifiers.{names, normalised_modifiers}
use gardenlinux.Model.Manifests.{
  ReleaseIdentifier, OnlineReleaseManifest, PublishedImage, with_published,
  normalised_release_identifier,
}
use gardenlinux.Store.{Store}
use gardenlinux.Releases.{find_release}
use gardenlinux.Promote.Single.{
  SingleStep, azure_metadata, prepared, tolerated, or_missing, single_release,
}

-- A prepared release is the release, or on Azure the release with metadata.
prepared-ok :
    (i : Result PublishedImage) (m r : OnlineReleaseManifest)
    → prepared i m ≡ ok r
    → (((m.platform == "azure") ≡ false) × (m ≡ r))
      ⊎ ((image : PublishedImage) × (with_published image m ≡ r))
unfolding prepared
prepared-ok i m r h = elim (Bool-cases (m.platform == "azure")) [
  | inl azure ↦
      let (image, _, e) = >>=-ok i (λ x. ok (with_published x m)) (rw azure at h) in
      inr (image, ok_injective e)
  | inr other ↦ inl (other, ok_injective (rw other at h))
]

pub prepared-identifier :
    (i : Result PublishedImage) (m r : OnlineReleaseManifest)
    → prepared i m ≡ ok r
    → r.identifier ≡ m.identifier
prepared-identifier i m r h = elim (prepared-ok i m r h) [
  | inl (_, same) ↦ ap (λ (x : OnlineReleaseManifest). x.identifier) (sym same)
  | inr (_, same) ↦ ap (λ (x : OnlineReleaseManifest). x.identifier) (sym same)
]

pub prepared-azure :
    (i : Result PublishedImage) (m r : OnlineReleaseManifest)
    → prepared i m ≡ ok r
    → (r.platform == "azure") ≡ true
    → is_none r.published_image_metadata ≡ false
prepared-azure i m r h azure = elim (prepared-ok i m r h) [
  | inl (other, same) ↦ absurd (ground (arith, rw (sym same) at azure, other))
  | inr (_, same) ↦
      ap (λ (x : OnlineReleaseManifest). is_none x.published_image_metadata) (sym same)
]

pub some_injective : {x y : OnlineReleaseManifest} → some x ≡ some y → x ≡ y
some_injective e = cc

azure_only :
    (r m : OnlineReleaseManifest) (x : Error)
    → (if r.platform == "azure" then ok r else err x) ≡ ok m
    → ((r.platform == "azure") ≡ true) × (r ≡ m)
azure_only r m x e = elim (Bool-cases (r.platform == "azure")) [
  | inl azure ↦ (azure, ok_injective (rw azure at e))
  | inr other ↦ absurd (ground (arith, rw other at e))
]

pub tolerated-ok :
    (r : OnlineReleaseManifest) (x : Result OnlineReleaseManifest) (m : OnlineReleaseManifest)
    → tolerated r x ≡ ok m
    → (x ≡ ok m) ⊎ (((r.platform == "azure") ≡ true) × (r ≡ m))
unfolding tolerated
tolerated-ok r (ok k) m e = inl e
tolerated-ok r (err (system_exit n)) m e = absurd (ground arith)
tolerated-ok r (err x) m e = inr (azure_only r m x e)

guard-ok : (b : Bool) (e : Error) {u : Unit {0}} → guard b e ≡ ok u → b ≡ true
guard-ok true e h = refl
guard-ok false e h = cc

-- The identifier that is searched for.
abbrev pub searched : SingleStep → List String → ReleaseIdentifier
searched a modifiers = record {
  build_committish = a.committish;
  version = a.version;
  gardenlinux_epoch = a.gardenlinux_epoch;
  architecture = a.architecture;
  platform = a.platform_name;
  modifiers = modifiers;
}

module _ (S : Store) (features : List FeatureDescriptor) (depth : ℕ) where
  open S use {State}

  -- What is known if there is a release to publish.
  pub record Chosen (a : SingleStep) (s : State) (r : OnlineReleaseManifest) : Type 0 where
    pub targets : List BuildTarget
    pub modifiers : List String
    pub release : OnlineReleaseManifest
    pub asked : set_from_str a.build_targets ≡ ok targets
    pub publishes : contains targets publish ≡ true
    pub known : contains (to_set (names (of_type platform features))) a.platform_name ≡ true
    pub normal :
        normalised_modifiers features depth a.platform_name (split b',' a.modifiers) ≡ ok modifiers
    pub found : find_release S features depth s a.bucket (searched a modifiers) ≡ ok (some release)
    pub unpublished : is_none release.published_image_metadata ≡ true
    pub result : prepared (azure_metadata a) release ≡ ok r

  or_missing-ok :
      (o : Option OnlineReleaseManifest) (m : OnlineReleaseManifest)
      → or_missing o ≡ ok m
      → o ≡ some m
  unfolding or_missing
  or_missing-ok none m e = absurd (ground arith)
  or_missing-ok (some k) m e = ap some (ok_injective e)

  pub chosen :
      (a : SingleStep) (s : State) (r : OnlineReleaseManifest)
      → single_release S features depth a s ≡ ok r
      → Chosen a s r
  unfolding single_release
  chosen a s r e =
      let (targets, p, e₁) = >>=-ok (set_from_str a.build_targets) _ e in
      let (_, q, e₂) = >>=-ok (guard (contains targets publish) (system_exit 0)) _ e₁ in
      let (_, g, e₃) =
        >>=-ok
          (guard (contains (to_set (names (of_type platform features))) a.platform_name)
            value_error)
          _ e₂ in
      let (ms, n, e₄) =
        >>=-ok (normalised_modifiers features depth a.platform_name (split b',' a.modifiers)) _
          e₃ in
      let (o, f, e₅) = >>=-ok (find_release S features depth s a.bucket (searched a ms)) _ e₄ in
      let (m, h, e₆) = >>=-ok (or_missing o) _ e₅ in
      let (_, u, e₇) = >>=-ok (guard (is_none m.published_image_metadata) (system_exit 0)) _ e₆ in
      record {
        targets = targets;
        modifiers = ms;
        release = m;
        asked = p;
        publishes = guard-ok _ _ q;
        known = guard-ok _ _ g;
        normal = n;
        found = f ∙ ap ok (or_missing-ok o m h);
        unpublished = guard-ok _ _ u;
        result = e₇;
      }

  pub already :
      (a : SingleStep) (s t : State) (r m : OnlineReleaseManifest) (c : Chosen a s r)
      → find_release S features depth t a.bucket (searched a c.modifiers) ≡ ok (some m)
      → is_none m.published_image_metadata ≡ false
      → single_release S features depth a t ≡ err (system_exit 0)
  unfolding single_release or_missing
  already a s t r m c f h = rw (c.asked, c.publishes, c.known, c.normal, f, h) refl

  pub normal-platform :
      (i n : ReleaseIdentifier)
      → normalised_release_identifier features depth i ≡ ok n
      → n.platform ≡ i.platform
  unfolding normalised_release_identifier
  normal-platform i n e =
      let (ms, p, e₁) = >>=-ok (normalised_modifiers features depth i.platform i.modifiers) _ e in
      ap (λ (x : ReleaseIdentifier). x.platform) (sym (ok_injective e₁))
