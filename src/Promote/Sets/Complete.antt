-- ===== src/Promote/Sets/Complete.antt =====
-- What `promote_step` publishes.
use gardenlinux.Prelude.{
  ℕ, ◌≡◌, refl, ap, subst, ◌∙◌, String, Bool, true, false, ◌&&◌, none, some, List, length, In,
  NoDup, ◌==◌, if◌then◌else◌, string_eq, beq_refl, nat_beq, nat_beq_iff, contains,
}
use gardenlinux.Prelude.Result.{ok, system_exit, guard, >>=-ok, ok_injective}
use gardenlinux.Model.Targets.{BuildTarget, manifest, target_eq, set_from_str}
use gardenlinux.Model.Features.{FeatureDescriptor}
use gardenlinux.Model.Flavours.{Flavour, flavour_eq, flavours}
use gardenlinux.Model.Manifests.{OnlineReleaseManifest, OnlineReleaseManifestSet}
use gardenlinux.Store.{Store, IsLawful, ParsedManifestSet}
use gardenlinux.Releases.{
  online_manifest_set, release_manifest_set, upload_release_manifest_set, identifier_of,
  find_releases,
}
use gardenlinux.Releases.Complete.{IsReleased, find_releases_sound, find_releases_complete}
use gardenlinux.Releases.Sets.{release_manifest_set-upload}
use gardenlinux.Promote.Sets.{SetStep, set_path, promote_step}

pub guarded : (b : Bool) (n : ℕ) {u : Unit {0}} → guard b (system_exit n) ≡ ok u → b ≡ true
guarded true n e = refl
guarded false n e = cc

-- The set that `promote_step` uploads.
abbrev written : SetStep → List OnlineReleaseManifest → ParsedManifestSet
written a ms = record { manifests = ms; flavour_set_name = a.flavour_set.name; logs = none }

pub read_back :
    (S : Store) (s : S.State) (bucket key : String) (m : ParsedManifestSet)
    → IsLawful S
    → release_manifest_set S (upload_release_manifest_set S s bucket key m) bucket key true
      ≡ ok (some (online_manifest_set bucket key m))
read_back S s bucket key m L =
    release_manifest_set-upload S s bucket key bucket key m L
    ∙ ap
        (λ b.
          if b && key == key
          then ok (some (online_manifest_set bucket key m))
          else release_manifest_set S s bucket key true)
        (beq_refl bucket)
    ∙ ap
        (λ b.
          if b
          then ok (some (online_manifest_set bucket key m))
          else release_manifest_set S s bucket key true)
        (beq_refl key)

module _ (S : Store) (features : List FeatureDescriptor) (depth : ℕ) where
  open S use {State}

  -- The manifest set is the complete release of the flavours: the release of every flavour, nothing
  -- else, and one for each.
  pub record IsComplete (a : SetStep) (s : State) (fs : List Flavour)
      (ms : List OnlineReleaseManifest) : Type 0 where
    pub distinct : NoDup fs
    pub as_many : length ms ≡ length fs
    pub each_released :
        (f : Flavour)
        → In f fs
        → (r : OnlineReleaseManifest) × In r ms
          × IsReleased S features depth s a.bucket
              (identifier_of a.committish a.version a.gardenlinux_epoch)
              f
              r
    pub only_releases :
        (r : OnlineReleaseManifest)
        → In r ms
        → (f : Flavour) × In f fs
          × IsReleased S features depth s a.bucket
              (identifier_of a.committish a.version a.gardenlinux_epoch)
              f
              r

  -- A set step that succeeds on a lawful store was asked for a manifest. The set that it leaves in
  -- the store, under the key that it writes to the result file, names the flavour set and holds
  -- the release of every flavour of the set, only such releases, and as many as there are
  -- flavours, which all differ.
  pub promote_step-IsComplete :
      (a : SetStep) (s t : State) (key : String)
      → IsLawful S
      → promote_step S features depth a s ≡ ok (t, key)
      → (targets : List BuildTarget) × (fs : List Flavour) × (m : OnlineReleaseManifestSet)
        × (set_from_str a.build_targets ≡ ok targets)
        × (contains targets manifest ≡ true)
        × (flavours features depth a.flavour_set ≡ ok fs)
        × (release_manifest_set S t a.bucket key true ≡ ok (some m))
        × (m.flavour_set_name ≡ a.flavour_set.name)
        × IsComplete a s fs m.manifests
  unfolding promote_step online_manifest_set
  promote_step-IsComplete a s t key L e =
      let (fs, p, e₁) = >>=-ok (flavours features depth a.flavour_set) _ e in
      let (targets, q, e₂) = >>=-ok (set_from_str a.build_targets) _ e₁ in
      let (_, g, e₃) = >>=-ok (guard (contains targets manifest) (system_exit 0)) _ e₂ in
      let (ms, r, e₄) =
        >>=-ok
          (find_releases S features depth s a.bucket a.flavour_set a.committish a.version
            a.gardenlinux_epoch)
          _ e₃ in
      let (_, h, e₅) = >>=-ok (guard (nat_beq (length ms) (length fs)) (system_exit 1)) _ e₄ in
      let same = (nat_beq_iff (length ms) (length fs)).0 (guarded _ 1 h) in
      let at_end : (
        upload_release_manifest_set S s a.bucket (set_path a) (written a ms),
        set_path a,
      )
          ≡ (t, key) =
        ok_injective e₅ in
      let (sound, bounded) =
        find_releases_sound S features depth s a.bucket a.flavour_set a.committish a.version
          a.gardenlinux_epoch fs ms p r in
      let (distinct, complete) =
        find_releases_complete S features depth s a.bucket a.flavour_set a.committish a.version
          a.gardenlinux_epoch fs ms p r same in
      (
        targets,
        fs,
        online_manifest_set a.bucket key (written a ms),
        q,
        guarded _ 0 g,
        p,
        subst
            (λ x.
              release_manifest_set S x.0 a.bucket x.1 true
              ≡ ok (some (online_manifest_set a.bucket x.1 (written a ms))))
            at_end (read_back S s a.bucket (set_path a) (written a ms) L),
        refl,
        record {
          distinct = distinct;
          as_many = same;
          each_released = complete;
          only_releases = sound;
        },
      )
