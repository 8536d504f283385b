-- ===== src/Promote/Command/Published.antt =====
-- What `promote` and `main` publish and store.
use gardenlinux.Prelude.{
  is_none, ℕ, ◌≡◌, ◌≢◌, refl, ap, sym, subst, ◌∙◌, inl, inr, String, true, false, ◌||◌, none, some,
  List, [], ◌∷◌, length, is_nil, contains, to_set, nat_beq, nat_beq_iff, Bool-cases, All, In, here,
  there, arith,
}
use gardenlinux.Prelude.Result.{
  Result, ok, err, system_exit, guard, map_result, map_result-cons, >>=-ok, ok_injective,
}
use gardenlinux.Model.Targets.{BuildTarget, build, manifest, target_eq}
use gardenlinux.Model.Features.{FeatureDescriptor}
use gardenlinux.Model.Flavours.{Flavour, flavour_eq, flavours}
use gardenlinux.Model.Manifests.{ReleaseIdentifier, OnlineReleaseManifest, OnlineReleaseManifestSet}
use gardenlinux.Store.{Store, IsLawful, ParsedManifestSet}
use gardenlinux.Releases.{
  online_manifest_set, release_manifest_set, find_release, find_releases, identifier_of,
}
use gardenlinux.Releases.Find.{find_release_iff}
use gardenlinux.Releases.Complete.{IsReleased, find_releases_sound}
use gardenlinux.Promote.Image.{provider_of, Publisher, publish_image}
use gardenlinux.Promote.Image.Published.{IsFaithful, publish_image-ok}
use gardenlinux.Promote.Single.Chosen.{normal-platform}
use gardenlinux.Promote.Sets.Complete.{read_back, guarded}
use gardenlinux.Promote.Command.{
  Promotion, manifest_path, Parsed, version_of, promotion_of, publish_all, all_results, with_set,
  promoted, promote, with_targets, releases_of, promoting, main,
}

-- The second list is the first one, published.
pub data ArePublished : List OnlineReleaseManifest → List OnlineReleaseManifest → Type 0 where
  nothing : ArePublished [] []
  one_more :
      {ms ms' : List OnlineReleaseManifest} (m m' : OnlineReleaseManifest)
      → m'.identifier ≡ m.identifier
      → is_none m'.published_image_metadata ≡ false
      → ArePublished ms ms'
      → ArePublished (m ∷ ms) (m' ∷ ms')

-- The platforms of the releases have publishing functions.
abbrev pub AreKnown : List OnlineReleaseManifest → Type 0
AreKnown = All (λ (m : OnlineReleaseManifest). provider_of m.platform ≢ none)

module _ (P : Publisher) (S : Store) (features : List FeatureDescriptor) (depth : ℕ)
    (gallery : OnlineReleaseManifest → P.World → Result OnlineReleaseManifest × P.World) where
  open S use {State}

  -- Without leave for a partial release, and where the search finds another number of releases
  -- than the set has flavours, the command exits with code 1 before anything is published or
  -- stored.
  pub main_partial :
      (a : Parsed) (s : State) (w : P.World) (fs : List Flavour) (ms : List OnlineReleaseManifest)
      → flavours features depth a.flavour_set ≡ ok fs
      → find_releases S features depth s a.bucket a.flavour_set a.committish
          (version_of a)
          a.gardenlinux_epoch
        ≡ ok ms
      → length ms ≢ length (to_set fs)
      → a.allow_partial ≡ false
      → main P S features depth gallery a s w ≡ (err (system_exit 1), w)
  unfolding main releases_of promoting
  main_partial a s w fs ms e r short strict =
      let missing : nat_beq (length ms) (length (to_set fs)) ≡ false =
        ground (arith, nat_beq_iff (length ms) (length (to_set fs))) in
      rw (e, r, missing, strict) refl

module _ (P : Publisher) (F : IsFaithful P) where
  publish_all-ArePublished :
      (ms : List OnlineReleaseManifest) (w : P.World) (ms' : List OnlineReleaseManifest)
      → AreKnown ms
      → all_results P (publish_all P ms w).0 ≡ ok ms'
      → ArePublished ms ms'
  unfolding publish_all all_results map_result
  publish_all-ArePublished [] w ms' k e = subst (ArePublished []) (ok_injective e) nothing
  publish_all-ArePublished (m ∷ ms) w ms' (known, k) e =
      let (m', rest, p, q, split) =
        map_result-cons (λ r. r) (publish_image P m w).0
          (publish_all P ms (publish_image P m w).1).0 ms' e in
      let (same, done) = publish_image-ok P F m w m' known p in
      subst (ArePublished (m ∷ ms)) (sym split)
        (one_more m m' same done (publish_all-ArePublished ms (publish_image P m w).1 rest k q))

  module _ (S : Store) where
    open S use {State}

    -- On a lawful store, with the targets build and manifest, publishing functions that keep to
    -- their contract and releases whose platforms have one, a promotion that returns has stored,
    -- under its path, a manifest set with the given name that holds the given releases, in their
    -- order and published.
    pub promote-ArePublished :
        (a : Promotion) (targets : List BuildTarget) (ms : List OnlineReleaseManifest) (s t : State)
        (w : P.World)
        → IsLawful S
        → contains targets build ≡ true
        → contains targets manifest ≡ true
        → AreKnown ms
        → (promote P S a targets ms s w).0 ≡ ok t
        → (m : OnlineReleaseManifestSet) × (release_manifest_set S t a.bucket (manifest_path a) true
            ≡ ok (some m))
          × (m.flavour_set_name ≡ a.flavour_set_name)
          × ArePublished ms m.manifests
    unfolding promote promoted with_set online_manifest_set
    promote-ArePublished a targets ms s t w L builds lists known e = elim (Bool-cases (is_nil ms)) [
      | inl empty ↦ absurd (ground (arith, rw (builds, empty) at e))
      | inr some_release ↦
          let (ms', p, e₁) =
            >>=-ok (all_results P (publish_all P ms w).0) _ (rw (builds, some_release) at e) in
          let stored = ok_injective (rw lists at e₁) in
          let m : ParsedManifestSet = record {
            manifests = ms';
            flavour_set_name = a.flavour_set_name;
            logs = none;
          } in
          (
            online_manifest_set a.bucket (manifest_path a) m,
            subst
                (λ x.
                  release_manifest_set S x a.bucket (manifest_path a) true
                  ≡ ok (some (online_manifest_set a.bucket (manifest_path a) m)))
                stored (read_back S s a.bucket (manifest_path a) m L),
            refl,
            publish_all-ArePublished ms w ms' known p,
          )
    ]

    module _ (features : List FeatureDescriptor) (depth : ℕ) where
      find_release-platform :
          (s : State) (bucket : String) (i : ReleaseIdentifier) (m : OnlineReleaseManifest)
          → find_release S features depth s bucket i ≡ ok (some m)
          → m.platform ≡ i.platform
      find_release-platform s bucket i m e =
          let r = (find_release_iff S features depth s bucket i m).0 e in
          sym (normal-platform S features depth m.identifier r.normal r.holds)
          ∙ normal-platform S features depth i r.normal r.searched

      AreKnown-In :
          (ms : List OnlineReleaseManifest)
          → ((m : OnlineReleaseManifest) → In m ms → provider_of m.platform ≢ none)
          → AreKnown ms
      AreKnown-In [] h = tt
      AreKnown-In (m ∷ ms) h = (h m here, AreKnown-In ms (λ n i. h n (there i)))

      module _
          (gallery : OnlineReleaseManifest → P.World → Result OnlineReleaseManifest × P.World) where
        promoting-ok :
            (a : Parsed) (x : Result (List OnlineReleaseManifest)) (s t : State) (w : P.World)
            (targets : List BuildTarget)
            → a.azure_sig ≡ false
            → a.build_targets ≡ some targets
            → (promoting P S features depth gallery a x s w).0 ≡ ok t
            → (ms : List OnlineReleaseManifest) × (x ≡ ok ms)
              × ((promote P S (promotion_of a) targets ms s w).0 ≡ ok t)
        unfolding promoting with_targets
        promoting-ok a (err e) s t w targets images asked h = absurd (ground arith)
        promoting-ok a (ok ms) s t w targets images asked h = (ms, refl, rw (images, asked) at h)

        releases_of-ok :
            (a : Parsed) (s : State) (fs : List Flavour) (ms : List OnlineReleaseManifest)
            → flavours features depth a.flavour_set ≡ ok fs
            → a.allow_partial ≡ false
            → releases_of P S features depth a s ≡ ok ms
            → (find_releases S features depth s a.bucket a.flavour_set a.committish
                  (version_of a)
                  a.gardenlinux_epoch
                ≡ ok ms)
              × (length ms ≡ length (to_set fs))
        unfolding releases_of
        releases_of-ok a s fs ms declared strict e =
            let (ms', r, e₁) =
              >>=-ok
                (find_releases S features depth s a.bucket a.flavour_set a.committish (version_of a)
                  a.gardenlinux_epoch)
                _ (rw declared at e) in
            let (_, g, e₂) =
              >>=-ok
                (guard (nat_beq (length ms') (length (to_set fs)) || a.allow_partial)
                  (system_exit 1))
                _ e₁ in
            let same = ok_injective e₂ in
            let enough : nat_beq (length ms') (length (to_set fs)) ≡ true =
              ground (arith, guarded _ 1 g, strict) in
            (
              r ∙ ap ok same,
              ap length (sym same) ∙ (nat_beq_iff (length ms') (length (to_set fs))).0 enough,
            )

        -- On a lawful store, with the targets build and manifest, publishing functions that keep
        -- to their contract, a publishing function for the platform of each flavour, no leave for
        -- a partial release and not for the image gallery, a command that returns has found as
        -- many releases as the set has flavours, and has stored a manifest set of the name of the
        -- flavour set that holds them, in their order and published.
        pub main-ArePublished :
            (a : Parsed) (s t : State) (w : P.World) (fs : List Flavour)
            (targets : List BuildTarget)
            → IsLawful S
            → a.azure_sig ≡ false
            → a.allow_partial ≡ false
            → a.build_targets ≡ some targets
            → contains targets build ≡ true
            → contains targets manifest ≡ true
            → flavours features depth a.flavour_set ≡ ok fs
            → ((f : Flavour) → In f fs → provider_of f.platform ≢ none)
            → (main P S features depth gallery a s w).0 ≡ ok t
            → (ms : List OnlineReleaseManifest) × (m : OnlineReleaseManifestSet) × (find_releases S
                  features depth s a.bucket a.flavour_set a.committish
                  (version_of a)
                  a.gardenlinux_epoch
                ≡ ok ms)
              × (length ms ≡ length (to_set fs))
              × (release_manifest_set S t a.bucket (manifest_path (promotion_of a)) true
                  ≡ ok (some m))
              × (m.flavour_set_name ≡ a.flavour_set.name)
              × ArePublished ms m.manifests
        unfolding main promotion_of IsReleased
        main-ArePublished a s t w fs targets L images strict asked builds lists declared known e =
            let (ms, chosen, g) =
              promoting-ok a (releases_of P S features depth a s) s t w targets images asked e in
            let (r, n) = releases_of-ok a s fs ms declared strict chosen in
            let (sound, bounded) =
              find_releases_sound S features depth s a.bucket a.flavour_set a.committish
                (version_of a) a.gardenlinux_epoch fs ms declared r in
            let platforms = AreKnown-In ms (λ m i.
              let (f, k, q) = sound m i in
              subst (λ p. provider_of p ≢ none)
                (sym (
                  find_release-platform s a.bucket
                    (identifier_of a.committish (version_of a) a.gardenlinux_epoch f) m q))
                (known f k)) in
            let (m, stored, named, published) =
              promote-ArePublished (promotion_of a) targets ms s t w L builds lists platforms g in
            (ms, m, r, n, stored, named, published)
