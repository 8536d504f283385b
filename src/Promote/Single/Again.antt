-- ===== src/Promote/Single/Again.antt =====
-- A second run of `promote_single_step`.
use gardenlinux.Prelude.{
  is_none, ℕ, ◌≡◌, ◌≢◌, refl, sym, ap, subst, ◌∙◌, String, true, false, none, some, List, ◌==◌,
  string_eq, Bool-cases, inl, inr, beq_refl, eq_of_beq, arith,
}
use gardenlinux.Prelude.Result.{Result, ok, err, system_exit, >>=-ok, ok_injective}
use gardenlinux.Model.Targets.{target_eq}
use gardenlinux.Model.Features.{FeatureDescriptor}
use gardenlinux.Model.Manifests.{
  ReleaseIdentifier, OnlineReleaseManifest, normalised_release_identifier,
  canonical_release_manifest_key,
}
use gardenlinux.Store.{Store, IsLawful}
use gardenlinux.Releases.{
  online, attributes, online_manifest, release_manifest, upload_release_manifest, find_release,
}
use gardenlinux.Releases.Find.{find_release_iff, release_manifest-upload}
use gardenlinux.Promote.Image.{provider_of, Publisher, publish_image}
use gardenlinux.Promote.Image.Published.{IsFaithful, publish_image-ok}
use gardenlinux.Promote.Single.{
  SingleStep, azure_metadata, tolerated, single_release, stored, publishing, promote_single_step,
}
use gardenlinux.Promote.Single.Chosen.{
  prepared-identifier, prepared-azure, some_injective, tolerated-ok, searched, Chosen, chosen,
  already, normal-platform,
}

-- Every manifest of the bucket lies under its own key.
unfoldable pub IsKeyed :
    (S : Store) (features : List FeatureDescriptor) (depth : ℕ) → S.State → String → Type 0
IsKeyed S features depth s bucket =
    (k : String) (m : OnlineReleaseManifest)
    → release_manifest S s bucket k true ≡ ok (some m)
    → canonical_release_manifest_key features depth m.identifier ≡ ok k

module _ (S : Store) (features : List FeatureDescriptor) (depth : ℕ) where
  open S use {State}

  module _ (P : Publisher) where
    open P use {World}

    stored-ok :
        (bucket : String) (x : Result OnlineReleaseManifest) (w : World) (s t : State)
        → (stored S features depth P bucket (x, w) s).0 ≡ ok t
        → (m : OnlineReleaseManifest) × (key : String) × (x ≡ ok m)
          × (canonical_release_manifest_key features depth m.identifier ≡ ok key)
          × (upload_release_manifest S s bucket key (online m) ≡ t)
    unfolding stored
    stored-ok bucket (err e) w s t h = absurd (ground arith)
    stored-ok bucket (ok m) w s t h =
        let (key, k, h₁) =
          >>=-ok (canonical_release_manifest_key features depth m.identifier) _ h in
        (m, key, refl, k, ok_injective h₁)

    stopped :
        (a : SingleStep) (t : State) (w : World)
        → single_release S features depth a t ≡ err (system_exit 0)
        → promote_single_step S features depth P a t w ≡ (err (system_exit 0), w)
    unfolding promote_single_step publishing
    stopped a t w h = ap (λ x. publishing S features depth P a x t w) h

    -- What a step that returns has done: it has published a release, and stored it under its key.
    record Done (a : SingleStep) (s t : State) : Type 0 where
      r : OnlineReleaseManifest
      m : OnlineReleaseManifest
      key : String
      choice : Chosen S features depth a s r
      same : m.identifier ≡ r.identifier
      published : is_none m.published_image_metadata ≡ false
      has_key : canonical_release_manifest_key features depth m.identifier ≡ ok key
      uploaded : upload_release_manifest S s a.bucket key (online m) ≡ t

    publishing-ok :
        (a : SingleStep) (x : Result OnlineReleaseManifest) (s t : State) (w : World)
        → (publishing S features depth P a x s w).0 ≡ ok t
        → (r : OnlineReleaseManifest) × (x ≡ ok r)
          × ((stored S features depth P a.bucket
                (tolerated r (publish_image P r w).0, (publish_image P r w).1)
                s).0
              ≡ ok t)
    unfolding publishing
    publishing-ok a (err e) s t w h = absurd (ground arith)
    publishing-ok a (ok r) s t w h = (r, refl, h)

    Chosen-platform :
        (a : SingleStep) (s : State) (r : OnlineReleaseManifest)
        → Chosen S features depth a s r
        → r.platform ≡ a.platform_name
    Chosen-platform a s r c =
        let found =
          (find_release_iff S features depth s a.bucket (searched a c.modifiers) c.release).0
            c.found in
        ap (λ (x : ReleaseIdentifier). x.platform)
          (prepared-identifier (azure_metadata a) c.release r c.result)
        ∙ sym (normal-platform S features depth c.release.identifier found.normal found.holds)
        ∙ normal-platform S features depth (searched a c.modifiers) found.normal found.searched

    done :
        (a : SingleStep) (s t : State) (w : World)
        → IsFaithful P
        → provider_of a.platform_name ≢ none
        → (promote_single_step S features depth P a s w).0 ≡ ok t
        → Done a s t
    unfolding promote_single_step
    done a s t w F known e =
        let (r, single, h) = publishing-ok a (single_release S features depth a s) s t w e in
        let c = chosen S features depth a s r single in
        let (m, key, x, k, u) =
          stored-ok a.bucket (tolerated r (publish_image P r w).0) (publish_image P r w).1 s t h in
        let known' : provider_of r.platform ≢ none =
          subst (λ y. provider_of y ≢ none) (sym (Chosen-platform a s r c)) known in
        let (i, p) : (m.identifier ≡ r.identifier) × (is_none m.published_image_metadata ≡ false) =
          elim (tolerated-ok r (publish_image P r w).0 m x) [
            | inl given ↦ publish_image-ok P F r w m known' given
            | inr (azure, same) ↦ (
              ap (λ (x : OnlineReleaseManifest). x.identifier) (sym same),
              subst (λ (x : OnlineReleaseManifest). is_none x.published_image_metadata ≡ false) same
                  (prepared-azure (azure_metadata a) c.release r c.result azure),
            )
          ] in
        record {
          r = r;
          m = m;
          key = key;
          choice = c;
          same = i;
          published = p;
          has_key = k;
          uploaded = u;
        }

    -- The release that was published is found again, with its metadata.
    found_again :
        (a : SingleStep) (s t : State) (d : Done a s t)
        → IsLawful S
        → IsKeyed S features depth s a.bucket
        → find_release S features depth t a.bucket (searched a d.choice.modifiers)
          ≡ ok (some (online_manifest a.bucket d.key (attributes (online d.m))))
    unfolding IsKeyed online_manifest attributes
    found_again a s t d L keyed =
        let found =
          (find_release_iff S features depth s a.bucket (searched a d.choice.modifiers)
              d.choice.release).0
            d.choice.found in
        let same : d.m.identifier ≡ d.choice.release.identifier =
          d.same ∙ prepared-identifier (azure_metadata a) d.choice.release d.r d.choice.result in
        let key : ok found.key ≡ ok d.key =
          sym (keyed found.key d.choice.release found.stored)
          ∙ ap (canonical_release_manifest_key features depth) (sym same)
          ∙ d.has_key in
        (find_release_iff S features depth t a.bucket (searched a d.choice.modifiers) _).1 (record {
          key = d.key;
          normal = found.normal;
          has_key = found.has_key ∙ key;
          stored =
              subst
                (λ x.
                  release_manifest S x a.bucket d.key true
                  ≡ ok (some (online_manifest a.bucket d.key (attributes (online d.m)))))
                d.uploaded
                (rw
                  (release_manifest-upload S features depth s a.bucket d.key a.bucket d.key
                    (online d.m) L)
                  (ground (arith, beq_refl a.bucket, beq_refl d.key)));
          searched = found.searched;
          holds = ap (normalised_release_identifier features depth) same ∙ found.holds;
        })

    -- Where the store is lawful, publishing functions keep to their contract, the platform has one,
    -- and every manifest of the bucket lies under its own key, the step that is run again on the
    -- store that a step returned exits with code 0 and leaves the state of the publishing
    -- functions as it is.
    pub promote_single_step_again :
        (a : SingleStep) (s t : State) (w v : World)
        → IsLawful S
        → IsFaithful P
        → IsKeyed S features depth s a.bucket
        → provider_of a.platform_name ≢ none
        → (promote_single_step S features depth P a s w).0 ≡ ok t
        → promote_single_step S features depth P a t v ≡ (err (system_exit 0), v)
    unfolding online_manifest attributes
    promote_single_step_again a s t w v L F keyed known e =
        let d = done a s t w F known e in
        stopped a t v
          (already S features depth a s t d.r _ d.choice (found_again a s t d L keyed) d.published)

    -- Where the store is lawful and every manifest of the bucket lies under its own key, a step
    -- that returns a new store keeps that so, whatever the publishing functions do.
    pub promote_single_step-IsKeyed :
        (a : SingleStep) (s t : State) (w : World)
        → IsLawful S
        → IsKeyed S features depth s a.bucket
        → (promote_single_step S features depth P a s w).0 ≡ ok t
        → IsKeyed S features depth t a.bucket
    unfolding promote_single_step IsKeyed online_manifest attributes
    promote_single_step-IsKeyed a s t w L keyed e k m h =
        let (r, single, g) = publishing-ok a (single_release S features depth a s) s t w e in
        let (m', key, x, has_key, u) =
          stored-ok a.bucket (tolerated r (publish_image P r w).0) (publish_image P r w).1 s t g in
        let h' =
          sym (release_manifest-upload S features depth s a.bucket key a.bucket k (online m') L)
          ∙ subst (λ x. release_manifest S x a.bucket k true ≡ ok (some m)) (sym u) h in
        elim (Bool-cases (k == key)) [
          | inl same ↦
              let held = some_injective (ok_injective (rw (beq_refl a.bucket, same) at h')) in
              ap
                (λ (x : OnlineReleaseManifest).
                  canonical_release_manifest_key features depth x.identifier)
                (sym held)
              ∙ (has_key ∙ ap ok (sym (eq_of_beq k key same)))
          | inr other ↦ keyed k m (rw (beq_refl a.bucket, other) at h')
        ]
