-- ===== src/Attach/Singles.antt =====
-- What the manifests of the store say after the log was attached.
use gardenlinux.Prelude.{
  ℕ, ◌≡◌, refl, sym, ap, subst, ◌∙◌, String, ◌<>◌, Bool, true, false, ◌||◌, Option, none, some,
  List, [], ◌∷◌, ◌==◌, string_eq, contains, beq_refl, eq_of_beq, Bool-cases, inl, inr, arith,
}
use gardenlinux.Prelude.Result.{Result, ok, ok_injective}
use gardenlinux.Prelude.Dicts.{Dict}
use gardenlinux.Prelude.Action.{>>=-returned, lift-returned}
use gardenlinux.Model.Features.{FeatureDescriptor}
use gardenlinux.Model.Manifests.{
  ReleaseFile, OnlineReleaseManifest, with_logfile, manifest_key_prefix,
  canonical_release_manifest_key_suffix, canonical_release_manifest_key,
}
use gardenlinux.Store.{Store, IsLawful}
use gardenlinux.Releases.{
  online, attributes, online_manifest, release_manifest, upload_release_manifest,
}
use gardenlinux.Releases.Read.{release_manifest_strict, release_manifest-place}
use gardenlinux.Releases.Find.{release_manifest-upload}
use gardenlinux.Promote.Single.Again.{IsKeyed}
use gardenlinux.Attach.{
  log_file, built, manifest_of, attach_log, attach_built, attach_logs_to_single_manifest,
}
use gardenlinux.Attach.Logged.{
  built_keys, logged, logged-false, logged-identifier, logged-logged, with_key,
}

module _ (S : Store) (features : List FeatureDescriptor) (depth : ℕ) (L : IsLawful S)
    (bucket s3_log_key : String) where
  open S use {State}

  abbrev log : ReleaseFile
  log = log_file bucket s3_log_key

  abbrev held : State → String → Result (Option OnlineReleaseManifest)
  held s k = release_manifest S s bucket k true

  abbrev Keyed : State → Type 0
  Keyed s = IsKeyed S features depth s bucket

  -- What is written back under the key that it was read from, is read again with the log.
  reread :
      (s : State) (key : String) (m : OnlineReleaseManifest)
      → held s key ≡ ok (some m)
      → online_manifest bucket key (attributes (online (with_logfile log m))) ≡ with_logfile log m
  unfolding online_manifest attributes with_logfile
  reread s key m h =
      let (in_bucket, at_key) = release_manifest-place S s bucket key true m h in
      rw (sym in_bucket, sym at_key) refl

  -- What attaching a log comes to when it returns.
  record Attached (key : String) (s t : State) : Type 0 where
    m : OnlineReleaseManifest
    suffix : String
    found : release_manifest S s bucket key false ≡ ok (some m)
    has_suffix : canonical_release_manifest_key_suffix features depth m.identifier ≡ ok suffix
    uploaded :
        upload_release_manifest S s bucket
          (manifest_key_prefix <> ("/" <> suffix))
          (online (with_logfile log m))
        ≡ t

  manifest_of-some :
      (o : Option OnlineReleaseManifest) (m : OnlineReleaseManifest)
      → manifest_of o ≡ ok m
      → o ≡ some m
  unfolding manifest_of
  manifest_of-some none m h = absurd (ground arith)
  manifest_of-some (some k) m h = ap some (ok_injective h)

  attached :
      (key : String) (s t : State) (a : Unit {0})
      → attach_log S features depth bucket s3_log_key key s ≡ (ok a, t)
      → Attached key s t
  unfolding attach_log
  attached key s t a h =
      let (found, s₁, read, h₁) =
        >>=-returned (λ s. (release_manifest S s bucket key false, s)) _ s h in
      let same : s ≡ s₁ = ap (λ p. p.1) read in
      let (m, is, h₂) = lift-returned (manifest_of found) _ s₁ h₁ in
      let (suffix, has, h₃) =
        lift-returned (canonical_release_manifest_key_suffix features depth m.identifier) _ s₁ h₂ in
      record {
        m = m;
        suffix = suffix;
        found = ap (λ p. p.0) read ∙ ap ok (manifest_of-some found m is);
        has_suffix = has;
        uploaded =
            ap
              (λ u.
                upload_release_manifest S u bucket (manifest_key_prefix <> ("/" <> suffix))
                  (online (with_logfile log m)))
              same
            ∙ ap (λ p. p.1) h₃;
      }

  -- The manifest under a key of what was built gets the log, and no other changes.
  attach_log-logged :
      (key : String) (s t : State) (a : Unit {0})
      → Keyed s
      → attach_log S features depth bucket s3_log_key key s ≡ (ok a, t)
      → (k : String) → held t k ≡ logged log (key == k) (held s k)
  unfolding IsKeyed canonical_release_manifest_key logged
  attach_log-logged key s t a keyed h k =
      let d = attached key s t a h in
      let here = release_manifest_strict S s bucket key (some d.m) d.found in
      let own = keyed key d.m here in
      let its_key : ok (manifest_key_prefix <> ("/" <> d.suffix)) ≡ ok key =
        rw d.has_suffix at own in
      let either : (key == k) ≡ (k == key) =
        ground (arith, string_eq.equals_iff key k, string_eq.equals_iff k key) in
      let upload =
        release_manifest-upload S features depth s bucket key bucket k
          (online (with_logfile log d.m)) L in
      let there : upload_release_manifest S s bucket key (online (with_logfile log d.m)) ≡ t =
        subst (λ p. upload_release_manifest S s bucket p (online (with_logfile log d.m)) ≡ t)
          (ok_injective its_key) d.uploaded in
      elim (Bool-cases (k == key)) [
        | inl same ↦
            let k≡key : k ≡ key = eq_of_beq k key same in
            let at_k : held s k ≡ ok (some d.m) = ap (held s) k≡key ∙ here in
            let again = reread s k d.m at_k in
            rw (either, sym there, upload, beq_refl bucket, same, at_k, again) refl
        | inr other ↦
            rw (either, sym there, upload, beq_refl bucket, other)
              (sym (logged-false log (held s k)))
      ]

  -- The store stays as it was but for the logs.
  logged-IsKeyed :
      (s t : State) (b : String → Bool)
      → Keyed s
      → ((k : String) → held t k ≡ logged log (b k) (held s k))
      → Keyed t
  unfolding IsKeyed
  logged-IsKeyed s t b keyed h k m there =
      let (m₀, before, same) = logged-identifier log (b k) (held s k) m (sym (h k) ∙ there) in
      ap (canonical_release_manifest_key features depth) (sym same) ∙ keyed k m₀ before

  attach_built-logged :
      (key : Option String) (s t : State) (a : Unit {0})
      → Keyed s
      → attach_built S features depth bucket s3_log_key key s ≡ (ok a, t)
      → (k : String) → held t k ≡ logged log (contains (with_key key []) k) (held s k)
  unfolding attach_built contains
  attach_built-logged none s t a keyed h k =
      ap (λ u. held u k) (sym (ap (λ p. p.1) h)) ∙ sym (logged-false log (held s k))
  attach_built-logged (some key) s t a keyed h k =
      let alone : (key == k) ≡ (key == k || false) = ground arith in
      attach_log-logged key s t a keyed h k ∙ ap (λ c. logged log c (held s k)) alone

  contains-with_key :
      (key : Option String) (ks : List String) (k : String)
      → contains (with_key key ks) k ≡ (contains (with_key key []) k || contains ks k)
  unfolding contains
  contains-with_key none ks k = refl
  contains-with_key (some key) ks k = ground arith

  -- Where each manifest of the bucket lies under its own key, and the log is attached to the
  -- manifests of what was built, then what is read under any key afterwards is what was read
  -- before, with the log if the key is one of what was built; and each manifest still lies under
  -- its own key.
  pub attach_logs_to_single_manifest-logged :
      (build_dict : Dict (Option String)) (s t : State) (a : Unit {0})
      → Keyed s
      → attach_logs_to_single_manifest S features depth build_dict bucket s3_log_key s ≡ (ok a, t)
      → ((k : String) → held t k ≡ logged log (contains (built_keys build_dict) k) (held s k))
        × Keyed t
  unfolding attach_logs_to_single_manifest built_keys contains attach_built
  attach_logs_to_single_manifest-logged [] s t a keyed h =
      let same : s ≡ t = ap (λ p. p.1) h in
      (
        λ k. ap (λ u. held u k) (sym same) ∙ sym (logged-false log (held s k)),
        subst Keyed same keyed,
      )
  attach_logs_to_single_manifest-logged ((task, key) ∷ build_dict) s t a keyed h =
      let (b, u, first, later) =
        >>=-returned (attach_built S features depth bucket s3_log_key (built key)) (λ _. _) s h in
      let one = attach_built-logged (built key) s u b keyed first in
      let (rest, keyed') =
        attach_logs_to_single_manifest-logged build_dict u t a
          (logged-IsKeyed s u (contains (with_key (built key) [])) keyed one) later in
      (
        λ k.
            rest k
            ∙ ap (logged log (contains (built_keys build_dict) k)) (one k)
            ∙ logged-logged log (contains (with_key (built key) []) k)
                (contains (built_keys build_dict) k) (held s k)
            ∙ ap (λ c. logged log c (held s k))
                (sym (contains-with_key (built key) (built_keys build_dict) k)),
        keyed',
      )
