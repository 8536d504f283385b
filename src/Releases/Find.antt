-- ===== src/Releases/Find.antt =====
-- What `find_release` returns, also after an upload.
use gardenlinux.Prelude.{
  ℕ, ◌≡◌, sym, ap, ◌∙◌, ◌↔◌, inl, inr, String, true, ◌&&◌, Option, none, some, List, ◌==◌,
  if◌then◌else◌, string_eq, Bool-cases, beq_refl, eq_of_beq, arith,
}
use gardenlinux.Prelude.Result.{ok, >>=-ok}
use gardenlinux.Model.Features.{FeatureDescriptor}
use gardenlinux.Model.Flavours.{flavour_eq}
use gardenlinux.Model.Manifests.{
  ReleaseIdentifier, identifier_eq, OnlineReleaseManifest, normalised_release_identifier,
  canonical_release_manifest_key,
}
use gardenlinux.Store.{Store, IsLawful}
use gardenlinux.Releases.{
  Uploadable, attributes, online_manifest, absent, parsed_manifest, release_manifest,
  upload_release_manifest, confirm, find_release,
}

module _ (S : Store) (features : List FeatureDescriptor) (depth : ℕ) where
  open S use {State}

  -- `m` is what the store holds under the canonical key of the identifier, and the identifier that
  -- it holds normalises to the same.
  pub record IsRelease (s : State) (bucket : String) (i : ReleaseIdentifier)
      (m : OnlineReleaseManifest) : Type 0 where
    pub key : String
    pub normal : ReleaseIdentifier
    pub has_key : canonical_release_manifest_key features depth i ≡ ok key
    pub stored : release_manifest S s bucket key true ≡ ok (some m)
    pub searched : normalised_release_identifier features depth i ≡ ok normal
    pub holds : normalised_release_identifier features depth m.identifier ≡ ok normal

  confirm-some :
      (i : ReleaseIdentifier) (o : Option OnlineReleaseManifest) (m : OnlineReleaseManifest)
      → confirm S features depth i o ≡ ok (some m)
      → (o ≡ some m)
        × (n : ReleaseIdentifier) × (normalised_release_identifier features depth i ≡ ok n)
        × (normalised_release_identifier features depth m.identifier ≡ ok n)
  unfolding confirm
  confirm-some i none m e = absurd (ground arith)
  confirm-some i (some k) m e =
      let (f, p, e₁) = >>=-ok (normalised_release_identifier features depth k.identifier) _ e in
      let (n, q, e₂) = >>=-ok (normalised_release_identifier features depth i) _ e₁ in
      elim (Bool-cases (f == n)) [
        | inl same ↦
            let k≡m : k ≡ m = ground (arith, e₂, same) in
            (
              ap some k≡m,
              n,
              q,
              ap
                    (λ (x : OnlineReleaseManifest).
                      normalised_release_identifier features depth x.identifier)
                    (sym k≡m)
                  ∙ (p ∙ ap ok (eq_of_beq f n same)),
            )
        | inr other ↦ absurd (ground (arith, e₂, other))
      ]

  -- A manifest is returned exactly if the store holds it under the canonical key of the identifier
  -- and its own identifier normalises to the same as the one that is searched for.
  pub find_release_iff :
      (s : State) (bucket : String) (i : ReleaseIdentifier) (m : OnlineReleaseManifest)
      → (find_release S features depth s bucket i ≡ ok (some m)) ↔ IsRelease s bucket i m
  unfolding find_release
  find_release_iff s bucket i m = (
    λ e.
        let (key, p, e₁) = >>=-ok (canonical_release_manifest_key features depth i) _ e in
        let (o, q, e₂) = >>=-ok (release_manifest S s bucket key true) _ e₁ in
        let (found, n, r, t) = confirm-some i o m e₂ in
        record {
          key = key;
          normal = n;
          has_key = p;
          stored = q ∙ ap ok found;
          searched = r;
          holds = t;
        },
    λ r. rw (r.has_key, r.stored, confirm, r.holds, r.searched, beq_refl r.normal),
  )

  -- Reading back: what was uploaded under its key, and what was there before under any other.
  pub release_manifest-upload :
      (s : State) (bucket key b k : String) (m : Uploadable)
      → IsLawful S
      → release_manifest S (upload_release_manifest S s bucket key m) b k true ≡ (
          if b == bucket && k == key
          then ok (some (online_manifest b k (attributes m)))
          else release_manifest S s b k true)
  unfolding release_manifest upload_release_manifest
  release_manifest-upload s bucket key b k m L = elim (Bool-cases (b == bucket && k == key)) [
    | inl same ↦ rw (L.download-upload, same, absent, parsed_manifest, L.parse-dump)
    | inr other ↦ rw (L.download-upload, other)
  ]

  -- In a lawful store a manifest that is uploaded under the canonical key of its identifier, which
  -- can be normalised, is found under its identifier, with the attributes that it was given.
  pub find_release-upload :
      (s : State) (bucket key : String) (m : Uploadable) (normal : ReleaseIdentifier)
      → IsLawful S
      → canonical_release_manifest_key features depth (attributes m).identifier ≡ ok key
      → normalised_release_identifier features depth (attributes m).identifier ≡ ok normal
      → find_release S features depth
          (upload_release_manifest S s bucket key m)
          bucket
          (attributes m).identifier
        ≡ ok (some (online_manifest bucket key (attributes m)))
  unfolding online_manifest
  find_release-upload s bucket key m normal L k n =
      (find_release_iff _ bucket (attributes m).identifier _).1 (record {
        key = key;
        normal = normal;
        has_key = k;
        stored =
            rw (release_manifest-upload s bucket key bucket key m L)
              (ground (arith, beq_refl bucket, beq_refl key));
        searched = n;
        holds = n;
      })
