-- ===== src/Releases/Read.antt =====
-- What `release_manifest` reads: where it lay, and what a missing object comes to.
use gardenlinux.Prelude.{
  ◌≡◌, sym, ap, String, Bool, true, false, Option, none, some, string_eq, arith,
}
use gardenlinux.Prelude.Result.{
  Result, ok, err, value_error, runtime_error, type_error, key_error, index_error, recursion_error,
  not_implemented_error, attribute_error, exception, system_exit, client_error, >>=-ok,
}
use gardenlinux.Model.Manifests.{OnlineReleaseManifest}
use gardenlinux.Store.{Store}
use gardenlinux.Releases.{online_manifest, absent, parsed_manifest, release_manifest}

absent_strict {ℓ} :
    {A : Type ℓ} (r : Result A) (o : Option A) → absent false r ≡ ok o → absent true r ≡ ok o
unfolding absent
absent_strict (ok a) o h = h
absent_strict (err value_error) o h = absurd (ground arith)
absent_strict (err runtime_error) o h = absurd (ground arith)
absent_strict (err type_error) o h = absurd (ground arith)
absent_strict (err key_error) o h = absurd (ground arith)
absent_strict (err index_error) o h = absurd (ground arith)
absent_strict (err recursion_error) o h = absurd (ground arith)
absent_strict (err not_implemented_error) o h = absurd (ground arith)
absent_strict (err attribute_error) o h = absurd (ground arith)
absent_strict (err exception) o h = absurd (ground arith)
absent_strict (err (system_exit n)) o h = absurd (ground arith)
absent_strict (err (client_error c)) o h = absurd (ground arith)

module _ (S : Store) where
  open S use {State}

  -- What is read where an object must be there is read where it may be missing.
  pub release_manifest_strict :
      (s : State) (bucket key : String) (o : Option OnlineReleaseManifest)
      → release_manifest S s bucket key false ≡ ok o
      → release_manifest S s bucket key true ≡ ok o
  unfolding release_manifest
  release_manifest_strict s bucket key o h =
      let (buf, found, parsed) = >>=-ok (absent false (S.download s bucket key)) _ h in
      rw (absent_strict (S.download s bucket key) buf found) parsed

  parsed_manifest-place :
      (bucket key : String) (d : Option S.Document) (m : OnlineReleaseManifest)
      → parsed_manifest S bucket key d ≡ ok (some m)
      → (m.s3_bucket ≡ bucket) × (m.s3_key ≡ key)
  unfolding parsed_manifest online_manifest
  parsed_manifest-place bucket key none m h = absurd (ground arith)
  parsed_manifest-place bucket key (some d) m h =
      let (p, _, e) = >>=-ok (S.parse_manifest d) _ h in
      let same : online_manifest bucket key p ≡ m = ground (arith, e) in
      (
        ap (λ (x : OnlineReleaseManifest). x.s3_bucket) (sym same),
        ap (λ (x : OnlineReleaseManifest). x.s3_key) (sym same),
      )

  -- A manifest that was read names the bucket and the key that it was read from.
  pub release_manifest-place :
      (s : State) (bucket key : String) (absent_ok : Bool) (m : OnlineReleaseManifest)
      → release_manifest S s bucket key absent_ok ≡ ok (some m)
      → (m.s3_bucket ≡ bucket) × (m.s3_key ≡ key)
  unfolding release_manifest
  release_manifest-place s bucket key absent_ok m h =
      let (d, _, e) = >>=-ok (absent absent_ok (S.download s bucket key)) _ h in
      parsed_manifest-place bucket key d m e
