-- ===== src/Releases/Sets.antt =====
-- Reading manifest sets after an upload.
use gardenlinux.Prelude.{
  ◌≡◌, String, true, ◌&&◌, some, ◌==◌, if◌then◌else◌, string_eq, Bool-cases, inl, inr,
}
use gardenlinux.Prelude.Result.{ok}
use gardenlinux.Store.{Store, IsLawful, ParsedManifestSet}
use gardenlinux.Releases.{
  absent, parsed_manifest_set, online_manifest_set, release_manifest_set,
  upload_release_manifest_set,
}

-- Under its key an uploaded manifest set is read back, and under any other what was there before.
pub release_manifest_set-upload :
    (S : Store) (s : S.State) (bucket key b k : String) (m : ParsedManifestSet)
    → IsLawful S
    → release_manifest_set S (upload_release_manifest_set S s bucket key m) b k true ≡ (
        if b == bucket && k == key
        then ok (some (online_manifest_set b k m))
        else release_manifest_set S s b k true)
unfolding release_manifest_set upload_release_manifest_set
release_manifest_set-upload S s bucket key b k m L = elim (Bool-cases (b == bucket && k == key)) [
  | inl same ↦ rw (L.download-upload, same, absent, parsed_manifest_set, L.parse-dump_set)
  | inr other ↦ rw (L.download-upload, other)
]
