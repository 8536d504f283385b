-- ===== src/Clean/Outdated.antt =====
-- What the two purges of manifests leave in the store.
use gardenlinux.Prelude.{
  ℕ, ◌≡◌, String, Bool, false, ◌&&◌, ◌||◌, not, List, [], ◌∷◌, ◌==◌, if◌then◌else◌, string_eq,
  arith,
}
use gardenlinux.Prelude.Result.{err, client_error}
use gardenlinux.Model.Manifests.{OnlineReleaseManifest, OnlineReleaseManifestSet}
use gardenlinux.Store.{Store, IsLawful}
use gardenlinux.Clean.{
  is_younger, is_older, purge_set, purge_single, clean_release_manifest_sets,
  clean_single_release_manifests,
}

-- The first manifest of the list is not younger than the age.
abbrev pub is_outdated : ℕ → ℕ → List OnlineReleaseManifest → Bool
is_outdated now max_age_days [] = false
is_outdated now max_age_days (m ∷ ms) = not (is_younger now max_age_days m.build_timestamp)

-- An outdated set of the list is stored there.
abbrev pub has_outdated_set : ℕ → ℕ → List OnlineReleaseManifestSet → String → String → Bool
has_outdated_set now max_age_days [] b k = false
has_outdated_set now max_age_days (m ∷ ms) b k =
    (is_outdated now max_age_days m.manifests && (b == m.s3_bucket && k == m.s3_key))
    || has_outdated_set now max_age_days ms b k

abbrev pub has_outdated_single : ℕ → ℕ → List OnlineReleaseManifest → String → String → Bool
has_outdated_single now max_age_days [] b k = false
has_outdated_single now max_age_days (m ∷ ms) b k =
    (is_older now max_age_days m.build_timestamp && (b == m.s3_bucket && k == m.s3_key))
    || has_outdated_single now max_age_days ms b k

module _ (S : Store) (now max_age_days : ℕ) where
  open S use {State}

  download-purge_set :
      (dry_run : Bool) (m : OnlineReleaseManifestSet) (s : State) (b k : String)
      → IsLawful S
      → S.download (purge_set S now max_age_days dry_run m s).1 b k ≡ (
          if not dry_run
            && (is_outdated now max_age_days m.manifests && (b == m.s3_bucket && k == m.s3_key))
          then err (client_error "404")
          else S.download s b k)
  unfolding purge_set
  download-purge_set dry_run m s b k L =
      ground (arith, L.download-delete s m.s3_bucket m.s3_key b k)

  download-purge_single :
      (dry_run : Bool) (m : OnlineReleaseManifest) (s : State) (b k : String)
      → IsLawful S
      → S.download (purge_single S now max_age_days dry_run m s).1 b k ≡ (
          if not dry_run
            && (is_older now max_age_days m.build_timestamp && (b == m.s3_bucket && k == m.s3_key))
          then err (client_error "404")
          else S.download s b k)
  unfolding purge_single
  download-purge_single dry_run m s b k L =
      ground (arith, L.download-delete s m.s3_bucket m.s3_key b k)

  -- After the clean-up of manifest sets in a lawful store an object is gone if it is an enumerated
  -- set whose first manifest is as old as the age or older and the run is no dry run; every other
  -- object, the sets with no manifest among them, is as before.
  pub clean_release_manifest_sets_download :
      (dry_run : Bool) (ms : List OnlineReleaseManifestSet) (s : State) (b k : String)
      → IsLawful S
      → S.download (clean_release_manifest_sets S now max_age_days dry_run ms s) b k ≡ (
          if not dry_run && has_outdated_set now max_age_days ms b k
          then err (client_error "404")
          else S.download s b k)
  unfolding clean_release_manifest_sets
  clean_release_manifest_sets_download dry_run [] s b k L = ground arith
  clean_release_manifest_sets_download dry_run (m ∷ ms) s b k L = ground (
    arith,
    clean_release_manifest_sets_download dry_run ms (purge_set S now max_age_days dry_run m s).1 b k
        L,
    download-purge_set dry_run m s b k L,
  )

  -- After the clean-up of single manifests in a lawful store an object is gone if it is an
  -- enumerated manifest that is older than the age and the run is no dry run; every other object
  -- is as before.
  pub clean_single_release_manifests_download :
      (dry_run : Bool) (ms : List OnlineReleaseManifest) (s : State) (b k : String)
      → IsLawful S
      → S.download (clean_single_release_manifests S now max_age_days dry_run ms s) b k ≡ (
          if not dry_run && has_outdated_single now max_age_days ms b k
          then err (client_error "404")
          else S.download s b k)
  unfolding clean_single_release_manifests
  clean_single_release_manifests_download dry_run [] s b k L = ground arith
  clean_single_release_manifests_download dry_run (m ∷ ms) s b k L = ground (
    arith,
    clean_single_release_manifests_download dry_run ms
        (purge_single S now max_age_days dry_run m s).1 b k L,
    download-purge_single dry_run m s b k L,
  )
