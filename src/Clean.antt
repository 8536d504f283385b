-- ===== src/Clean.antt =====
-- The clean-up job (ci/clean.py): outdated manifest sets, outdated single manifests and objects that
-- no manifest refers to.
pub mod Outdated
pub mod Referenced
pub mod Orphans
use gardenlinux.Prelude.{
  ℕ, zero, suc, ◌+◌, ◌*◌, ◌≡◌, String, Bool, true, false, ◌&&◌, Option, none, some, List, [], ◌∷◌,
  ◌++◌, map, ◌==◌, if◌then◌else◌, string_eq, ltb, not, contains, to_set, difference, is_nil, keep,
  flat_map,
}
use gardenlinux.Model.Manifests.{ReleaseFile, OnlineReleaseManifest, OnlineReleaseManifestSet}
use gardenlinux.Store.{Store, Page, truthy}

-- `datetime.timedelta(days=1)`, in microseconds
abbrev pub day : ℕ
day = 86_400_000_000

-- `ts > now - timedelta(days=max_age_days)`
abbrev pub is_younger : ℕ → ℕ → ℕ → Bool
is_younger now max_age_days ts = ltb now (ts + max_age_days * day)

-- `ts < now - timedelta(days=max_age_days)`
abbrev pub is_older : ℕ → ℕ → ℕ → Bool
is_older now max_age_days ts = ltb (ts + max_age_days * day) now

-- The objects that the manifests and logs of a manifest set refer to.
abbrev or_nothing : Option (List ReleaseFile) → List ReleaseFile
or_nothing none = []
or_nothing (some fs) = fs

abbrev pub set_objects : OnlineReleaseManifestSet → List ReleaseFile
set_objects s = flat_map (λ (m : OnlineReleaseManifest). m.paths) s.manifests ++ or_nothing s.logs

-- The keys of all objects that are referred to in one bucket.
unfoldable pub referenced_keys :
    String → List OnlineReleaseManifestSet → List OnlineReleaseManifest → List String
referenced_keys bucket sets singles =
    let all_objects =
      flat_map set_objects sets ++ flat_map (λ (m : OnlineReleaseManifest). m.paths) singles in
    to_set (
      map (λ (o : ReleaseFile). o.s3_key)
        (keep (λ (o : ReleaseFile). o.s3_bucket_name == bucket) all_objects))

module _ (S : Store) where
  open S use {State}

  module _ (now max_age_days : ℕ) (dry_run : Bool) where
    -- A set with no manifests is kept; else its first manifest says how old it is.
    purge_by_first : OnlineReleaseManifestSet → List OnlineReleaseManifest → State → Bool × State
    purge_by_first m [] s = (false, s)
    purge_by_first m (first_manifest ∷ _) s =
        if is_younger now max_age_days first_manifest.build_timestamp
        then (false, s)
        else if dry_run
        then (false, s)
        else (true, S.delete s m.s3_bucket m.s3_key)

    -- `purge_if_outdated` of `clean_release_manifest_sets`
    unfoldable pub purge_set : OnlineReleaseManifestSet → State → Bool × State
    unfolding purge_by_first
    purge_set m s = purge_by_first m m.manifests s

    -- `purge_if_outdated` of `clean_single_release_manifests`
    unfoldable pub purge_single : OnlineReleaseManifest → State → Bool × State
    purge_single m s =
        if is_older now max_age_days m.build_timestamp
        then (if dry_run then (false, s) else (true, S.delete s m.s3_bucket m.s3_key))
        else (false, s)

    -- The loops over what was enumerated, in its order. The code runs the jobs in threads.
    unfoldable pub clean_release_manifest_sets : List OnlineReleaseManifestSet → State → State
    unfolding purge_set
    clean_release_manifest_sets [] s = s
    clean_release_manifest_sets (m ∷ ms) s = clean_release_manifest_sets ms (purge_set m s).1

    unfoldable pub clean_single_release_manifests : List OnlineReleaseManifest → State → State
    unfolding purge_single
    clean_single_release_manifests [] s = s
    clean_single_release_manifests (m ∷ ms) s =
        clean_single_release_manifests ms (purge_single m s).1

  module _ (bucket prefix : String) (referenced : List String) (dry_run : Bool) where
    -- What is done with one page: the keys that no manifest refers to are deleted.
    unfoldable pub clean_page : List String → State → State
    clean_page keys s =
        let loose_object_keys = difference (to_set keys) referenced in
        if dry_run
        then s
        else if is_nil loose_object_keys
        then s
        else S.delete_objects s bucket loose_object_keys

    -- The loop over the pages; `none` says that the given number of pages was not enough.
    unfoldable pub clean_orphans : ℕ → Option String → State → Option State
    clean_orphans zero token s = none
    clean_orphans (suc fuel) token s =
        let page = S.list_objects s bucket prefix (truthy token) in
        let t = clean_page page.keys s in
        let later = clean_orphans fuel page.next_token t in
        if is_nil page.keys
        then some s
        else (elim (truthy page.next_token) [ none ↦ some t | some next ↦ later ])

  -- `clean_orphaned_objects`, over the manifests that were enumerated
  unfoldable pub clean_orphaned_objects :
      String
      → String
      → List OnlineReleaseManifestSet
      → List OnlineReleaseManifest
      → Bool
      → ℕ
      → State
      → Option State
  unfolding clean_orphans clean_page referenced_keys
  clean_orphaned_objects bucket prefix sets singles dry_run fuel s =
      clean_orphans bucket prefix (referenced_keys bucket sets singles) dry_run fuel none s
