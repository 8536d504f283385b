-- ===== src/Clean/Referenced.antt =====
-- The objects that the manifests refer to.
use gardenlinux.Prelude.{
  ◌≡◌, sym, ap, subst, ◌∙◌, inl, inr, String, Bool, true, List, [], ◌∷◌, ◌++◌, string_eq,
  Bool-cases, contains, keep, flat_map, contains-to_set, In, In-cons, here, there, In-map,
  contains-In, In-append_left, In-append_right, In-flat_map,
}
use gardenlinux.Model.Manifests.{ReleaseFile, OnlineReleaseManifest, OnlineReleaseManifestSet}
use gardenlinux.Clean.{set_objects, referenced_keys}

-- The object is among the paths of an enumerated manifest, or among the paths or the logs of an
-- enumerated manifest set.
pub data IsReferenced (sets : List OnlineReleaseManifestSet) (singles : List OnlineReleaseManifest)
    (o : ReleaseFile) : Type 0 where
  by_set :
      (m : OnlineReleaseManifestSet)
      → In m sets
      → In o (set_objects m)
      → IsReferenced sets singles o
  by_single :
      (m : OnlineReleaseManifest) → In m singles → In o m.paths → IsReferenced sets singles o

In-keep :
    {o : ReleaseFile} (p : ReleaseFile → Bool) (os : List ReleaseFile)
    → p o ≡ true
    → In o os
    → In o (keep p os)
unfolding keep
In-keep p [] h m = elim m [ ]
In-keep {o} p (x ∷ xs) h m = elim (In-cons m) [
  | inl same ↦ rw (ap p same ∙ h) (subst (λ y. In o (y ∷ keep p xs)) (sym same) here)
  | inr k ↦ elim (Bool-cases (p x)) [
    | inl stays ↦ rw stays (there (In-keep p xs h k))
    | inr goes ↦ rw goes (In-keep p xs h k)
  ]
]

pub contains-referenced_keys :
    (bucket : String) (sets : List OnlineReleaseManifestSet) (singles : List OnlineReleaseManifest)
    (o : ReleaseFile)
    → IsReferenced sets singles o
    → o.s3_bucket_name ≡ bucket
    → contains (referenced_keys bucket sets singles) o.s3_key ≡ true
unfolding referenced_keys
contains-referenced_keys bucket sets singles o r e =
    contains-to_set _ o.s3_key
    ∙ contains-In _
        (In-map _ (In-keep _ _ ((string_eq.equals_iff o.s3_bucket_name bucket).1 e) (place r)))
  where
    place :
        IsReferenced sets singles o
        → In o
            (flat_map set_objects sets ++ flat_map (λ (m : OnlineReleaseManifest). m.paths) singles)
    place (by_set m h k) = In-append_left _ (In-flat_map set_objects h k)
    place (by_single m h k) =
        In-append_right (flat_map set_objects sets)
          (In-flat_map (λ (m : OnlineReleaseManifest). m.paths) h k)
