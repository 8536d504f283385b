-- ===== src/Attach/Logged.antt =====
-- Manifests with a log, and the keys of the manifests that get one.
use gardenlinux.Prelude.{
  ◌≡◌, refl, ap, String, Bool, true, false, ◌||◌, Option, none, some, List, [], ◌∷◌, string_eq,
  arith, if◌then◌else◌,
}
use gardenlinux.Prelude.Result.{Result, ok, err}
use gardenlinux.Prelude.Dicts.{Dict}
use gardenlinux.Model.Manifests.{ReleaseFile, OnlineReleaseManifest, with_logfile}
use gardenlinux.Attach.{built}

-- What a key holds, with the log if it is told to have it.
unfoldable pub logged :
    ReleaseFile
    → Bool
    → Result (Option OnlineReleaseManifest)
    → Result (Option OnlineReleaseManifest)
logged log b (ok (some m)) = ok (some (if b then with_logfile log m else m))
logged log b (ok none) = ok none
logged log b (err e) = err e

abbrev pub with_key : Option String → List String → List String
with_key none ks = ks
with_key (some k) ks = k ∷ ks

-- The keys of the manifests that were built.
unfoldable pub built_keys : Dict (Option String) → List String
built_keys [] = []
built_keys ((task, key) ∷ build_dict) = with_key (built key) (built_keys build_dict)

pub logged-logged :
    (log : ReleaseFile) (b c : Bool) (r : Result (Option OnlineReleaseManifest))
    → logged log c (logged log b r) ≡ logged log (b || c) r
unfolding logged with_logfile
logged-logged log true true (ok (some m)) = refl
logged-logged log true false (ok (some m)) = refl
logged-logged log false true (ok (some m)) = refl
logged-logged log false false (ok (some m)) = refl
logged-logged log b c (ok none) = refl
logged-logged log b c (err e) = refl

pub logged-false :
    (log : ReleaseFile) (r : Result (Option OnlineReleaseManifest)) → logged log false r ≡ r
unfolding logged
logged-false log (ok (some m)) = refl
logged-false log (ok none) = refl
logged-false log (err e) = refl

-- A log does not change what a manifest is the manifest of.
pub logged-identifier :
    (log : ReleaseFile) (b : Bool) (r : Result (Option OnlineReleaseManifest))
    (m : OnlineReleaseManifest)
    → logged log b r ≡ ok (some m)
    → (m₀ : OnlineReleaseManifest) × (r ≡ ok (some m₀)) × (m₀.identifier ≡ m.identifier)
unfolding logged with_logfile
logged-identifier log b (ok none) m h = absurd (ground arith)
logged-identifier log b (err e) m h = absurd (ground arith)
logged-identifier log b (ok (some m₀)) m h =
    let same : (if b then with_logfile log m₀ else m₀) ≡ m = ground (arith, h) in
    (m₀, refl, kept b same)
  where
    kept : (b : Bool) → (if b then with_logfile log m₀ else m₀) ≡ m → m₀.identifier ≡ m.identifier
    kept true e = ap (λ (x : OnlineReleaseManifest). x.identifier) e
    kept false e = ap (λ (x : OnlineReleaseManifest). x.identifier) e
