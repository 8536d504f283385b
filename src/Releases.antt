-- ===== src/Releases.antt =====
-- Reading and writing release manifests and manifest sets, and finding the release of an
-- identifier (ci/glci/util.py).
pub mod Find
pub mod Complete
pub mod Pages
pub mod Sets
pub mod Read
pub mod Unordered
use gardenlinux.Prelude.{
  ℕ, ◌≡◌, String, ◌<>◌, Bool, true, false, ◌&&◌, Option, none, some, List, [], ◌∷◌, ◌++◌, Eq, ◌==◌,
  if◌then◌else◌, string_eq, take_chars, to_set,
}
use gardenlinux.Prelude.Result.{Result, ok, err, client_error, value_error, ◌>>=◌, map_result}
use gardenlinux.Model.Features.{FeatureDescriptor}
use gardenlinux.Model.Flavours.{Flavour, FlavourSet, flavour_eq, flavours}
use gardenlinux.Model.Manifests.{
  ReleaseIdentifier, identifier_eq, ReleaseManifest, OnlineReleaseManifest,
  OnlineReleaseManifestSet, normalised_release_identifier, canonical_release_manifest_key,
  release_manifest_set_prefix,
}
use gardenlinux.Store.{Store, ParsedManifest, ParsedManifestSet}

-- A manifest that is uploaded is a `ReleaseManifest` or an `OnlineReleaseManifest`.
pub data Uploadable : Type 0 where
  plain : ReleaseManifest → Uploadable
  online : OnlineReleaseManifest → Uploadable

-- `dataclasses.asdict(_json_serialisable_manifest(m))`, as far as the reader takes it
unfoldable pub attributes : Uploadable → ParsedManifest
attributes (plain m) = record {
  identifier = m.identifier;
  build_timestamp = m.build_timestamp;
  paths = m.paths;
  base_image = some m.base_image;
  published_image_metadata = m.published_image_metadata;
  test_result = none;
  logs = none;
}
attributes (online m) = record {
  identifier = m.identifier;
  build_timestamp = m.build_timestamp;
  paths = m.paths;
  base_image = some m.base_image;
  published_image_metadata = m.published_image_metadata;
  test_result = m.test_result;
  logs = m.logs;
}

abbrev or_none : Option (Option String) → Option String
or_none none = none
or_none (some o) = o

-- The transient attributes that are patched in, and the default of `base_image`.
unfoldable pub online_manifest : String → String → ParsedManifest → OnlineReleaseManifest
online_manifest bucket key p = record {
  manifest = record {
    identifier = p.identifier;
    build_timestamp = p.build_timestamp;
    paths = p.paths;
    base_image = or_none p.base_image;
    published_image_metadata = p.published_image_metadata;
  };
  s3_key = key;
  s3_bucket = bucket;
  test_result = p.test_result;
  logs = p.logs;
}

unfoldable pub online_manifest_set : String → String → ParsedManifestSet → OnlineReleaseManifestSet
online_manifest_set bucket key p = record {
  manifests = p.manifests;
  flavour_set_name = p.flavour_set_name;
  s3_key = key;
  s3_bucket = bucket;
  logs = p.logs;
}

-- The handler of `except botocore.exceptions.ClientError`.
absent {ℓ} : {A : Type ℓ} → Bool → Result A → Result (Option A)
absent absent_ok (ok a) = ok (some a)
absent absent_ok (err (client_error code)) =
    if absent_ok && code == "404" then ok none else err (client_error code)
absent absent_ok (err e) = err e

pub data BuildType : Type 0 where
  snapshot daily release : BuildType

-- `build_type.value`
unfoldable pub build_type_value : BuildType → String
build_type_value snapshot = "snapshot"
build_type_value daily = "daily"
build_type_value release = "release"

-- `release_set_manifest_name`. The text of the epoch and the time stamp, if one is asked for, are
-- given as texts.
unfoldable pub release_set_manifest_name :
    String → String → String → String → BuildType → Option String → String
release_set_manifest_name build_committish epoch version flavour_set_name release timestamp =
    version <> ("-" <> flavour_set_name)
release_set_manifest_name build_committish epoch version flavour_set_name build_type none =
    epoch <> ("-" <> (take_chars 6 build_committish <> ("-" <> flavour_set_name)))
release_set_manifest_name build_committish epoch version flavour_set_name build_type (some t) =
    epoch <> ("-" <> (take_chars 6 build_committish <> ("-" <> (flavour_set_name <> ("-" <> t)))))

-- `ReleaseIdentifier(…)` of a flavour
abbrev pub identifier_of : String → String → ℕ → Flavour → ReleaseIdentifier
identifier_of committish version epoch f = record {
  build_committish = committish;
  version = version;
  gardenlinux_epoch = epoch;
  architecture = f.architecture;
  platform = f.platform;
  modifiers = f.modifiers;
}

abbrev pub found_first :
    Option OnlineReleaseManifest → List OnlineReleaseManifest → List OnlineReleaseManifest
found_first none ms = ms
found_first (some m) ms = m ∷ ms

module _ (S : Store) where
  open S use {State}

  parsed_manifest : String → String → Option S.Document → Result (Option OnlineReleaseManifest)
  unfolding online_manifest
  parsed_manifest bucket key none = ok none
  parsed_manifest bucket key (some d) = do
    p ← S.parse_manifest d
    ok (some (online_manifest bucket key p))

  unfoldable pub release_manifest :
      State → String → String → Bool → Result (Option OnlineReleaseManifest)
  unfolding absent parsed_manifest
  release_manifest s bucket key absent_ok = do
    buf ← absent absent_ok (S.download s bucket key)
    parsed_manifest bucket key buf

  parsed_manifest_set :
      String → String → Option S.Document → Result (Option OnlineReleaseManifestSet)
  unfolding online_manifest_set
  parsed_manifest_set bucket key none = ok none
  parsed_manifest_set bucket key (some d) = do
    p ← S.parse_manifest_set d
    ok (some (online_manifest_set bucket key p))

  unfoldable pub release_manifest_set :
      State → String → String → Bool → Result (Option OnlineReleaseManifestSet)
  unfolding absent parsed_manifest_set
  release_manifest_set s bucket key absent_ok = do
    buf ← absent absent_ok (S.download s bucket key)
    parsed_manifest_set bucket key buf

  unfoldable pub upload_release_manifest : State → String → String → Uploadable → State
  unfolding attributes
  upload_release_manifest s bucket key m = S.upload s bucket key (S.dump_manifest (attributes m))

  -- A `ReleaseManifestSet` has no logs; one that was read has its own.
  unfoldable pub upload_release_manifest_set : State → String → String → ParsedManifestSet → State
  upload_release_manifest_set s bucket key m = S.upload s bucket key (S.dump_manifest_set m)

  unfoldable pub find_release_set :
      State
      → String
      → String
      → String
      → String
      → String
      → BuildType
      → Bool
      → Result (Option OnlineReleaseManifestSet)
  unfolding release_manifest_set release_set_manifest_name build_type_value
  find_release_set s bucket flavour_set_name build_committish epoch version build_type absent_ok =
      release_manifest_set s bucket
        (release_manifest_set_prefix
          <> ("/"
              <> (build_type_value build_type
                  <> ("/"
                      <> release_set_manifest_name build_committish epoch version flavour_set_name
                          build_type none))))
        absent_ok

  module _ (features : List FeatureDescriptor) (depth : ℕ) where
    -- The comparison of what was found with what was searched for.
    confirm :
        ReleaseIdentifier → Option OnlineReleaseManifest → Result (Option OnlineReleaseManifest)
    confirm searched none = ok none
    confirm searched (some m) = do
      found_ri ← normalised_release_identifier features depth m.identifier
      searched_ri ← normalised_release_identifier features depth searched
      ok (if found_ri == searched_ri then some m else none)

    unfoldable pub find_release :
        State → String → ReleaseIdentifier → Result (Option OnlineReleaseManifest)
    unfolding release_manifest confirm
    find_release s bucket identifier = do
      key ← canonical_release_manifest_key features depth identifier
      manifest ← release_manifest s bucket key true
      confirm identifier manifest

    unfoldable pub find_each :
        State
        → String
        → (Flavour → ReleaseIdentifier)
        → List Flavour
        → Result (List OnlineReleaseManifest)
    unfolding find_release
    find_each s bucket identifier [] = ok []
    find_each s bucket identifier (f ∷ fs) = do
      existing_release ← find_release s bucket (identifier f)
      later ← find_each s bucket identifier fs
      ok (found_first existing_release later)

    -- `find_releases`, read to its end
    unfoldable pub find_releases :
        State → String → FlavourSet → String → String → ℕ → Result (List OnlineReleaseManifest)
    unfolding find_each
    find_releases s bucket flavour_set committish version epoch = do
      declared ← flavours features depth flavour_set
      find_each s bucket (identifier_of committish version epoch) (to_set declared)
