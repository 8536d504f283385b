-- ===== src/Promote/Command.antt =====
-- `promote` and `main` of ci/promote.py. The shared image gallery of Azure is a parameter.
pub mod Published
use gardenlinux.Prelude.{
  ℕ, ◌≡◌, String, ◌<>◌, Bool, true, false, ◌||◌, Option, none, some, List, [], ◌∷◌, ◌==◌,
  if◌then◌else◌, string_eq, contains, keep, length, nat_beq, is_nil, to_set, take_chars,
}
use gardenlinux.Prelude.Result.{
  Result, ok, err, value_error, type_error, index_error, system_exit, ◌>>=◌, ◌>>◌, guard,
  map_result,
}
use gardenlinux.Model.Targets.{BuildTarget, build, manifest, target_eq}
use gardenlinux.Model.Features.{FeatureDescriptor}
use gardenlinux.Model.Flavours.{Flavour, flavour_eq, FlavourSet, flavours}
use gardenlinux.Model.Manifests.{OnlineReleaseManifest, release_manifest_set_prefix}
use gardenlinux.Store.{Store, ParsedManifestSet}
use gardenlinux.Releases.{
  BuildType, build_type_value, release_set_manifest_name, upload_release_manifest_set,
  find_releases,
}
use gardenlinux.Promote.Image.{Publisher, publish_image}

-- What `promote` is called with, besides the releases and the build targets.
pub record Promotion : Type 0 where
  pub bucket : String
  pub target_prefix : String
  pub build_committish : String
  pub epoch_text : String
  pub version_str : String
  pub flavour_set_name : String
  pub build_type : BuildType

-- `manifest_path`
unfoldable pub manifest_path : Promotion → String
unfolding release_set_manifest_name
manifest_path a =
    a.target_prefix
    <> ("/"
        <> release_set_manifest_name a.build_committish a.epoch_text a.version_str
            a.flavour_set_name a.build_type none)

-- The arguments of the command line. No build targets are `None`.
pub record Parsed : Type 0 where
  pub bucket : String
  pub flavour_set : FlavourSet
  pub committish : String
  pub gardenlinux_epoch : ℕ
  pub epoch_text : String
  pub build_targets : Option (List BuildTarget)
  pub version : String
  pub target : BuildType
  pub allow_partial : Bool
  pub azure_sig : Bool

-- `parsed.version or f'{gardenlinux_epoch}-{committish[0:6]}'`
unfoldable pub version_of : Parsed → String
version_of a =
    if a.version == "" then a.epoch_text <> ("-" <> take_chars 6 a.committish) else a.version

unfoldable pub promotion_of : Parsed → Promotion
unfolding version_of build_type_value
promotion_of a = record {
  bucket = a.bucket;
  target_prefix = release_manifest_set_prefix <> ("/" <> build_type_value a.target);
  build_committish = a.committish;
  epoch_text = a.epoch_text;
  version_str = version_of a;
  flavour_set_name = a.flavour_set.name;
  build_type = a.target;
}

-- `filtered[0]`
unfoldable pub first_azure : List OnlineReleaseManifest → Result OnlineReleaseManifest
first_azure [] = err index_error
first_azure (m ∷ ms) = let rest = first_azure ms in if m.platform == "azure" then ok m else rest

module _ (P : Publisher) where
  open P use {World}

  -- The jobs of the executor: all of them run, whether or not one raises.
  unfoldable pub publish_all :
      List OnlineReleaseManifest → World → List (Result OnlineReleaseManifest) × World
  publish_all [] w = ([], w)
  publish_all (m ∷ ms) w =
      let (r, w₁) = publish_image P m w in let (rs, w₂) = publish_all ms w₁ in (r ∷ rs, w₂)

  -- `tuple(executor.map(…))`: the first exception is raised again.
  unfoldable pub all_results :
      List (Result OnlineReleaseManifest) → Result (List OnlineReleaseManifest)
  all_results rs = map_result (λ r. r) rs

  module _ (S : Store) where
    open S use {State}

    -- The upload of the manifest set, if one is asked for.
    unfoldable pub with_set :
        Promotion → List BuildTarget → List OnlineReleaseManifest → State → State
    unfolding manifest_path
    with_set a build_targets releases s =
        if contains build_targets manifest
        then upload_release_manifest_set S s a.bucket (manifest_path a)
            (record { manifests = releases; flavour_set_name = a.flavour_set_name; logs = none })
        else s

    promoted :
        Promotion
        → List BuildTarget
        → List (Result OnlineReleaseManifest) × World
        → State
        → Result State × World
    unfolding with_set all_results
    promoted a build_targets (rs, w) s =
        ((do releases ← all_results rs; ok (with_set a build_targets releases s)), w)

    -- An executor cannot be made for no workers.
    unfoldable pub promote :
        Promotion
        → List BuildTarget
        → List OnlineReleaseManifest
        → State
        → World
        → Result State × World
    unfolding promoted publish_all
    promote a build_targets releases s w =
        if contains build_targets build
        then (if is_nil releases
            then (err value_error, w)
            else promoted a build_targets (publish_all releases w) s)
        else (ok s, w)

    -- `BUILD in None` raises.
    with_targets :
        Parsed
        → Option (List BuildTarget)
        → List OnlineReleaseManifest
        → State
        → World
        → Result State × World
    unfolding promote promotion_of
    with_targets a none releases s w = (err type_error, w)
    with_targets a (some build_targets) releases s w =
        promote (promotion_of a) build_targets releases s w

    module _ (features : List FeatureDescriptor) (depth : ℕ) where
      -- The releases to promote, which are complete or allowed not to be.
      unfoldable pub releases_of : Parsed → State → Result (List OnlineReleaseManifest)
      unfolding version_of
      releases_of a s = do
        declared ← flavours features depth a.flavour_set
        releases ←
            find_releases S features depth s a.bucket a.flavour_set a.committish (version_of a)
              a.gardenlinux_epoch
        guard (nat_beq (length releases) (length (to_set declared)) || a.allow_partial)
            (system_exit 1)
        ok releases

      module _
          (publish_azure_shared_image_gallery : OnlineReleaseManifest
            → World
            → Result OnlineReleaseManifest × World) where
        -- What `main` does with the one release for the gallery.
        in_gallery : Result OnlineReleaseManifest → State → World → Result State × World
        in_gallery (err e) s w = (err e, w)
        in_gallery (ok release) s w =
            let (r, w') = publish_azure_shared_image_gallery release w in ((do _ ← r; ok s), w')

        promoting :
            Parsed → Result (List OnlineReleaseManifest) → State → World → Result State × World
        unfolding in_gallery first_azure with_targets
        promoting a (err e) s w = (err e, w)
        promoting a (ok releases) s w =
            if a.azure_sig
            then in_gallery (first_azure releases) s w
            else with_targets a a.build_targets releases s w

        unfoldable pub main : Parsed → State → World → Result State × World
        unfolding promoting releases_of
        main a s w = promoting a (releases_of a s) s w
