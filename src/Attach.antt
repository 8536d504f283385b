-- ===== src/Attach.antt =====
-- The log of a run in the manifests of what the run has built (ci/steps/attach_logs.py):
-- `_upload_file` and `_attach_logs_to_single_manifest`.
pub mod Logged
pub mod Singles
use gardenlinux.Prelude.{
  ℕ, ◌≡◌, String, ◌<>◌, false, Option, none, some, List, [], ◌∷◌, ◌==◌, if◌then◌else◌, string_eq,
  split, strip,
}
use gardenlinux.Prelude.Result.{Result, ok, err, attribute_error}
use gardenlinux.Prelude.Dicts.{Dict}
use gardenlinux.Prelude.Action.{Action, return, lift, ◌>>=◌, ◌>>◌}
use gardenlinux.Model.Features.{FeatureDescriptor}
use gardenlinux.Model.Manifests.{
  ReleaseFile, OnlineReleaseManifest, with_logfile, manifest_key_prefix,
  canonical_release_manifest_key_suffix,
}
use gardenlinux.Store.{Store}
use gardenlinux.Releases.{online, release_manifest, upload_release_manifest}

last_part : String → List String → String
last_part s [] = s
last_part s (t ∷ parts) = last_part t parts

-- `os.path.basename(path)`
unfoldable pub basename : String → String
unfolding last_part
basename path = last_part "" (split b'/' path)

-- `S3_ReleaseFile(name, name, s3_key, s3_bucket_name)`
unfoldable pub log_file : String → String → ReleaseFile
log_file bucket s3_key = record {
  name = basename s3_key;
  suffix = basename s3_key;
  s3_key = s3_key;
  s3_bucket_name = bucket;
}

-- `if key and key.strip()`
unfoldable pub built : Option String → Option String
built none = none
built (some key) = if strip key == "" then none else some key

-- The attributes of a manifest that must be there.
manifest_of : Option OnlineReleaseManifest → Result OnlineReleaseManifest
manifest_of none = err attribute_error
manifest_of (some m) = ok m

module _ (S : Store) where
  open S use {State}

  -- The content type and disposition of the object are left out.
  unfoldable pub upload_file : String → String → S.Document → Action State ReleaseFile
  unfolding log_file
  upload_file bucket s3_key log s = (ok (log_file bucket s3_key), S.upload s bucket s3_key log)

  module _ (features : List FeatureDescriptor) (depth : ℕ) where
    -- One manifest, which is read and written back under its own key.
    unfoldable pub attach_log : String → String → String → Action State (Unit {0})
    unfolding manifest_of
    attach_log bucket s3_log_key key = do
      found ← λ s. (release_manifest S s bucket key false, s)
      manifest ← lift (manifest_of found)
      manifest_path_suffix ←
          lift (canonical_release_manifest_key_suffix features depth manifest.identifier)
      let manifest_path = manifest_key_prefix <> ("/" <> manifest_path_suffix)
      λ s. (
        ok tt,
        upload_release_manifest S s bucket manifest_path
            (online (with_logfile (log_file bucket s3_log_key) manifest)),
      )

    attach_built : String → String → Option String → Action State (Unit {0})
    unfolding attach_log
    attach_built bucket s3_log_key none = return tt
    attach_built bucket s3_log_key (some key) = attach_log bucket s3_log_key key

    unfoldable pub attach_logs_to_single_manifest :
        Dict (Option String) → String → String → Action State (Unit {0})
    unfolding attach_built built
    attach_logs_to_single_manifest [] bucket s3_log_key = return tt
    attach_logs_to_single_manifest ((task, key) ∷ build_dict) bucket s3_log_key = do
      attach_built bucket s3_log_key (built key)
      attach_logs_to_single_manifest build_dict bucket s3_log_key
