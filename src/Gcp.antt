-- ===== src/Gcp.antt =====
-- Publishing on GCP (ci/glci/gcp.py).
pub mod Names
pub mod Public
use gardenlinux.Prelude.{
  ℕ, ◌≡◌, String, ◌<>◌, Bool, true, false, ◌&&◌, Option, none, some, List, [], ◌∷◌, if◌then◌else◌,
  nat_beq, ◌==◌, string_eq,
}
use Prim.Native.Char.{Char, code}
use gardenlinux.Prelude.Result.{Result, ok, err, attribute_error}
use gardenlinux.Prelude.Action.{Action, return, lift, ◌>>=◌, ◌>>◌}
use gardenlinux.Model.Features.{FeatureDescriptor}
use gardenlinux.Model.Manifests.{
  OnlineReleaseManifest, gcp_image, with_published, path_by_suffix,
  canonical_release_manifest_key_suffix,
}
use gardenlinux.Model.Versions.{virtual_image_artifact_for_platform}

-- A member of the bindings of an IAM policy.
pub record Binding : Type 0 where
  pub members : List String
  pub role : String

-- What the code uses of the clients of S3 and GCP, each operation waited for.
pub record Gcp : Type 1 where
  pub World : Type 0
  pub Document : Type 0
  -- `download_fileobj`, of a bucket and a key
  pub download : String → String → Action World Document
  -- `get_bucket(…).blob(…).upload_from_file`
  pub upload : String → String → Document → Action World (Unit {0})
  -- `generate_signed_url`, of a bucket and a blob
  pub generate_signed_url : String → String → Action World String
  -- `images.insert`, of a project, the name and the source; the name of the operation
  pub insert_image : String → String → String → Action World String
  -- `globalOperations().wait`
  pub wait : String → String → Action World (Unit {0})
  pub delete_blob : String → String → Action World (Unit {0})
  -- `getIamPolicy(…)`: the bindings, if the policy has any
  pub get_iam_policy : String → String → Action World (Option (List Binding))
  pub set_iam_policy : String → String → List Binding → Action World (Unit {0})

-- `text.replace(old, new)`, of single characters
unfoldable pub replace_char : ℕ → Char → String → String
replace_char old new String.[] = ""
replace_char old new (String.◌∷◌ c s) =
    let rest = replace_char old new s in
    if nat_beq (code c) old then String.◌∷◌ new rest else String.◌∷◌ c rest

unfoldable pub lstrip_char : ℕ → String → String
lstrip_char d String.[] = ""
lstrip_char d (String.◌∷◌ c s) =
    let rest = lstrip_char d s in if nat_beq (code c) d then rest else String.◌∷◌ c s

abbrev pub is_empty : String → Bool
is_empty String.[] = true
is_empty (String.◌∷◌ c s) = false

unfoldable pub rstrip_char : ℕ → String → String
rstrip_char d String.[] = ""
rstrip_char d (String.◌∷◌ c s) =
    let rest = rstrip_char d s in
    if nat_beq (code c) d && is_empty rest then "" else String.◌∷◌ c rest

-- `text.replace('.', '-').replace('_', '-').strip('-')`
unfoldable pub without_dots : String → String
unfolding replace_char lstrip_char rstrip_char
without_dots text =
    rstrip_char b'-' (lstrip_char b'-' (replace_char b'_' "-" (replace_char b'.' "-" text)))

-- A policy without bindings is replaced by a list; another one is a dictionary, which has no
-- `append`.
unfoldable pub with_binding : Option (List Binding) → Result (List Binding)
with_binding none =
    ok (record { members = "allAuthenticatedUsers" ∷ []; role = "roles/compute.imageUser" } ∷ [])
with_binding (some bindings) = err attribute_error

module _ (G : Gcp) where
  open G use {World}

  unfoldable pub make_public : String → String → Action World (Unit {0})
  unfolding with_binding
  make_public gcp_project_name image_name = do
    iam_policies ← G.get_iam_policy gcp_project_name image_name
    bindings ← lift (with_binding iam_policies)
    G.set_iam_policy gcp_project_name image_name bindings

  -- The name of the blob.
  unfoldable pub upload_image_to_gcp_store : String → OnlineReleaseManifest → Action World String
  upload_image_to_gcp_store gcp_bucket_name release = do
    artifact ← lift (virtual_image_artifact_for_platform "gcp")
    path ← lift (path_by_suffix artifact release.paths)
    image ← G.download path.s3_bucket_name path.s3_key
    let image_blob_name = "gardenlinux-" <> (release.version <> ".tar.gz")
    G.upload gcp_bucket_name image_blob_name image
    return image_blob_name

  module _ (features : List FeatureDescriptor) (depth : ℕ) where
    unfoldable pub upload_image_from_gcp_store :
        String → String → String → OnlineReleaseManifest → Action World OnlineReleaseManifest
    unfolding make_public
    upload_image_from_gcp_store gcp_bucket_name image_blob gcp_project_name release = do
      suffix ← lift (canonical_release_manifest_key_suffix features depth release.identifier)
      let image_name = without_dots ("gardenlinux-" <> suffix)
      source ← G.generate_signed_url gcp_bucket_name image_blob
      op_name ← G.insert_image gcp_project_name image_name source
      G.wait gcp_project_name op_name
      G.delete_blob gcp_bucket_name image_blob
      make_public gcp_project_name image_name
      return (with_published (gcp_image image_name gcp_project_name) release)

    unfoldable pub upload_and_publish_image :
        String → String → OnlineReleaseManifest → Action World OnlineReleaseManifest
    unfolding upload_image_to_gcp_store upload_image_from_gcp_store
    upload_and_publish_image gcp_bucket_name gcp_project_name release = do
      image_blob ← upload_image_to_gcp_store gcp_bucket_name release
      upload_image_from_gcp_store gcp_bucket_name image_blob gcp_project_name release
