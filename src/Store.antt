-- ===== src/Store.antt =====
-- What the code uses of an S3 client, `yaml` and `dacite`. None of them is part of the repository:
-- the client and the two conversions are parameters, and their documented behaviour is `IsLawful`.
use gardenlinux.Prelude.{
  ℕ, ◌≡◌, ◌<◌, ◌≤◌, String, Bool, true, Option, none, some, List, ◌==◌, ◌&&◌, if◌then◌else◌,
  string_eq, contains,
}
use gardenlinux.Prelude.Result.{Result, ok, err, client_error}
use gardenlinux.Model.Manifests.{
  ReleaseIdentifier, ReleaseFile, OnlineReleaseManifest, PublishedImage, ReleaseTestResult,
  LogReference,
}

-- The attributes that a manifest document holds. `base_image` may be missing in an older one.
pub record ParsedManifest : Type 0 where
  pub identifier : ReleaseIdentifier
  pub build_timestamp : ℕ
  pub paths : List ReleaseFile
  pub base_image : Option (Option String)
  pub published_image_metadata : Option PublishedImage
  pub test_result : Option ReleaseTestResult
  pub logs : Option LogReference

pub record ParsedManifestSet : Type 0 where
  pub manifests : List OnlineReleaseManifest
  pub flavour_set_name : String
  pub logs : Option (List ReleaseFile)

-- One answer of `list_objects_v2`.
pub record Page : Type 0 where
  pub keys : List String
  pub is_truncated : Bool
  pub next_token : Option String

pub record Store : Type 1 where
  pub State : Type 0
  pub Document : Type 0
  -- `download_fileobj`
  pub download : State → String → String → Result Document
  -- `upload_fileobj`
  pub upload : State → String → String → Document → State
  -- `delete_object`
  pub delete : State → String → String → State
  -- `delete_objects`
  pub delete_objects : State → String → List String → State
  -- `list_objects_v2`, of a bucket and a prefix, from a continuation token
  pub list_objects : State → String → String → Option String → Page
  -- `head_object(…)['ContentType']`
  pub content_type : State → String → String → String
  -- `yaml.safe_load` and `dacite.from_dict`
  pub parse_manifest : Document → Result ParsedManifest
  pub parse_manifest_set : Document → Result ParsedManifestSet
  -- `yaml.safe_dump` of the attributes
  pub dump_manifest : ParsedManifest → Document
  pub dump_manifest_set : ParsedManifestSet → Document

-- Of an object that was written the last contents are read, others are untouched, and what was
-- dumped is parsed to what it was.
pub record IsLawful (S : Store) : Type 0 where
  pub download-upload :
      (s : S.State) (bucket key b k : String) (d : S.Document)
      → S.download (S.upload s bucket key d) b k
        ≡ (if b == bucket && k == key then ok d else S.download s b k)
  pub download-delete :
      (s : S.State) (bucket key b k : String)
      → S.download (S.delete s bucket key) b k
        ≡ (if b == bucket && k == key then err (client_error "404") else S.download s b k)
  pub download-delete_objects :
      (s : S.State) (bucket : String) (keys : List String) (b k : String)
      → S.download (S.delete_objects s bucket keys) b k
        ≡ (if b == bucket && contains keys k then err (client_error "404") else S.download s b k)
  pub parse-dump : (m : ParsedManifest) → S.parse_manifest (S.dump_manifest m) ≡ ok m
  pub parse-dump_set : (m : ParsedManifestSet) → S.parse_manifest_set (S.dump_manifest_set m) ≡ ok m

-- `continuation_token if continuation_token else no argument`
abbrev pub truthy : Option String → Option String
truthy none = none
truthy (some t) = if t == "" then none else some t

-- A listing moves on: a page that names a token to go on from names one with less left behind it, and
-- a page that says it is cut off names such a token; and deleting objects leaves no more behind a
-- token. The rank is what is left behind a token in a state, such as the number of keys.
pub record IsProgressing (S : Store) (bucket prefix : String) (rank : S.State → Option String → ℕ)
    : Type 0 where
  pub lower :
      (s : S.State) (token : Option String) (t : String)
      → truthy (S.list_objects s bucket prefix token).next_token ≡ some t
      → rank s (some t) < rank s token
  pub goes_on :
      (s : S.State) (token : Option String)
      → (S.list_objects s bucket prefix token).is_truncated ≡ true
      → (t : String) × (truthy (S.list_objects s bucket prefix token).next_token ≡ some t)
  pub deletes :
      (s : S.State) (keys : List String) (token : Option String)
      → rank (S.delete_objects s bucket keys) token ≤ rank s token
