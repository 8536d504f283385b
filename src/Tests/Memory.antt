-- ===== src/Tests/Memory.antt =====
-- A store that is kept in memory: the log of what was written and deleted, the last entry first.
use gardenlinux.Prelude.{
  ◌≡◌, refl, String, Bool, true, false, ◌&&◌, Option, none, some, List, [], ◌∷◌, ◌==◌,
  if◌then◌else◌, string_eq, contains, keep, to_set, map, length, take_chars, codes, arith,
}
use gardenlinux.Prelude.Result.{Result, ok, err, client_error, value_error}
use gardenlinux.Store.{Store, ParsedManifest, ParsedManifestSet, Page, IsLawful}

pub data Contents : Type 0 where
  single : ParsedManifest → Contents
  set : ParsedManifestSet → Contents
  other : Contents

pub record Entry : Type 0 where
  pub bucket : String
  pub key : String
  pub contents : Option Contents

abbrev pub read_entry : Option Contents → Result Contents
read_entry none = err (client_error "404")
read_entry (some c) = ok c

abbrev pub read_from : List Entry → String → String → Result Contents
read_from [] b k = err (client_error "404")
read_from (e ∷ es) b k =
    let rest = read_from es b k in
    if b == e.bucket && k == e.key then read_entry e.contents else rest

abbrev pub delete_each : List Entry → String → List String → List Entry
delete_each s bucket [] = s
delete_each s bucket (k ∷ ks) =
    record { bucket = bucket; key = k; contents = none } ∷ delete_each s bucket ks

abbrev pub is_there : Result Contents → Bool
is_there (ok c) = true
is_there (err e) = false

abbrev pub starts_with : String → String → Bool
starts_with prefix s = take_chars (length (codes prefix)) s == prefix

-- All keys on one page.
abbrev pub page_of : List Entry → String → String → Page
page_of s bucket prefix = record {
  keys = to_set (
      keep (λ k. starts_with prefix k && is_there (read_from s bucket k))
        (map (λ (e : Entry). e.key) s));
  is_truncated = false;
  next_token = none;
}

abbrev parse_single : Contents → Result ParsedManifest
parse_single (single m) = ok m
parse_single _ = err value_error

abbrev parse_set : Contents → Result ParsedManifestSet
parse_set (set m) = ok m
parse_set _ = err value_error

abbrev pub memory : Store
memory = record {
  State = List Entry;
  Document = Contents;
  download = read_from;
  upload = λ s b k d. record { bucket = b; key = k; contents = some d } ∷ s;
  delete = λ s b k. record { bucket = b; key = k; contents = none } ∷ s;
  delete_objects = delete_each;
  list_objects = λ s b prefix token. page_of s b prefix;
  content_type = λ s b k. "text/yaml";
  parse_manifest = parse_single;
  parse_manifest_set = parse_set;
  dump_manifest = single;
  dump_manifest_set = set;
}

read-delete_each :
    (s : List Entry) (bucket : String) (ks : List String) (b k : String)
    → read_from (delete_each s bucket ks) b k
      ≡ (if b == bucket && contains ks k then err (client_error "404") else read_from s b k)
unfolding contains
read-delete_each s bucket [] b k = ground arith
read-delete_each s bucket (x ∷ ks) b k =
    ground
      (arith, read-delete_each s bucket ks b k, string_eq.equals_iff x k, string_eq.equals_iff k x)

pub memory-IsLawful : IsLawful memory
memory-IsLawful = record {
  download-upload = λ s bucket key b k d. refl;
  download-delete = λ s bucket key b k. refl;
  download-delete_objects = λ s bucket keys b k. read-delete_each s bucket keys b k;
  parse-dump = λ m. refl;
  parse-dump_set = λ m. refl;
}
