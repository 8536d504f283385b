-- ===== src/Tests/LogRuns.antt =====
-- The logs of a pipeline run, from a cluster that serves them and from one that has lost them.
use gardenlinux.Prelude.{
  strip, lstrip, rstrip, is_space, split, join, sorted, difference, to_set, take_chars, place,
  text_leb, upper, ℕ, ◌≡◌, refl, String, true, false, none, some, List, [], ◌∷◌, string_eq,
  contains, arith, keep, Option, ◌<>◌, ◌-◌, zero, suc, length,
}
use gardenlinux.Prelude.Result.{map_result, ok, err, Error}
use gardenlinux.Prelude.Dicts.{Dict, insert}
use gardenlinux.Model.Manifests.{canonical_release_manifest_key_suffix, with_logfile}
use gardenlinux.Model.Features.{feature_by_name, included_features, descriptor_beq}
use gardenlinux.Model.Modifiers.{canonicalised_features}
use gardenlinux.Model.Tests.{registry}
use gardenlinux.Releases.{
  online, attributes, online_manifest, upload_release_manifest, release_manifest,
}
use gardenlinux.Promote.Single.Again.{IsKeyed}
use gardenlinux.Logs.{
  TaskRun, TaskRunInfo, answered, api_exception, Kubernetes, get_task_run_infos, get_and_zip_logs,
  get_task_result, zip_comp,
}
use gardenlinux.Logs.Archive.{
  IsServing, asked_for, entries_of, get_and_zip_logs-entries, get_and_zip_logs_raises,
}
use gardenlinux.Attach.{basename, built, log_file, attach_log, attach_logs_to_single_manifest}
use gardenlinux.Attach.Logged.{logged, built_keys}
use gardenlinux.Attach.Singles.{attach_logs_to_single_manifest-logged}
use gardenlinux.Tests.Memory.{Entry, memory, memory-IsLawful}
use gardenlinux.Tests.ReleaseRuns.{first_key, first_release}
use gardenlinux.Tests.PromoteRuns.{one_release, one_release-IsKeyed}

-- Every log has two lines.
abbrev log_of : String → List String
log_of container = (container <> " starts") ∷ (container <> " ends") ∷ []

abbrev without : ℕ → List String → List String
without zero lines = lines
without (suc n) [] = []
without (suc n) (line ∷ lines) = without n lines

abbrev tail_of : Option ℕ → List String → List String
tail_of none lines = lines
tail_of (some n) lines = without (length lines - n) lines

abbrev serving : Kubernetes
serving = record {
  World = ℕ;
  Log = List String;
  Bytes = List String;
  read_log = λ pod container lines w. (ok (answered (tail_of lines (log_of container)) 200), w);
  read_text = λ pod container lines w. (ok (answered container 200), w);
  stream = λ log w. (ok log, w);
  write_file = λ path text w. (ok tt, w);
}

abbrev gone : Kubernetes
gone = record serving { read_log = λ pod container lines w. (ok (api_exception 404 "gone"), w) }

serving-IsServing : IsServing serving
serving-IsServing = record {
  content = λ pod container lines. tail_of lines (log_of container);
  served = λ pod container lines w. (_, 200, w, w, refl, omega arith, refl);
}

abbrev build : TaskRun
build = record {
  pipeline_task_name = "build-aws";
  pod_name = "pod-1";
  steps =
      record { name = "clone"; container = "step-clone"; exit_code = some 0 }
      ∷ record { name = "build"; container = "step-build"; exit_code = some 1 }
      ∷ [];
  reasons = "Failed" ∷ [];
  task_results = some (record { name = "build_result"; value = first_key } ∷ []);
}

abbrev all_steps : TaskRunInfo
all_steps = record {
  name = "build-aws";
  pod_name = "pod-1";
  steps = ("clone", "step-clone") ∷ ("build", "step-build") ∷ [];
}

abbrev failed_steps : TaskRunInfo
failed_steps = record {
  name = "build-aws";
  pod_name = "pod-1";
  steps = ("build", "step-build") ∷ [];
}

infos_all : get_task_run_infos false (build ∷ []) ≡ ok (all_steps ∷ [])
unfolding get_task_run_infos insert
infos_all = refl

infos_failed : get_task_run_infos true (build ∷ []) ≡ ok (failed_steps ∷ [])
unfolding get_task_run_infos insert
infos_failed = refl

entry_name : zip_comp "build-aws" 1 "build" ≡ "build-aws/01_build.log"
unfolding zip_comp
entry_name = refl

get_and_zip_logs-entries_example :
    (w' : ℕ) × (get_and_zip_logs serving (some 1) false (build ∷ []) 0
      ≡ (ok (entries_of (asked_for serving serving-IsServing (some 1)) (all_steps ∷ [])), w'))
get_and_zip_logs-entries_example =
    get_and_zip_logs-entries serving serving-IsServing (some 1) false (build ∷ []) (all_steps ∷ [])
      0 infos_all

get_and_zip_logs_raises_example :
    (e : Error) × (w' : ℕ) × (get_and_zip_logs gone (some 15) true (build ∷ []) 0 ≡ (err e, w'))
get_and_zip_logs_raises_example =
    get_and_zip_logs_raises gone (some 15) true (build ∷ []) "build-aws" "pod-1" "build"
      "step-build" [] [] 404 "gone" 0 0 infos_failed refl

its_result : get_task_result (build ∷ []) "build-aws" "build_result" ≡ some first_key
unfolding get_task_result
its_result = refl

abbrev build_dict : Dict (Option String)
build_dict = ("build-aws", some first_key) ∷ ("build-gcp", none) ∷ []

abbrev one_logged : List Entry
unfolding upload_release_manifest
one_logged =
    upload_release_manifest memory one_release "bucket" first_key
      (online (with_logfile (log_file "bucket" "objects/build_log.zip") first_release))

log_attached :
    attach_logs_to_single_manifest memory registry 9 build_dict "bucket" "objects/build_log.zip"
      one_release
    ≡ (ok tt, one_logged)
unfolding attach_logs_to_single_manifest strip lstrip rstrip is_space basename split attach_log
    log_file with_logfile built release_manifest one_release one_logged
    canonical_release_manifest_key_suffix canonicalised_features feature_by_name map_result
    included_features join first_release sorted difference keep to_set contains descriptor_beq
    take_chars place text_leb upper attributes online_manifest upload_release_manifest
log_attached = refl

attach_logs_to_single_manifest-logged_example :
    ((k : String)
      → release_manifest memory one_logged "bucket" k true
        ≡ logged
            (log_file "bucket" "objects/build_log.zip")
            (contains (built_keys build_dict) k)
            (release_manifest memory one_release "bucket" k true))
    × IsKeyed memory registry 9 one_logged "bucket"
attach_logs_to_single_manifest-logged_example =
    attach_logs_to_single_manifest-logged memory registry 9 memory-IsLawful "bucket"
      "objects/build_log.zip" build_dict one_release one_logged tt one_release-IsKeyed log_attached
