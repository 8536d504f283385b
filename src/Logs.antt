-- ===== src/Logs.antt =====
-- The logs of the tasks of a pipeline run (ci/logs.py): the infos of the task runs, the zip archive
-- of their logs, the excerpts of what has failed, and the results of tasks. The calls of the
-- Kubernetes client are parameters; a pipeline run is given as its task runs, in their order, and a
-- path to a file as the text that it is. The names of all tasks, which are only logged, are left out.
pub mod Results
pub mod Archive
use gardenlinux.Prelude.{
  ℕ, zero, suc, ◌+◌, ◌≡◌, String, ◌<>◌, Bool, true, false, not, Option, none, some, List, [], ◌∷◌,
  ◌++◌, ◌==◌, if◌then◌else◌, string_eq, nat_eq, nat_beq, ltb, leb,
}
use gardenlinux.Prelude.Result.{Result, ok, err, exception, index_error}
use gardenlinux.Prelude.Dicts.{Dict, insert}
use gardenlinux.Prelude.Action.{Action, return, raise, lift, ◌>>=◌, ◌>>◌}
use gardenlinux.Model.Versions.{plus, text_of}

-- A step of a task run; one that is `terminated` has an exit code.
pub record Step : Type 0 where
  pub name : String
  pub container : String
  pub exit_code : Option ℕ

pub record TaskResult : Type 0 where
  pub name : String
  pub value : String

-- What the code reads of a task run; of its conditions, the reasons.
pub record TaskRun : Type 0 where
  pub pipeline_task_name : String
  pub pod_name : String
  pub steps : List Step
  pub reasons : List String
  pub task_results : Option (List TaskResult)

pub record TaskRunInfo : Type 0 where
  pub name : String
  pub pod_name : String
  pub steps : Dict String

-- `'terminated' in step and step['terminated']['exitCode'] != 0`
unfoldable pub has_failed : Step → Bool
has_failed step = failed step.exit_code
  where
    failed : Option ℕ → Bool
    failed none = false
    failed (some n) = not (nat_beq n 0)

-- The dictionary comprehension over the steps, from what it has so far.
unfoldable pub task_steps : Bool → Dict String → List Step → Dict String
unfolding has_failed
task_steps only_failed d [] = d
task_steps only_failed d (step ∷ steps) =
    let taken = task_steps only_failed (insert step.name step.container d) steps in
    let left = task_steps only_failed d steps in
    if only_failed then (if has_failed step then taken else left) else taken

-- `conditions[0]['reason']`
first_reason : List String → Result String
first_reason [] = err index_error
first_reason (reason ∷ reasons) = ok reason

unfoldable pub do_append : Bool → TaskRun → Result Bool
unfolding first_reason
do_append false tr = ok true
do_append true tr = not_succeeded (first_reason tr.reasons)
  where
    not_succeeded : Result String → Result Bool
    not_succeeded (ok reason) = ok (not (reason == "Succeeded"))
    not_succeeded (err e) = err e

abbrev pub task_run_info : Bool → TaskRun → TaskRunInfo
task_run_info only_failed tr = record {
  name = tr.pipeline_task_name;
  pod_name = tr.pod_name;
  steps = task_steps only_failed [] tr.steps;
}

appended : TaskRunInfo → Result Bool → Result (List TaskRunInfo) → Result (List TaskRunInfo)
appended info (err e) rest = err e
appended info (ok false) rest = rest
appended info (ok true) (ok infos) = ok (info ∷ infos)
appended info (ok true) (err e) = err e

unfoldable pub get_task_run_infos : Bool → List TaskRun → Result (List TaskRunInfo)
unfolding do_append appended task_steps
get_task_run_infos only_failed [] = ok []
get_task_run_infos only_failed (tr ∷ task_runs) =
    appended (task_run_info only_failed tr) (do_append only_failed tr)
      (get_task_run_infos only_failed task_runs)

-- What reading a log comes to: data with an HTTP status, or an `ApiException` with its status and
-- its text.
pub data Answer (Log : Type 0) : Type 0 where
  answered : Log → ℕ → Answer Log
  api_exception : ℕ → String → Answer Log

pub record Kubernetes : Type 1 where
  pub World : Type 0
  -- the data of a response that is streamed, and its bytes
  pub Log : Type 0
  pub Bytes : Type 0
  -- `read_namespaced_pod_log_with_http_info` of a pod, a container, and the number of lines if any,
  -- streamed
  pub read_log : String → String → Option ℕ → Action World (Answer Log)
  -- the same, read at once
  pub read_text : String → String → Option ℕ → Action World (Answer String)
  -- all chunks of `data.stream(…)`
  pub stream : Log → Action World Bytes
  -- `open(path, 'w')` and `write`
  pub write_file : String → String → Action World (Unit {0})

-- `f'{idx:02}'`
unfoldable pub two_digits : ℕ → String
unfolding text_of
two_digits idx = if ltb idx 10 then "0" <> text_of (plus idx) else text_of (plus idx)

unfoldable pub zip_comp : String → ℕ → String → String
unfolding two_digits
zip_comp task_name idx step = task_name <> ("/" <> (two_digits idx <> ("_" <> (step <> ".log"))))

-- `if tail_lines`
abbrev pub given_lines : Option ℕ → Option ℕ
given_lines none = none
given_lines (some n) = if nat_beq n 0 then none else some n

-- What is written for an answer.
unfoldable pub excerpt : String → Answer String → String
excerpt pod_name (answered text status_code) = if leb 400 status_code then "" else text
excerpt pod_name (api_exception status text) =
    if nat_beq status 404
    then "Log for pod " <> (pod_name <> (" is already gone " <> text))
    else "Getting logs for pod " <> (pod_name <> (" failed " <> text))

unfoldable pub excerpt_header : String → String → String → String
excerpt_header pod_name step container_name =
    "### Pod: " <> (pod_name <> (", step: " <> (step <> (", container: " <> container_name))))

module _ (K : Kubernetes) where
  open K use {World, Log, Bytes, read_log, read_text, stream, write_file}

  abbrev pub Entry : Type 0
  Entry = String × Bytes

  -- The variable `log_response`, unbound before the first response, and the archive.
  abbrev pub Zip : Type 0
  Zip = Option Log × List Entry

  -- The entry of a step; an `UnboundLocalError` without any response.
  unfoldable pub write_entry : String → Option Log → List Entry → Action World Zip
  write_entry name none archive = raise exception
  write_entry name (some log) archive = do
    bytes ← stream log
    return (some log, archive ++ ((name, bytes) ∷ []))

  -- After a log was read. A status of an error leads to the next step.
  unfoldable pub zip_answer : String → Zip → Answer Log → Action World Zip
  unfolding write_entry
  zip_answer name (response, archive) (answered data_read status_code) =
      if leb 400 status_code
      then return (some data_read, archive)
      else write_entry name (some data_read) archive
  zip_answer name (response, archive) (api_exception status text) = do
    write_file name "Log file for {pod_name} could not be retrieved: {str(ex)}"
    write_entry name response archive

  -- The steps of a task run, numbered from `idx` on.
  unfoldable pub zip_steps : TaskRunInfo → Option ℕ → ℕ → Dict String → Zip → Action World Zip
  unfolding zip_answer zip_comp
  zip_steps run_info tail_lines idx [] zip = return zip
  zip_steps run_info tail_lines idx ((step, container_name) ∷ steps) zip = do
    answer ← read_log run_info.pod_name container_name (given_lines tail_lines)
    zip' ← zip_answer (zip_comp run_info.name idx step) zip answer
    zip_steps run_info tail_lines (suc idx) steps zip'

  unfoldable pub zip_infos : Option ℕ → List TaskRunInfo → Zip → Action World Zip
  unfolding zip_steps
  zip_infos tail_lines [] zip = return zip
  zip_infos tail_lines (run_info ∷ infos) zip = do
    zip' ← zip_steps run_info tail_lines 0 run_info.steps zip
    zip_infos tail_lines infos zip'

  -- The archive that is written.
  unfoldable pub get_and_zip_logs : Option ℕ → Bool → List TaskRun → Action World (List Entry)
  unfolding get_task_run_infos zip_infos
  get_and_zip_logs tail_lines only_failed task_runs = do
    task_run_infos ← lift (get_task_run_infos only_failed task_runs)
    zip ← zip_infos tail_lines task_run_infos (none, [])
    return (zip.1)

  -- The steps of a task run, behind what is in the file.
  unfoldable pub excerpts : String → ℕ → Dict String → String → Action World String
  unfolding excerpt excerpt_header
  excerpts pod_name lines [] out = return out
  excerpts pod_name lines ((step, container_name) ∷ steps) out = do
    answer ← read_text pod_name container_name (some lines)
    excerpts pod_name lines steps
        (out <> (excerpt_header pod_name step container_name <> excerpt pod_name answer))

  unfoldable pub excerpts_of : ℕ → List TaskRunInfo → String → Action World String
  unfolding excerpts
  excerpts_of lines [] out = return out
  excerpts_of lines (run_info ∷ infos) out = do
    out' ← excerpts run_info.pod_name lines run_info.steps out
    excerpts_of lines infos out'

  -- The file that is written.
  unfoldable pub get_failed_excerpts : Bool → ℕ → List TaskRun → Action World String
  unfolding get_task_run_infos excerpts_of
  get_failed_excerpts only_failed lines task_runs = do
    task_run_infos ← lift (get_task_run_infos only_failed task_runs)
    excerpts_of lines task_run_infos ""

-- The loop over the results of a task run; `return` leaves both loops.
unfoldable pub result_value : String → List TaskResult → Option String
result_value result_name [] = none
result_value result_name (r ∷ results) =
    let rest = result_value result_name results in
    if r.name == result_name then some r.value else rest

abbrev pub or_else : Option String → Option String → Option String
or_else (some v) rest = some v
or_else none rest = rest

-- `'taskResults' in tr_dict['status']`
unfoldable pub run_result : String → Option (List TaskResult) → Option String
unfolding result_value
run_result result_name none = none
run_result result_name (some results) = result_value result_name results

unfoldable pub get_task_result : List TaskRun → String → String → Option String
unfolding run_result
get_task_result [] task_ref_name result_name = none
get_task_result (tr ∷ task_runs) task_ref_name result_name =
    let rest = get_task_result task_runs task_ref_name result_name in
    if tr.pipeline_task_name == task_ref_name
    then or_else (run_result result_name tr.task_results) rest
    else rest
