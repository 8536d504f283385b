-- ===== src/Logs/Archive.antt =====
-- What `get_and_zip_logs` writes into the archive, and when it writes none.
use mathlib.Core.List.{append-nil, append_assoc}
use gardenlinux.Prelude.{
  ℕ, suc, ◌≡◌, ◌<◌, refl, String, Bool, false, Option, none, some, List, [], ◌∷◌, ◌++◌, leb, arith,
  flat_map,
}
use gardenlinux.Prelude.Result.{Result, ok, err, Error, exception}
use gardenlinux.Prelude.Dicts.{Dict}
use gardenlinux.Prelude.Action.{Action, raise, proceed}
use gardenlinux.Logs.{
  TaskRun, TaskRunInfo, answered, api_exception, Kubernetes, zip_comp, given_lines,
  get_task_run_infos, write_entry, zip_answer, zip_steps, zip_infos, get_and_zip_logs,
}

-- A cluster that serves the logs of all containers: a response has no status of an error and
-- streams the bytes of the log, or of so many of its last lines as are asked for.
pub record IsServing (K : Kubernetes) : Type 0 where
  pub content : String → String → Option ℕ → K.Bytes
  pub served :
      (pod container : String) (lines : Option ℕ) (w : K.World)
      → (log : K.Log) × (status : ℕ) × (w₁ : K.World) × (w₂ : K.World) × (K.read_log pod container
            lines w
          ≡ (ok (answered log status), w₁))
        × (status < 400)
        × (K.stream log w₁ ≡ (ok (content pod container lines), w₂))

module _ {B : Type 0} (content : String → String → B) where
  -- The entries of the steps of a task run, numbered from `idx` on.
  pub step_entries : TaskRunInfo → ℕ → Dict String → List (String × B)
  step_entries info idx [] = []
  step_entries info idx ((step, container) ∷ steps) =
      (zip_comp info.name idx step, content info.pod_name container)
      ∷ step_entries info (suc idx) steps

  pub entries_of : List TaskRunInfo → List (String × B)
  unfolding step_entries
  entries_of infos = flat_map (λ info. step_entries info 0 info.steps) infos

module _ (K : Kubernetes) (serving : IsServing K) where
  open K use {World, Log, Bytes, read_log}
  open serving use {content, served}

  -- The logs that are asked for: their last lines, where a number of lines other than zero is given.
  abbrev pub asked_for : Option ℕ → String → String → Bytes
  asked_for lines pod container = content pod container (given_lines lines)

  zip_answer-served :
      (log : Log) (status : ℕ) (bytes : Bytes) (w w' : World) (name : String)
      (response : Option Log) (archive : List (String × Bytes))
      → status < 400
      → K.stream log w ≡ (ok bytes, w')
      → zip_answer K name (response, archive) (answered log status) w
        ≡ (ok (some log, archive ++ ((name, bytes) ∷ [])), w')
  unfolding zip_answer
  zip_answer-served log status bytes w w' name response archive fine streamed =
      let no_error : leb 400 status ≡ false = ground arith in rw (no_error, streamed) refl

  zip_steps-entries :
      (info : TaskRunInfo) (lines : Option ℕ) (idx : ℕ) (steps : Dict String)
      (response : Option Log) (archive : List (String × Bytes)) (w : World)
      → (response' : Option Log) × (w' : World) × (zip_steps K info lines idx steps
            (response, archive)
            w
          ≡ (ok (response', archive ++ step_entries (asked_for lines) info idx steps), w'))
  unfolding zip_steps step_entries
  zip_steps-entries info lines idx [] response archive w =
      (response, w, rw (append-nil archive) refl)
  zip_steps-entries info lines idx ((step, container) ∷ steps) response archive w =
      let name = zip_comp info.name idx step in
      let bytes = content info.pod_name container (given_lines lines) in
      let (log, status, w₁, w₂, read, fine, streamed) =
        served info.pod_name container (given_lines lines) w in
      let (response', w₃, later) =
        zip_steps-entries info lines (suc idx) steps (some log) (archive ++ ((name, bytes) ∷ []))
          w₂ in
      (
        response',
        w₃,
        rw
            (
              read,
              zip_answer-served log status bytes w₁ w₂ name response archive fine streamed,
              later,
              append_assoc,
            )
            refl,
      )

  zip_infos-entries :
      (lines : Option ℕ) (infos : List TaskRunInfo) (response : Option Log)
      (archive : List (String × Bytes)) (w : World)
      → (response' : Option Log) × (w' : World) × (zip_infos K lines infos (response, archive) w
          ≡ (ok (response', archive ++ entries_of (asked_for lines) infos), w'))
  unfolding zip_infos entries_of flat_map
  zip_infos-entries lines [] response archive w = (response, w, rw (append-nil archive) refl)
  zip_infos-entries lines (info ∷ infos) response archive w =
      let (response₁, w₁, first) = zip_steps-entries info lines 0 info.steps response archive w in
      let (response₂, w₂, later) =
        zip_infos-entries lines infos response₁
          (archive ++ step_entries (asked_for lines) info 0 info.steps) w₁ in
      (response₂, w₂, rw (first, later, append_assoc) refl)

  -- On a cluster that serves the logs of all containers, `get_and_zip_logs` returns for task runs
  -- whose infos can be read, and the archive has one entry for each step of each info, in their
  -- order, named for the task, the number of the step and the step, with the log of its container:
  -- its last `lines` lines where such a number is given and is not zero, and else all of it.
  pub get_and_zip_logs-entries :
      (lines : Option ℕ) (only_failed : Bool) (task_runs : List TaskRun) (infos : List TaskRunInfo)
      (w : World)
      → get_task_run_infos only_failed task_runs ≡ ok infos
      → (w' : World) × (get_and_zip_logs K lines only_failed task_runs w
          ≡ (ok (entries_of (asked_for lines) infos), w'))
  unfolding get_and_zip_logs
  get_and_zip_logs-entries lines only_failed task_runs infos w h =
      let (response, w', zipped) = zip_infos-entries lines infos none [] w in
      (w', rw (h, zipped) refl)

module _ (K : Kubernetes) where
  open K use {World, read_log}

  -- Where reading the log of the first step comes to an `ApiException`, `get_and_zip_logs` raises:
  -- it has an entry to write and no response to take it from.
  pub get_and_zip_logs_raises :
      (lines : Option ℕ) (only_failed : Bool) (task_runs : List TaskRun)
      (name pod step container : String) (steps : Dict String) (infos : List TaskRunInfo)
      (status : ℕ) (text : String) (w w₁ : World)
      → get_task_run_infos only_failed task_runs
        ≡ ok (record { name = name; pod_name = pod; steps = (step, container) ∷ steps } ∷ infos)
      → read_log pod container (given_lines lines) w ≡ (ok (api_exception status text), w₁)
      → (e : Error) × (w' : World) × (get_and_zip_logs K lines only_failed task_runs w
          ≡ (err e, w'))
  unfolding get_and_zip_logs zip_infos zip_steps zip_answer write_entry
  get_and_zip_logs_raises lines only_failed task_runs name pod step container steps infos status
        text w w₁ h gone =
      rw (h, gone)
        (raised
          (K.write_file (zip_comp name 0 step)
            "Log file for {pod_name} could not be retrieved: {str(ex)}" w₁)
          _ _ _)
    where
      raised :
          {A B C D : Type 0} (written : Result (Unit {0}) × World) (rest : A → Action World B)
          (more : B → Action World C) (last : C → Action World D)
          → (e : Error) × (w' : World) × (proceed
                (proceed (proceed (proceed written (λ _. raise exception)) rest) more)
                last
              ≡ (err e, w'))
      raised (ok _, w) rest more last = (exception, w, refl)
      raised (err e, w) rest more last = (e, w, refl)
