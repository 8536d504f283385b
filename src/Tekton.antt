-- ===== src/Tekton.antt =====
-- The status of pipeline runs and the wait for it (ci/tkn/util.py).
pub mod Latest
pub mod Wait
pub mod Summary
use gardenlinux.Prelude.{
  ℕ, zero, suc, ◌≡◌, String, Bool, true, false, Option, none, some, List, [], ◌∷◌, ◌++◌, ◌==◌,
  if◌then◌else◌, string_eq, nat_eq, ltb, sorted, lower, codes, list_eq,
}
use gardenlinux.Prelude.Result.{
  Result, ok, err, Error, index_error, attribute_error, runtime_error, not_implemented_error, ◌>>=◌,
}

pub data StatusReason : Type 0 where
  running failed succeeded pipeline_run_stopping pipeline_run_cancelled : StatusReason
  task_run_cancelled exceeded_node_resources : StatusReason

abbrev reason_number : StatusReason → ℕ
reason_number running = 0
reason_number failed = 1
reason_number succeeded = 2
reason_number pipeline_run_stopping = 3
reason_number pipeline_run_cancelled = 4
reason_number task_run_cancelled = 5
reason_number exceeded_node_resources = 6

-- `a is b`
abbrev pub is_reason : StatusReason → StatusReason → Bool
is_reason a b = nat_eq.equals (reason_number a) (reason_number b)

-- `TknCondition`, with the time that `isoparse` reads
pub record TknCondition : Type 0 where
  pub last_transition_time : ℕ
  pub message : String
  pub reason : StatusReason
  pub status : String
  pub type : String

-- `conditions[-1]`
last_of : List TknCondition → Result TknCondition
last_of [] = err index_error
last_of (c ∷ []) = ok c
last_of (c ∷ d ∷ rest) = last_of (d ∷ rest)

-- `_run_status`, of the conditions that the entity has, if it has a status
unfoldable pub run_status : Option (List TknCondition) → Result (Option TknCondition)
unfolding last_of
run_status none = ok none
run_status (some conditions) = do
  latest_condition ← last_of (sorted (λ (c : TknCondition). c.last_transition_time ∷ []) conditions)
  ok (some latest_condition)

-- What one pass of the loop does.
pub data Pass : Type 0 where
  reached waiting : Pass
  raised : Error → Pass

abbrev pub reason_of : Option TknCondition → Option StatusReason
reason_of none = none
reason_of (some c) = some c.reason

abbrev pub in_target : StatusReason → Option StatusReason → Bool
in_target target none = false
in_target target (some r) = is_reason r target

-- The tests after the one for the target.
unfoldable pub judged : Bool → Option StatusReason → Pass
judged exceeded (some failed) = raised runtime_error
judged exceeded (some pipeline_run_cancelled) = raised runtime_error
judged exceeded none = if exceeded then raised runtime_error else waiting
judged exceeded (some running) = if exceeded then raised runtime_error else waiting
judged exceeded (some pipeline_run_stopping) = if exceeded then raised runtime_error else waiting
judged exceeded (some _) = raised not_implemented_error

-- One pass: the status that was read, and whether the timeout is exceeded.
unfoldable pub pass : StatusReason → Bool → Result (Option TknCondition) → Pass
unfolding judged
pass target exceeded (err e) = raised e
pass target exceeded (ok status) =
    if in_target target (reason_of status) then reached else judged exceeded (reason_of status)

-- What is observed: the status that a pass reads, and the seconds that have passed at its end.
pub record Observed : Type 0 where
  pub status : ℕ → Result (Option TknCondition)
  pub passed_seconds : ℕ → ℕ

continued : Pass → Option (Result (Unit {0})) → Option (Result (Unit {0}))
continued reached later = some (ok tt)
continued (raised e) later = some (err e)
continued waiting later = later

-- `wait_for_pipelinerun_status`, from one pass on; `none` says that the given number of passes was
-- not enough.
unfoldable pub wait_for_pipelinerun_status :
    Observed → StatusReason → ℕ → ℕ → ℕ → Option (Result (Unit {0}))
unfolding pass continued
wait_for_pipelinerun_status o target timeout_seconds zero n = none
wait_for_pipelinerun_status o target timeout_seconds (suc fuel) n =
    let later = wait_for_pipelinerun_status o target timeout_seconds fuel (suc n) in
    continued (pass target (ltb timeout_seconds (o.passed_seconds n)) (o.status n)) later

pub record TaskRun : Type 0 where
  pub pipeline_task_name : String
  pub conditions : Option (List TknCondition)

pub record FailedTask : Type 0 where
  pub name : String
  pub message : String

pub record TaskStatusSummary : Type 0 where
  pub succeeded_names : List String
  pub pending_names : List String
  pub failed_details : List FailedTask

-- `status.status.lower() == text`
unfoldable pub is_status : String → TknCondition → Bool
is_status text c = lower c.status == codes text

-- One turn of the loop, with the lists that are extended.
unfoldable pub summarised : String → TknCondition → TaskStatusSummary → TaskStatusSummary
unfolding is_status
summarised name c s =
    if is_status "true" c
    then record s { succeeded_names = s.succeeded_names ++ (name ∷ []) }
    else if is_status "unknown" c
    then record s { pending_names = s.pending_names ++ (name ∷ []) }
    else record s {
      failed_details = s.failed_details ++ (record { name = name; message = c.message } ∷ []);
    }

-- An attribute of `None` is asked for.
condition_of : Option TknCondition → Result TknCondition
condition_of none = err attribute_error
condition_of (some c) = ok c

-- The loop of `pipeline_taskrun_status`
unfoldable pub summarise : List TaskRun → TaskStatusSummary → Result TaskStatusSummary
unfolding summarised condition_of run_status
summarise [] s = ok s
summarise (t ∷ ts) s = do
  status ← run_status t.conditions
  condition ← condition_of status
  summarise ts (summarised t.pipeline_task_name condition s)

unfoldable pub pipeline_taskrun_status : List TaskRun → Result TaskStatusSummary
unfolding summarise
pipeline_taskrun_status taskruns =
    summarise taskruns (record { succeeded_names = []; pending_names = []; failed_details = [] })
