-- ===== src/Tests/TektonRuns.antt =====
-- Pipeline runs, as ci/tkn/util.py reads them.
use gardenlinux.Prelude.{
  lower, text_leb, sorted, ℕ, zero, suc, ◌≡◌, ◌≤◌, ◌<◌, ◌*◌, refl, Option, none, some, List, [],
  ◌∷◌, arith,
}
use gardenlinux.Prelude.Result.{Result, ok, ◌>>=◌, map_result}
use gardenlinux.Tekton.{
  running, failed, succeeded, TknCondition, Observed, TaskRun, wait_for_pipelinerun_status,
  pipeline_taskrun_status,
}
use gardenlinux.Tekton.Wait.{
  HasReached, IsWaiting, wait_for_pipelinerun_status-HasReached, wait_for_pipelinerun_status_total,
}
use gardenlinux.Tekton.Summary.{reading, sorted_out, pipeline_taskrun_status-sorted_out}

abbrev is_running : TknCondition
is_running = record {
  last_transition_time = 3;
  message = "";
  reason = running;
  status = "Unknown";
  type = "Succeeded";
}

abbrev is_over : TknCondition
is_over = record {
  last_transition_time = 9;
  message = "";
  reason = succeeded;
  status = "True";
  type = "Succeeded";
}

-- No status at first, then the run runs, then it has succeeded.
abbrev seen : ℕ → Result (Option TknCondition)
seen zero = ok none
seen (suc zero) = ok (some is_running)
seen (suc (suc n)) = ok (some is_over)

abbrev quick : Observed
quick = record { status = seen; passed_seconds = λ n. n * 15 }

quick_reached : wait_for_pipelinerun_status quick succeeded 60 5 0 ≡ some (ok tt)
unfolding wait_for_pipelinerun_status
quick_reached = refl

wait_for_pipelinerun_status-HasReached_example :
    (k : ℕ) × (0 ≤ k)
    × HasReached quick succeeded 60 k
    × ((m : ℕ) → 0 ≤ m → m < k → IsWaiting quick succeeded 60 m)
wait_for_pipelinerun_status-HasReached_example =
    wait_for_pipelinerun_status-HasReached quick succeeded 60 5 0 quick_reached

every_interval : (m : ℕ) → m * 15 ≤ quick.passed_seconds m
every_interval m = omega arith

wait_for_pipelinerun_status_total_example :
    (r : Result (Unit {0})) × (wait_for_pipelinerun_status quick failed 60 6 0 ≡ some r)
wait_for_pipelinerun_status_total_example =
    wait_for_pipelinerun_status_total quick failed 60 15 5 every_interval (omega arith)

abbrev two_tasks : List TaskRun
two_tasks =
    (record { pipeline_task_name = "build"; conditions = some (is_running ∷ is_over ∷ []) })
    ∷ (record { pipeline_task_name = "promote"; conditions = some (is_running ∷ []) })
    ∷ []

two_tasks_summary :
    pipeline_taskrun_status two_tasks
    ≡ ok (record {
      succeeded_names = "build" ∷ [];
      pending_names = "promote" ∷ [];
      failed_details = [];
    })
unfolding pipeline_taskrun_status sorted text_leb lower
two_tasks_summary = refl

pipeline_taskrun_status-sorted_out_example :
    pipeline_taskrun_status two_tasks ≡ (do rs ← map_result reading two_tasks; ok (sorted_out rs))
pipeline_taskrun_status-sorted_out_example = pipeline_taskrun_status-sorted_out two_tasks
