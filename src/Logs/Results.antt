-- ===== src/Logs/Results.antt =====
-- `get_task_result` as the first of the results with the names.
use gardenlinux.Prelude.{
  ◌≡◌, refl, String, Option, none, some, List, [], ◌∷◌, ◌++◌, ◌==◌, string_eq, keep, flat_map,
  Bool-cases, inl, inr,
}
use gardenlinux.Logs.{TaskRun, TaskResult, result_value, or_else, run_result, get_task_result}

abbrev results_of : Option (List TaskResult) → List TaskResult
results_of none = []
results_of (some results) = results

-- All results of the task runs of a task, in their order.
pub results_of_task : String → List TaskRun → List TaskResult
results_of_task task_ref_name task_runs =
    flat_map (λ tr. results_of tr.task_results)
      (keep (λ tr. tr.pipeline_task_name == task_ref_name) task_runs)

pub first_value : List TaskResult → Option String
first_value [] = none
first_value (r ∷ results) = some r.value

abbrev named : String → List TaskResult → List TaskResult
named result_name = keep (λ r. r.name == result_name)

result_value-named :
    (result_name : String) (results : List TaskResult)
    → result_value result_name results ≡ first_value (named result_name results)
unfolding result_value keep first_value
result_value-named result_name [] = refl
result_value-named result_name (r ∷ results) = elim (Bool-cases (r.name == result_name)) [
  | inl same ↦ rw same refl
  | inr other ↦ rw other (result_value-named result_name results)
]

named-append :
    (result_name : String) (results more : List TaskResult)
    → first_value (named result_name (results ++ more))
      ≡ or_else (result_value result_name results) (first_value (named result_name more))
unfolding result_value keep first_value
named-append result_name [] more = refl
named-append result_name (r ∷ results) more = elim (Bool-cases (r.name == result_name)) [
  | inl same ↦ rw same refl
  | inr other ↦ rw other (named-append result_name results more)
]

run_result-results_of :
    (result_name : String) (results : Option (List TaskResult))
    → run_result result_name results ≡ result_value result_name (results_of results)
unfolding run_result result_value
run_result-results_of result_name none = refl
run_result-results_of result_name (some results) = refl

-- `get_task_result` gives the value of the first result with the given name among all results of
-- the task runs of the given task, in their order, and none if there is no such result.
pub get_task_result-first_value :
    (task_runs : List TaskRun) (task_ref_name result_name : String)
    → get_task_result task_runs task_ref_name result_name
      ≡ first_value (keep (λ r. r.name == result_name) (results_of_task task_ref_name task_runs))
unfolding get_task_result results_of_task keep flat_map first_value
get_task_result-first_value [] task_ref_name result_name = refl
get_task_result-first_value (tr ∷ task_runs) task_ref_name result_name =
    let later = get_task_result-first_value task_runs task_ref_name result_name in
    elim (Bool-cases (tr.pipeline_task_name == task_ref_name)) [
      | inl same ↦
          rw
            (
              same,
              named-append result_name (results_of tr.task_results)
                  (results_of_task task_ref_name task_runs),
              run_result-results_of result_name tr.task_results,
              later,
            )
            refl
      | inr other ↦ rw other later
    ]
