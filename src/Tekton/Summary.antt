-- ===== src/Tekton/Summary.antt =====
-- The loop of `pipeline_taskrun_status`, and the task runs sorted out by their statuses.
use mathlib.Core.List.{append-nil, append_assoc}
use gardenlinux.Prelude.{
  ◌≡◌, refl, ap, ◌∙◌, String, Bool, ◌&&◌, not, Option, none, some, List, [], ◌∷◌, ◌++◌, map, keep,
  Bool-cases, inl, inr,
}
use gardenlinux.Prelude.Result.{Result, ok, err, ◌>>=◌, map_result}
use gardenlinux.Tekton.{
  TknCondition, TaskRun, FailedTask, TaskStatusSummary, run_status, is_status, summarised,
  condition_of, summarise, pipeline_taskrun_status,
}

-- A task run with its status.
pub record Read : Type 0 where
  pub name : String
  pub condition : TknCondition

pub reading : TaskRun → Result Read
reading t = do
  status ← run_status t.conditions
  condition ← condition_of status
  ok (record { name = t.pipeline_task_name; condition = condition })

abbrev name_of : Read → String
name_of r = r.name

abbrev failure_of : Read → FailedTask
failure_of r = record { name = r.name; message = r.condition.message }

abbrev pub has_succeeded : Read → Bool
has_succeeded r = is_status "true" r.condition

abbrev pub is_pending : Read → Bool
is_pending r = not (is_status "true" r.condition) && is_status "unknown" r.condition

abbrev pub has_failed : Read → Bool
has_failed r = not (is_status "true" r.condition) && not (is_status "unknown" r.condition)

-- The task runs by their statuses, each list in their order.
pub sorted_out : List Read → TaskStatusSummary
sorted_out rs = record {
  succeeded_names = map name_of (keep has_succeeded rs);
  pending_names = map name_of (keep is_pending rs);
  failed_details = map failure_of (keep has_failed rs);
}

abbrev joined : TaskStatusSummary → TaskStatusSummary → TaskStatusSummary
joined s t = record {
  succeeded_names = s.succeeded_names ++ t.succeeded_names;
  pending_names = s.pending_names ++ t.pending_names;
  failed_details = s.failed_details ++ t.failed_details;
}

joined-sorted_out :
    (r : Read) (rs : List Read) (s : TaskStatusSummary)
    → joined (summarised r.name r.condition s) (sorted_out rs) ≡ joined s (sorted_out (r ∷ rs))
unfolding summarised sorted_out keep
joined-sorted_out r rs s = elim (Bool-cases (is_status "true" r.condition)) [
  | inl success ↦ rw (success, append_assoc)
  | inr other ↦ elim (Bool-cases (is_status "unknown" r.condition)) [
    | inl unknown ↦ rw (other, unknown, append_assoc)
    | inr over ↦ rw (other, over, append_assoc)
  ]
]

after_first :
    (r : Read) (m : Result (List Read)) (s : TaskStatusSummary)
    → (m >>= λ rs. ok (joined (summarised r.name r.condition s) (sorted_out rs)))
      ≡ ((m >>= λ rs. ok (r ∷ rs)) >>= λ rs. ok (joined s (sorted_out rs)))
after_first r (err e) s = refl
after_first r (ok rs) s = ap ok (joined-sorted_out r rs s)

by_status :
    (t : TaskRun) (ts : List TaskRun) (s : TaskStatusSummary)
    → ((u : TaskStatusSummary)
        → summarise ts u ≡ (map_result reading ts >>= λ rs. ok (joined u (sorted_out rs))))
    → (x : Result (Option TknCondition))
    → (x >>= λ status.
        condition_of status >>= λ c. summarise ts (summarised t.pipeline_task_name c s))
      ≡ ((x >>= λ status.
            condition_of status >>= λ c. ok (record { name = t.pipeline_task_name; condition = c }))
          >>= (λ r. map_result reading ts >>= λ rs. ok (r ∷ rs))
          >>= λ rs. ok (joined s (sorted_out rs)))
unfolding condition_of
by_status t ts s h (err e) = refl
by_status t ts s h (ok none) = refl
by_status t ts s h (ok (some c)) =
    h (summarised t.pipeline_task_name c s)
    ∙ after_first (record { name = t.pipeline_task_name; condition = c }) (map_result reading ts) s

summarise-sorted_out :
    (ts : List TaskRun) (s : TaskStatusSummary)
    → summarise ts s ≡ (map_result reading ts >>= λ rs. ok (joined s (sorted_out rs)))
unfolding summarise map_result reading sorted_out keep
summarise-sorted_out [] s =
    rw (append-nil s.succeeded_names, append-nil s.pending_names, append-nil s.failed_details) refl
summarise-sorted_out (t ∷ ts) s =
    by_status t ts s (summarise-sorted_out ts) (run_status t.conditions)

-- The summary of task runs, or the first exception, is that of reading each and sorting them out by
-- their statuses: succeeded, pending and all others, each list in the order of the runs.
pub pipeline_taskrun_status-sorted_out :
    (ts : List TaskRun)
    → pipeline_taskrun_status ts ≡ (do rs ← map_result reading ts; ok (sorted_out rs))
unfolding pipeline_taskrun_status sorted_out
pipeline_taskrun_status-sorted_out ts = summarise-sorted_out ts _
