-- ===== src/Tekton/Wait.antt =====
-- The end of the wait for the status of a pipeline run.
use gardenlinux.Prelude.{
  ℕ, zero, suc, ◌+◌, ◌*◌, ◌≡◌, ◌≢◌, ◌≤◌, ◌<◌, ◌⊎◌, inl, inr, refl, subst, Bool, true, false, Option,
  none, some, ltb, Bool-cases, arith,
}
use gardenlinux.Prelude.Result.{Result, ok, err, Error}
use gardenlinux.Tekton.{
  StatusReason, running, failed, succeeded, pipeline_run_stopping, pipeline_run_cancelled,
  task_run_cancelled, exceeded_node_resources, TknCondition, Pass, reached, waiting, raised,
  reason_of, in_target, judged, pass, Observed, continued, wait_for_pipelinerun_status,
}

-- The reasons at which the wait goes on.
pub data IsPending : Option StatusReason → Type 0 where
  no_status : IsPending none
  runs : IsPending (some running)
  stops : IsPending (some pipeline_run_stopping)

judged-waiting :
    (exceeded : Bool) (r : Option StatusReason)
    → judged exceeded r ≡ waiting
    → IsPending r × (exceeded ≡ false)
unfolding judged
judged-waiting false none e = (no_status, refl)
judged-waiting true none e = absurd (ground arith)
judged-waiting false (some running) e = (runs, refl)
judged-waiting true (some running) e = absurd (ground arith)
judged-waiting false (some pipeline_run_stopping) e = (stops, refl)
judged-waiting true (some pipeline_run_stopping) e = absurd (ground arith)
judged-waiting b (some failed) e = absurd (ground arith)
judged-waiting b (some pipeline_run_cancelled) e = absurd (ground arith)
judged-waiting b (some succeeded) e = absurd (ground arith)
judged-waiting b (some task_run_cancelled) e = absurd (ground arith)
judged-waiting b (some exceeded_node_resources) e = absurd (ground arith)

judged-reached : (exceeded : Bool) (r : Option StatusReason) → judged exceeded r ≢ reached
unfolding judged
judged-reached b none e = ground arith
judged-reached b (some running) e = ground arith
judged-reached b (some pipeline_run_stopping) e = ground arith
judged-reached b (some failed) e = ground arith
judged-reached b (some pipeline_run_cancelled) e = ground arith
judged-reached b (some succeeded) e = ground arith
judged-reached b (some task_run_cancelled) e = ground arith
judged-reached b (some exceeded_node_resources) e = ground arith

Pass-cases : (p : Pass) → (p ≡ reached) ⊎ ((p ≡ waiting) ⊎ ((e : Error) × (p ≡ raised e)))
Pass-cases reached = inl refl
Pass-cases waiting = inr (inl refl)
Pass-cases (raised e) = inr (inr (e, refl))

module _ (o : Observed) (target : StatusReason) (timeout_seconds : ℕ) where
  -- The pass sees the run in the target state.
  pub HasReached : ℕ → Type 0
  HasReached n =
      (c : Option TknCondition) × (o.status n ≡ ok c) × (in_target target (reason_of c) ≡ true)

  -- The pass sees the run before its end, and the timeout is not exceeded.
  pub IsWaiting : ℕ → Type 0
  IsWaiting n =
      (c : Option TknCondition) × (o.status n ≡ ok c)
      × (in_target target (reason_of c) ≡ false)
      × IsPending (reason_of c)
      × (o.passed_seconds n ≤ timeout_seconds)

  pass-HasReached :
      (n : ℕ) (r : Result (Option TknCondition))
      → o.status n ≡ r
      → pass target (ltb timeout_seconds (o.passed_seconds n)) r ≡ reached
      → HasReached n
  unfolding pass HasReached
  pass-HasReached n (err e) p h = absurd (ground arith)
  pass-HasReached n (ok c) p h = elim (Bool-cases (in_target target (reason_of c))) [
    | inl there ↦ (c, p, there)
    | inr other ↦
        elim (judged-reached (ltb timeout_seconds (o.passed_seconds n)) (reason_of c)
          (rw other at h)) [ ]
  ]

  pass-IsWaiting :
      (n : ℕ) (r : Result (Option TknCondition))
      → o.status n ≡ r
      → pass target (ltb timeout_seconds (o.passed_seconds n)) r ≡ waiting
      → IsWaiting n
  unfolding pass IsWaiting
  pass-IsWaiting n (err e) p h = absurd (ground arith)
  pass-IsWaiting n (ok c) p h = elim (Bool-cases (in_target target (reason_of c))) [
    | inl there ↦ absurd (ground (arith, rw there at h))
    | inr other ↦
        let (k, q) =
          judged-waiting (ltb timeout_seconds (o.passed_seconds n)) (reason_of c) (rw other at h) in
        (c, p, other, k, ground arith)
  ]

  -- A wait that returns has ended at a pass that saw the target state, and all passes before it saw
  -- the run pending within the timeout.
  pub wait_for_pipelinerun_status-HasReached :
      (fuel n : ℕ)
      → wait_for_pipelinerun_status o target timeout_seconds fuel n ≡ some (ok tt)
      → (k : ℕ) × (n ≤ k) × HasReached k × ((m : ℕ) → n ≤ m → m < k → IsWaiting m)
  unfolding wait_for_pipelinerun_status continued
  wait_for_pipelinerun_status-HasReached zero n h = absurd (ground arith)
  wait_for_pipelinerun_status-HasReached (suc fuel) n h =
      elim (Pass-cases (pass target (ltb timeout_seconds (o.passed_seconds n)) (o.status n))) [
        | inl e ↦
            (n, omega arith, pass-HasReached n (o.status n) refl e, λ m a b. absurd (omega arith))
        | inr (inl e) ↦
            let (k, le, r, before) =
              wait_for_pipelinerun_status-HasReached fuel (suc n) (rw e at h) in
            (
              k,
              omega arith,
              r,
              λ m a b. elim (Bool-cases (ltb n m)) [
                | inl later ↦ before m (ground arith) b
                | inr same ↦ subst IsWaiting (ground arith) (pass-IsWaiting n (o.status n) refl e)
              ],
            )
        | inr (inr (x, e)) ↦ absurd (ground (arith, rw e at h))
      ]

  -- Where the timeout is exceeded no pass waits.
  not_waiting :
      (n : ℕ)
      → timeout_seconds < o.passed_seconds n
      → pass target (ltb timeout_seconds (o.passed_seconds n)) (o.status n) ≢ waiting
  unfolding IsWaiting
  not_waiting n h e =
      let (c, p, other, pending, within) = pass-IsWaiting n (o.status n) refl e in
      absurd (omega arith)

  ends :
      (fuel n : ℕ)
      → timeout_seconds < o.passed_seconds (fuel + n)
      → (r : Result (Unit {0})) × (wait_for_pipelinerun_status o target timeout_seconds (suc fuel) n
          ≡ some r)
  unfolding wait_for_pipelinerun_status continued
  ends zero n h =
      elim (Pass-cases (pass target (ltb timeout_seconds (o.passed_seconds n)) (o.status n))) [
        | inl e ↦ (ok tt, rw e refl)
        | inr (inl e) ↦
            let start : 0 + n ≡ n = omega arith in
            absurd (not_waiting n (subst (λ k. timeout_seconds < o.passed_seconds k) start h) e)
        | inr (inr (x, e)) ↦ (err x, rw e refl)
      ]
  ends (suc f) n h =
      elim (Pass-cases (pass target (ltb timeout_seconds (o.passed_seconds n)) (o.status n))) [
        | inl e ↦ (ok tt, rw e refl)
        | inr (inl e) ↦
            let shift : suc f + n ≡ f + suc n = omega arith in
            let (r, q) =
              ends f (suc n) (subst (λ k. timeout_seconds < o.passed_seconds k) shift h) in
            (r, rw e q)
        | inr (inr (x, e)) ↦ (err x, rw e refl)
      ]

  -- If by each pass at least as many polling intervals have passed as there were passes before it,
  -- the wait ends, whatever the status is: one pass more is enough than a number of passes whose
  -- intervals exceed the timeout.
  pub wait_for_pipelinerun_status_total :
      (interval passes : ℕ)
      → ((m : ℕ) → m * interval ≤ o.passed_seconds m)
      → timeout_seconds < passes * interval
      → (r : Result (Unit {0})) × (wait_for_pipelinerun_status o target timeout_seconds
            (suc passes)
            0
          ≡ some r)
  wait_for_pipelinerun_status_total interval passes slow h =
      let same : passes ≡ passes + 0 = omega arith in
      ends passes 0
        (subst (λ k. timeout_seconds < o.passed_seconds k) same (omega (arith, slow passes)))
