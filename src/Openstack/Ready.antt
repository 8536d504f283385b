-- ===== src/Openstack/Ready.antt =====
-- The end of the wait for an image on OpenStack.
use gardenlinux.Prelude.{
  ℕ, zero, suc, ◌+◌, ◌*◌, ◌-◌, ◌≡◌, ◌≤◌, ◌<◌, refl, ◌⊎◌, inl, inr, String, some, ltb, Bool-cases,
  ◌==◌, string_eq, arith,
}
use gardenlinux.Prelude.Result.{Result, ok, err, runtime_error}
use gardenlinux.Openstack.{
  Glance, OpenstackEnvironment, wait_interval_seconds, ready_timeout, is_pending, ready_from,
  wait_image_ready,
}

-- The clock shows the time and never goes back, asking for an image returns, and a sleep takes the
-- seconds that it is given, or more.
pub record IsTicking (G : Glance) (time : G.World → ℕ) : Type 0 where
  pub now_lem : (w : G.World) → (w' : G.World) × (G.now w ≡ (ok (time w), w')) × (time w ≤ time w')
  pub image_status_lem :
      (environment : OpenstackEnvironment) (image_id : String) (w : G.World)
      → (status : String) × (w' : G.World) × (G.image_status environment image_id w
          ≡ (ok status, w'))
        × (time w ≤ time w')
  pub sleep_lem :
      (seconds : ℕ) (w : G.World)
      → (w' : G.World) × (G.sleep seconds w ≡ (ok tt, w')) × (time w + seconds ≤ time w')

module _ (G : Glance) (time : G.World → ℕ) (ticking : IsTicking G time)
    (environment : OpenstackEnvironment) (image_id : String) where
  open G use {World}

  abbrev Ends : (Result (Unit {0}) → World → Type 0) → Type 0
  Ends reached = (w' : World) × (reached (ok tt) w' ⊎ reached (err runtime_error) w')

  -- A pass ends the wait, or sleeps before the timeout and leaves the rest to the others.
  pass_total :
      (k start : ℕ) (w : World)
      → ((v : World)
          → time w + wait_interval_seconds ≤ time v
          → time w ≤ start + ready_timeout
          → Ends (λ r w'. ready_from G k environment image_id start v ≡ some (r, w')))
      → Ends (λ r w'. ready_from G (suc k) environment image_id start w ≡ some (r, w'))
  unfolding ready_from
  pass_total k start w rest =
      let (w₁, e₁, le₁) = ticking.now_lem w in
      let (status, w₂, e₂, le₂) = ticking.image_status_lem environment image_id w₁ in
      let (w₃, e₃, le₃) = ticking.sleep_lem wait_interval_seconds w₂ in
      elim (Bool-cases (ltb ready_timeout (time w - start))) [
        | inl late ↦ (w₁, inr (rw (e₁, late) refl))
        | inr early ↦ elim (Bool-cases (is_pending status)) [
          | inl pending ↦
              let (w', end) = rest w₃ (omega arith) (ground arith) in
              (
                w',
                elim end [
                  | inl done ↦ inl (rw (e₁, early, e₂, pending, e₃) done)
                  | inr raised ↦ inr (rw (e₁, early, e₂, pending, e₃) raised)
                ],
              )
          | inr settled ↦ elim (Bool-cases (status == "active")) [
            | inl there ↦ (w₂, inl (rw (e₁, early, e₂, settled, there) refl))
            | inr bad ↦ (w₂, inr (rw (e₁, early, e₂, settled, bad) refl))
          ]
        ]
      ]

  ready_from_total :
      (k start : ℕ) (w : World)
      → start + ready_timeout < time w + k * wait_interval_seconds
      → Ends (λ r w'. ready_from G (suc k) environment image_id start w ≡ some (r, w'))
  ready_from_total zero start w h = pass_total zero start w (λ v le early. absurd (omega arith))
  ready_from_total (suc k) start w h =
      pass_total (suc k) start w (λ v le early. ready_from_total k start v (omega arith))

  -- Where the clock goes on, the wait for an image ends after 362 passes at the latest: the image is
  -- active, or the wait raises a `RuntimeError`.
  pub wait_image_ready_total :
      (passes : ℕ) (w : World)
      → 361 < passes
      → Ends (λ r w'. wait_image_ready G passes environment image_id w ≡ some (r, w'))
  unfolding wait_image_ready
  wait_image_ready_total zero w h = absurd (omega arith)
  wait_image_ready_total (suc k) w h =
      let (w₁, e₁, le₁) = ticking.now_lem w in
      let (w', end) = ready_from_total k (time w) w₁ (omega arith) in (w', rw e₁ end)
