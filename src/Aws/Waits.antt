-- ===== src/Aws/Waits.antt =====
-- The ends of the waits for EC2.
use gardenlinux.Prelude.{
  ℕ, zero, suc, ◌≡◌, ◌<◌, refl, ap, ◌⊎◌, inl, inr, String, true, false, none, some, [], ◌∷◌,
  Bool-cases, arith,
}
use gardenlinux.Prelude.Result.{ok, err, runtime_error}
use gardenlinux.Aws.{
  Ec2, ImageState, available, image_state, is_erroneous, state_beq, current_image_state,
  wait_for_image_state,
}

state_beq-eq : (s t : ImageState) → state_beq s t ≡ true → s ≡ t
state_beq-eq s t h = ground arith

state_beq_refl : (s : ImageState) → state_beq s s ≡ true
state_beq_refl s = ground arith

module _ (E : Ec2) where
  open E use {World}

  -- EC2 answers about an image, and as long as the image is neither in a state nor in an erroneous
  -- one it comes nearer to the end of that.
  abbrev pub IsSettling : String → String → ImageState → (World → ℕ) → Type 0
  IsSettling region image_id target rank =
      (w : World)
      → (text : String) × (state : ImageState) × (w' : World) × (E.describe_states region image_id w
          ≡ (ok (text ∷ []), w'))
        × (image_state text ≡ ok state)
        × ((state ≡ target) ⊎ ((is_erroneous state ≡ true) ⊎ (rank w' < rank w)))

  -- Where EC2 answers about an image, and the image settles, the wait for a state ends, by one poll
  -- more than the rank of the start: the image is in that state, or the wait raises a
  -- `RuntimeError`.
  pub wait_for_image_state_total :
      (region image_id : String) (target : ImageState) (rank : World → ℕ)
      → IsSettling region image_id target rank
      → (polls : ℕ) (w : World) → rank w < polls
      → (w' : World) × ((wait_for_image_state E polls region image_id target w
            ≡ some (ok target, w'))
          ⊎ (wait_for_image_state E polls region image_id target w ≡ some (err runtime_error, w')))
  unfolding wait_for_image_state current_image_state
  wait_for_image_state_total region image_id target rank settles zero w h = absurd (omega arith)
  wait_for_image_state_total region image_id target rank settles (suc polls) w h =
      let (text, state, w', e, read, which) = settles w in
      elim (Bool-cases (state_beq state target)) [
        | inl there ↦ (
          w',
          inl (rw (e, read, there) (ap (λ s. some (ok s, w')) (state_beq-eq state target there))),
        )
        | inr other ↦ elim (Bool-cases (is_erroneous state)) [
          | inl bad ↦ (w', inr (rw (e, read, other, bad) refl))
          | inr good ↦
              let (v, end) =
                wait_for_image_state_total region image_id target rank settles polls w'
                  (settled w w' state other good which h) in
              (
                v,
                elim end [
                  | inl done ↦ inl (rw (e, read, other, good) done)
                  | inr raised ↦ inr (rw (e, read, other, good) raised)
                ],
              )
        ]
      ]
    where
      settled :
          (w w' : World) (state : ImageState)
          → state_beq state target ≡ false
          → is_erroneous state ≡ false
          → ((state ≡ target) ⊎ ((is_erroneous state ≡ true) ⊎ (rank w' < rank w)))
          → rank w < suc polls
          → rank w' < polls
      settled w w' state other good (inl e) h =
          absurd (ground (arith, state_beq_refl target, rw e at other))
      settled w w' state other good (inr (inl bad)) h = absurd (ground arith)
      settled w w' state other good (inr (inr less)) h = omega arith

  -- The wait for an image to be available that EC2 says is deregistered, each time that it is asked,
  -- goes on for any number of polls.
  pub wait_for_image_state_deregistered :
      (region image_id : String)
      → ((w : World)
          → (w' : World) × (E.describe_states region image_id w ≡ (ok ("deregistered" ∷ []), w')))
      → (polls : ℕ) (w : World) → wait_for_image_state E polls region image_id available w ≡ none
  unfolding wait_for_image_state current_image_state image_state is_erroneous
  wait_for_image_state_deregistered region image_id says zero w = refl
  wait_for_image_state_deregistered region image_id says (suc polls) w =
      let (w', e) = says w in rw e (wait_for_image_state_deregistered region image_id says polls w')
