-- ===== src/Prelude/Run.antt =====
-- Code that changes the state of a service, may raise, and may wait: `none` says that it still
-- waits when the passes that it is allowed are used up.
use mathlib.Core.Path.{◌≡◌, refl}
use mathlib.Core.Option.{Option, none, some}
use mathlib.Core.List.{List, [], ◌∷◌}
use gardenlinux.Prelude.Result.{Result, ok, err, Error}
use gardenlinux.Prelude.Action.{Action}

abbrev pub Run : Type 0 → Type 0 → Type 0
Run State A = State → Option (Result A × State)

module _ {State : Type 0} {A : Type 0} where
  abbrev pub return : A → Run State A
  return a s = some (ok a, s)

  abbrev pub raise : Error → Run State A
  raise e s = some (err e, s)

  abbrev pub lift : Result A → Run State A
  lift r s = some (r, s)

  -- Code that does not wait.
  abbrev pub perform : Action State A → Run State A
  perform action s = some (action s)

  -- The passes are used up.
  abbrev pub waiting : Run State A
  waiting s = none

module _ {State : Type 0} {Before : Type 0} {After : Type 0} where
  abbrev pub proceed :
      Option (Result Before × State) → (Before → Run State After) → Option (Result After × State)
  proceed none next = none
  proceed (some (ok a, s)) next = next a s
  proceed (some (err e, s)) next = some (err e, s)

  infixl 5 ◌>>=◌
  abbrev pub ◌>>=◌ : Run State Before → (Before → Run State After) → Run State After
  ◌>>=◌ first next s = proceed (first s) next

  infixl 5 ◌>>◌
  abbrev pub ◌>>◌ : Run State Before → Run State After → Run State After
  ◌>>◌ first next s = proceed (first s) (λ _. next)

  proceed_inversion :
      (m : Option (Result Before × State)) (next : Before → Run State After) {b : After} {t : State}
      → proceed m next ≡ some (ok b, t)
      → (a : Before) × (u : State) × (m ≡ some (ok a, u)) × (next a u ≡ some (ok b, t))
  proceed_inversion none next h = cc
  proceed_inversion (some (ok a, u)) next h = (a, u, refl, h)
  proceed_inversion (some (err e, u)) next h = cc

  -- Code that returns has returned at its first statement.
  pub >>=-returned :
      (first : Run State Before) (next : Before → Run State After) (s : State) {b : After}
      {t : State}
      → (first >>= next) s ≡ some (ok b, t)
      → (a : Before) × (u : State) × (first s ≡ some (ok a, u)) × (next a u ≡ some (ok b, t))
  >>=-returned first next s h = proceed_inversion (first s) next h

module _ {State : Type 0} {A : Type 0} where
  abbrev pub handled : Option (Result A × State) → (Error → Run State A) → Option (Result A × State)
  handled none handler = none
  handled (some (ok a, t)) handler = some (ok a, t)
  handled (some (err e, t)) handler = handler e t

  -- A handler for exceptions.
  abbrev pub except : Run State A → (Error → Run State A) → Run State A
  except body handler s = handled (body s) handler

-- A loop over a collection, for the effects of its body.
unfoldable pub for_each :
    {State A : Type 0} → (A → Run State (Unit {0})) → List A → Run State (Unit {0})
for_each body [] = return tt
for_each body (x ∷ xs) = do body x; for_each body xs

-- Code that returns, whatever the state.
abbrev pub Returns : {State A : Type 0} → Run State A → Type 0
Returns {State} {A} run = (s : State) → (a : A) × (t : State) × (run s ≡ some (ok a, t))

module _ {State : Type 0} {Before : Type 0} {After : Type 0} where
  >>-Returns :
      (first : Run State Before) (next : Run State After)
      → Returns first
      → Returns next
      → Returns (first >> next)
  >>-Returns first next h k s = let (a, t, e) = h s in let (b, u, f) = k t in (b, u, rw e f)

module _ {State : Type 0} {A : Type 0} where
  pub for_each-Returns :
      (body : A → Run State (Unit {0})) (xs : List A)
      → ((x : A) → Returns (body x))
      → Returns (for_each body xs)
  unfolding for_each
  for_each-Returns body [] h s = (tt, s, refl)
  for_each-Returns body (x ∷ xs) h s =
      >>-Returns (body x) (for_each body xs) (h x) (for_each-Returns body xs h) s
