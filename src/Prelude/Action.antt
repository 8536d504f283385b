-- ===== src/Prelude/Action.antt =====
-- Code that changes the state of a service and may raise: the result, and the state that it leaves.
use mathlib.Core.Path.{◌≡◌, refl, ap}
use mathlib.Core.Bool.{Bool, true, false}
use mathlib.Core.List.{List, [], ◌∷◌}
use gardenlinux.Prelude.Result.{Result, ok, err, Error, ok_injective}

abbrev pub Action : Type 0 → Type 0 → Type 0
Action State A = State → Result A × State

module _ {State : Type 0} {A : Type 0} where
  abbrev pub return : A → Action State A
  return a s = (ok a, s)

  abbrev pub raise : Error → Action State A
  raise e s = (err e, s)

  -- A computation without effect.
  abbrev pub lift : Result A → Action State A
  lift r s = (r, s)

-- `if not condition: raise raised`
abbrev pub check : {State : Type 0} → (condition : Bool) (raised : Error) → Action State (Unit {0})
check true e s = (ok tt, s)
check false e s = (err e, s)

module _ {State : Type 0} {Before : Type 0} {After : Type 0} where
  abbrev pub proceed : Result Before × State → (Before → Action State After) → Result After × State
  proceed (ok a, s) next = next a s
  proceed (err e, s) next = (err e, s)

  infixl 5 ◌>>=◌
  abbrev pub ◌>>=◌ : Action State Before → (Before → Action State After) → Action State After
  ◌>>=◌ first next s = proceed (first s) next

  infixl 5 ◌>>◌
  abbrev pub ◌>>◌ : Action State Before → Action State After → Action State After
  ◌>>◌ first next s = proceed (first s) (λ _. next)

  proceed_inversion :
      (m : Result Before × State) (next : Before → Action State After) {b : After} {t : State}
      → proceed m next ≡ (ok b, t)
      → (a : Before) × (u : State) × (m ≡ (ok a, u)) × (next a u ≡ (ok b, t))
  proceed_inversion (ok a, u) next h = (a, u, refl, h)
  proceed_inversion (err e, u) next h = cc

  -- Code that returns has returned at its first statement.
  pub >>=-returned :
      (first : Action State Before) (next : Before → Action State After) (s : State) {b : After}
      {t : State}
      → (first >>= next) s ≡ (ok b, t)
      → (a : Before) × (u : State) × (first s ≡ (ok a, u)) × (next a u ≡ (ok b, t))
  >>=-returned first next s h = proceed_inversion (first s) next h

-- A loop over a collection, for the effects of its body.
unfoldable pub for_each :
    {State A : Type 0} → (A → Action State (Unit {0})) → List A → Action State (Unit {0})
for_each body [] = return tt
for_each body (x ∷ xs) = do body x; for_each body xs

-- A handler for exceptions.
abbrev pub except : {State A : Type 0} → Action State A → (Error → Action State A) → Action State A
except {State} {A} body handler s = handled (body s) handler
  where
    handled : Result A × State → (Error → Action State A) → Result A × State
    handled (ok a, t) handler = (ok a, t)
    handled (err e, t) handler = handler e t

-- Code of one service among two.
module _ {First : Type 0} {Second : Type 0} {A : Type 0} where
  abbrev beside_second : Second → Result A × First → Result A × (First × Second)
  beside_second t (r, s) = (r, (s, t))

  abbrev beside_first : First → Result A × Second → Result A × (First × Second)
  beside_first s (r, t) = (r, (s, t))

  abbrev pub on_first : Action First A → Action (First × Second) A
  on_first action (s, t) = beside_second t (action s)

  abbrev pub on_second : Action Second A → Action (First × Second) A
  on_second action (s, t) = beside_first s (action t)

pub return-returned :
    {State A : Type 0} (a b : A) (s u : State) → return a s ≡ (ok b, u) → (a ≡ b) × (s ≡ u)
return-returned a b s u h = (ok_injective (ap (λ p. p.0) h), ap (λ p. p.1) h)

-- What has returned before code that returns.
module _ {State : Type 0} {A : Type 0} {B : Type 0} where
  pub lift-returned :
      (r : Result A) (next : A → Action State B) (s : State) {b : B} {u : State}
      → (lift r >>= next) s ≡ (ok b, u)
      → (a : A) × (r ≡ ok a) × (next a s ≡ (ok b, u))
  lift-returned (ok a) next s h = (a, refl, h)
  lift-returned (err e) next s h = cc

module _ {First : Type 0} {Second : Type 0} {A : Type 0} {B : Type 0} where
  pub on_first-returned :
      (action : Action First A) (next : A → Action (First × Second) B) (s : First) (t : Second)
      {b : B} {u : First × Second}
      → (on_first action >>= next) (s, t) ≡ (ok b, u)
      → (a : A) × (s' : First) × (action s ≡ (ok a, s')) × (next a (s', t) ≡ (ok b, u))
  on_first-returned action next s t h = split (action s) h
    where
      split :
          (r : Result A × First) {b : B} {u : First × Second}
          → proceed (beside_second t r) next ≡ (ok b, u)
          → (a : A) × (s' : First) × (r ≡ (ok a, s')) × (next a (s', t) ≡ (ok b, u))
      split (ok a, s') h = (a, s', refl, h)
      split (err e, s') h = cc

  pub on_second-returned :
      (action : Action Second A) (next : A → Action (First × Second) B) (s : First) (t : Second)
      {b : B} {u : First × Second}
      → (on_second action >>= next) (s, t) ≡ (ok b, u)
      → (a : A) × (t' : Second) × (action t ≡ (ok a, t')) × (next a (s, t') ≡ (ok b, u))
  on_second-returned action next s t h = split (action t) h
    where
      split :
          (r : Result A × Second) {b : B} {u : First × Second}
          → proceed (beside_first s r) next ≡ (ok b, u)
          → (a : A) × (t' : Second) × (r ≡ (ok a, t')) × (next a (s, t') ≡ (ok b, u))
      split (ok a, t') h = (a, t', refl, h)
      split (err e, t') h = cc
