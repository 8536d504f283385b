-- ===== src/Prelude/Result.antt =====
-- Code that may raise: the value, or the class of the exception.
use Prim.Native.Nat.{ℕ}
use Prim.Native.String.{String}
use mathlib.Core.Path.{◌≡◌, refl}
use mathlib.Core.Bool.{Bool, true, false}
use mathlib.Core.List.{List, [], ◌∷◌, ◌++◌}

-- Messages are dropped; `sys.exit` carries its status and a `ClientError` its code.
pub data Error : Type 0 where
  value_error runtime_error type_error key_error index_error : Error
  recursion_error not_implemented_error attribute_error exception : Error
  system_exit : ℕ → Error
  client_error : String → Error

pub data Result {ℓ} (A : Type ℓ) : Type ℓ where
  ok : A → Result A
  err : Error → Result A

-- `if not condition: raise raised`
abbrev pub guard : (condition : Bool) (raised : Error) → Result (Unit {0})
guard false raised = err raised
guard true raised = ok tt

module _ {κ ι} {Before : Type κ} {After : Type ι} where
  infixl 5 ◌>>=◌
  abbrev pub ◌>>=◌ : Result Before → (Before → Result After) → Result After
  err raised >>= next = err raised
  ok value >>= next = next value

  -- Code that returns has returned at its first statement.
  pub >>=-ok :
      (first : Result Before) (next : Before → Result After) {returned : After}
      (h : (first >>= next) ≡ ok returned)
      → (value : Before) × (first ≡ ok value) × (next value ≡ ok returned)
  >>=-ok (err raised) next h = cc
  >>=-ok (ok value) next h = (value, refl, h)

  infixl 5 ◌>>◌
  abbrev pub ◌>>◌ : Result Before → Result After → Result After
  first >> next = first >>= λ _. next

-- A comprehension whose body may raise: the first exception ends it.
unfoldable pub map_result {ℓ κ} :
    {A : Type ℓ} {B : Type κ} → (A → Result B) → List A → Result (List B)
map_result f [] = ok []
map_result f (x ∷ xs) = do y ← f x; ys ← map_result f xs; ok (y ∷ ys)

pub map_result-cons {ℓ κ} :
    {A : Type ℓ} {B : Type κ} (f : A → Result B) (x : A) (xs : List A) (l : List B)
    → map_result f (x ∷ xs) ≡ ok l
    → (y : B) × (ys : List B) × (f x ≡ ok y) × (map_result f xs ≡ ok ys) × (l ≡ y ∷ ys)
unfolding map_result
map_result-cons f x xs l h =
    let (y, p, h₁) = >>=-ok (f x) _ h in
    let (ys, q, h₂) = >>=-ok (map_result f xs) _ h₁ in (y, ys, p, q, cc h₂)

abbrev pub append_results {ℓ} : {A : Type ℓ} → Result (List A) → Result (List A) → Result (List A)
append_results r t = do xs ← r; ys ← t; ok (xs ++ ys)

module _ {ℓ} {B : Type ℓ} where
  pub append_results-nil : (r : Result (List B)) → append_results (ok []) r ≡ r
  append_results-nil (ok zs) = refl
  append_results-nil (err e) = refl

  append_results-cons :
      (r : Result B) (s t u : Result (List B))
      → append_results s t ≡ u
      → append_results (r >>= λ y. s >>= λ zs. ok (y ∷ zs)) t ≡ (r >>= λ y. u >>= λ zs. ok (y ∷ zs))
  append_results-cons (ok y) (ok zs) (ok ws) u h = rw (← h)
  append_results-cons (ok y) (ok zs) (err e) u h = rw (← h)
  append_results-cons (ok y) (err e) t u h = rw (← h)
  append_results-cons (err e) s t u h = refl

-- Two loops in a row are one loop over both lists.
pub map_result-append {ℓ κ} :
    {A : Type ℓ} {B : Type κ} (f : A → Result B) (xs ys : List A)
    → append_results (map_result f xs) (map_result f ys) ≡ map_result f (xs ++ ys)
unfolding map_result
map_result-append f [] ys = append_results-nil (map_result f ys)
map_result-append f (x ∷ xs) ys =
    append_results-cons (f x) (map_result f xs) (map_result f ys) (map_result f (xs ++ ys))
      (map_result-append f xs ys)

pub ok_injective {ℓ} : {A : Type ℓ} → {x y : A} → ok x ≡ ok y → x ≡ y
ok_injective e = cc
