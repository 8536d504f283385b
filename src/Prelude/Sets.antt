-- ===== src/Prelude/Sets.antt =====
-- Python's sets as lists without repetition. The order stands for the order of iteration, which
-- Python leaves open, so theorems speak of membership.
use Prim.Native.Nat.{◌≤◌}
use mathlib.Core.Path.{◌≡◌, refl}
use mathlib.Core.Logic.{◌↔◌}
use mathlib.Core.Bool.{Bool, true, false, ◌&&◌, ◌||◌, not}
use mathlib.Core.List.{List, [], ◌∷◌}
use native.Mathlib.Omega.{arith}
use gardenlinux.Prelude.Tests.{Eq, ◌==◌, if◌then◌else◌}
use gardenlinux.Prelude.Lists.{length, contains, is_nil, keep, contains-keep, all}

module _ {ℓ} {A : Type ℓ} ⦃e : Eq A⦄ where
  -- `s.add(a)`
  unfoldable pub add : A → List A → List A
  add a s = if contains s a then s else a ∷ s

  -- `set(xs)`
  unfoldable pub to_set : List A → List A
  unfolding add
  to_set [] = []
  to_set (x ∷ xs) = add x (to_set xs)

  -- `s | set(xs)`
  unfoldable pub union : List A → List A → List A
  unfolding add
  union s [] = s
  union s (x ∷ xs) = union (add x s) xs

  -- `s - t`
  unfoldable pub difference : List A → List A → List A
  difference s t = keep (λ a. not (contains t a)) s

  -- `s <= t`
  unfoldable pub subset : List A → List A → Bool
  subset s t = all (contains t) s

  abbrev pub NoDup : List A → Type 0
  NoDup [] = Unit
  NoDup (x ∷ xs) = (contains xs x ≡ false) × NoDup xs

  pub contains-add : (s : List A) (a b : A) → contains (add a s) b ≡ (a == b || contains s b)
  unfolding add contains
  contains-add s a b = ground (arith, e.equals_iff a b)

  pub is_nil-add : (s : List A) (a : A) → is_nil (add a s) ≡ false
  unfolding add contains
  is_nil-add [] a = refl
  is_nil-add (x ∷ xs) a = ground arith

  pub contains-to_set : (xs : List A) (a : A) → contains (to_set xs) a ≡ contains xs a
  unfolding to_set contains
  contains-to_set [] a = refl
  contains-to_set (x ∷ xs) a = ground (
    arith,
    contains-add (to_set xs) x a,
    contains-to_set xs a,
    contains-to_set xs x,
    e.equals_iff x a,
  )

  pub contains-union :
      (xs s : List A) (a : A) → contains (union s xs) a ≡ (contains s a || contains xs a)
  unfolding union contains
  contains-union [] s a = ground arith
  contains-union (x ∷ xs) s a = ground (arith, contains-add s x a, contains-union xs (add x s) a)

  pub contains-difference :
      (s t : List A) (a : A) → contains (difference s t) a ≡ (contains s a && not (contains t a))
  unfolding difference
  contains-difference s t a = contains-keep _ s a

  pub add-NoDup : (s : List A) (a : A) → NoDup s → NoDup (add a s)
  unfolding add
  add-NoDup s a h = ground arith

  pub to_set-NoDup : (xs : List A) → NoDup (to_set xs)
  unfolding to_set
  to_set-NoDup [] = tt
  to_set-NoDup (x ∷ xs) = add-NoDup (to_set xs) x (to_set-NoDup xs)

  pub union-NoDup : (xs s : List A) → NoDup s → NoDup (union s xs)
  unfolding union
  union-NoDup [] s h = h
  union-NoDup (x ∷ xs) s h = union-NoDup xs (add x s) (add-NoDup s x h)

  pub keep-NoDup : (p : A → Bool) (xs : List A) → NoDup xs → NoDup (keep p xs)
  unfolding keep
  keep-NoDup p [] h = tt
  keep-NoDup p (x ∷ xs) (fresh, h) = ground (arith, keep-NoDup p xs h, contains-keep p xs x)

  pub difference-NoDup : (s t : List A) → NoDup s → NoDup (difference s t)
  unfolding difference
  difference-NoDup s t h = keep-NoDup _ s h

  pub all_contains :
      (p : A → Bool) (xs : List A) (a : A) → all p xs ≡ true → contains xs a ≡ true → p a ≡ true
  unfolding all contains
  all_contains p [] a h m = cc
  all_contains p (x ∷ xs) a h m = ground (arith, e.equals_iff x a, all_contains p xs a)

  pub all_of_contains :
      (p : A → Bool) (xs : List A) → ((a : A) → contains xs a ≡ true → p a ≡ true) → all p xs ≡ true
  unfolding all contains
  all_of_contains p [] h = refl
  all_of_contains p (x ∷ xs) h =
      ground (arith, e.equals_iff x x, h x, all_of_contains p xs (λ a m. h a (ground arith)))

  pub is_nil-contains : (xs : List A) (a : A) → is_nil xs ≡ true → contains xs a ≡ false
  unfolding contains
  is_nil-contains [] a h = refl
  is_nil-contains (x ∷ xs) a h = cc

  is_nil_of_contains : (xs : List A) → ((a : A) → contains xs a ≡ false) → is_nil xs ≡ true
  unfolding contains
  is_nil_of_contains [] h = refl
  is_nil_of_contains (x ∷ xs) h = absurd (ground (arith, h x, e.equals_iff x x))

  -- `not (s - t)` says that `s` is a subset of `t`.
  pub is_nil-difference :
      (s t : List A)
      → (is_nil (difference s t) ≡ true) ↔ ((a : A) → contains s a ≡ true → contains t a ≡ true)
  is_nil-difference s t = (
    λ h a c. ground (arith, is_nil-contains (difference s t) a h, contains-difference s t a),
    λ h. is_nil_of_contains (difference s t) (λ a. ground (arith, contains-difference s t a, h a)),
  )

  pub length-to_set : (xs : List A) → length (to_set xs) ≤ length xs
  unfolding to_set
  length-to_set [] = omega arith
  length-to_set (x ∷ xs) = ground (arith, length-to_set xs)

  -- A list that loses nothing as a set repeats nothing.
  pub NoDup-of_length : (xs : List A) → length xs ≤ length (to_set xs) → NoDup xs
  unfolding to_set
  NoDup-of_length [] h = tt
  NoDup-of_length (x ∷ xs) h =
      ground (arith, length-to_set xs, contains-to_set xs x, NoDup-of_length xs)
