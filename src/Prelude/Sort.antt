-- ===== src/Prelude/Sort.antt =====
-- `sorted(xs, key=…)`: a stable sort by a text.
use Prim.Native.Nat.{ℕ}
use mathlib.Core.Path.{◌≡◌, refl, ap₂}
use mathlib.Core.Bool.{true, false, ◌||◌}
use mathlib.Core.Logic.{inl, inr}
use mathlib.Core.List.{List, [], ◌∷◌}
use native.Mathlib.Omega.{arith}
use gardenlinux.Prelude.Tests.{Eq, ◌==◌, if◌then◌else◌, Bool-cases, eq_of_beq}
use gardenlinux.Prelude.Lists.{contains, All}
use gardenlinux.Prelude.Sets.{NoDup}
use gardenlinux.Prelude.Text.{text_leb, text_leb_total, text_leb_trans, text_leb_antisymm}

module _ {ℓ} {A : Type ℓ} (key : A → List ℕ) where
  unfoldable pub place : A → List A → List A
  place a [] = a ∷ []
  place a (b ∷ bs) = if text_leb (key a) (key b) then a ∷ b ∷ bs else b ∷ place a bs

  unfoldable pub sorted : List A → List A
  unfolding place
  sorted [] = []
  sorted (a ∷ rest) = place a (sorted rest)

  abbrev pub IsBelow : A → A → Type 0
  IsBelow a b = text_leb (key a) (key b) ≡ true

  -- Each element is at most every later one.
  abbrev pub IsSorted : List A → Type 0
  IsSorted [] = Unit
  IsSorted (a ∷ rest) = All (IsBelow a) rest × IsSorted rest

  IsBelow-place :
      (b a : A) (xs : List A) → IsBelow b a → All (IsBelow b) xs → All (IsBelow b) (place a xs)
  unfolding place
  IsBelow-place b a [] h k = (h, tt)
  IsBelow-place b a (x ∷ xs) h (k, ks) = ground (arith, IsBelow-place b a xs h ks)

  IsBelow-trans : (a b : A) (xs : List A) → IsBelow a b → All (IsBelow b) xs → All (IsBelow a) xs
  IsBelow-trans a b [] h k = tt
  IsBelow-trans a b (x ∷ xs) h (k, ks) =
      (text_leb_trans (key a) (key b) (key x) h k, IsBelow-trans a b xs h ks)

  place-IsSorted : (a : A) (xs : List A) → IsSorted xs → IsSorted (place a xs)
  unfolding place
  place-IsSorted a [] h = (tt, tt)
  place-IsSorted a (x ∷ xs) (h, s) = elim (Bool-cases (text_leb (key a) (key x))) [
    | inl below ↦ rw below ((below, IsBelow-trans a x xs below h), (h, s))
    | inr above ↦
        rw above
          (IsBelow-place x a xs (text_leb_total (key a) (key x) above) h, place-IsSorted a xs s)
  ]

  pub sorted-IsSorted : (xs : List A) → IsSorted (sorted xs)
  unfolding sorted
  sorted-IsSorted [] = tt
  sorted-IsSorted (x ∷ xs) = place-IsSorted x (sorted xs) (sorted-IsSorted xs)

module _ {ℓ} {A : Type ℓ} ⦃e : Eq A⦄ (key : A → List ℕ) where
  contains-place :
      (a : A) (xs : List A) (b : A) → contains (place key a xs) b ≡ (a == b || contains xs b)
  unfolding place contains
  contains-place a [] b = refl
  contains-place a (x ∷ xs) b = ground (arith, contains-place a xs b)

  pub contains-sorted : (xs : List A) (b : A) → contains (sorted key xs) b ≡ contains xs b
  unfolding sorted contains
  contains-sorted [] b = refl
  contains-sorted (x ∷ xs) b =
      ground (arith, contains-place x (sorted key xs) b, contains-sorted xs b)

  place-NoDup : (a : A) (xs : List A) → contains xs a ≡ false → NoDup xs → NoDup (place key a xs)
  unfolding place contains
  place-NoDup a [] h k = (refl, tt)
  place-NoDup a (x ∷ xs) h (fresh, k) = ground (
    arith,
    place-NoDup a xs (ground arith) k,
    contains-place a xs x,
    e.equals_iff a x,
    e.equals_iff x a,
  )

  pub sorted-NoDup : (xs : List A) → NoDup xs → NoDup (sorted key xs)
  unfolding sorted
  sorted-NoDup [] h = tt
  sorted-NoDup (x ∷ xs) (fresh, h) =
      place-NoDup x (sorted key xs) (rw contains-sorted fresh) (sorted-NoDup xs h)

  All-contains :
      (a b : A) (xs : List A) → All (IsBelow key a) xs → contains xs b ≡ true → IsBelow key a b
  unfolding contains
  All-contains a b [] h m = cc
  All-contains a b (x ∷ xs) (h, k) m = elim (Bool-cases (x == b)) [
    | inl same ↦ rw (← eq_of_beq x b same) h
    | inr different ↦ All-contains a b xs k (ground arith)
  ]

  -- Members with one key are one.
  abbrev pub KeyInjective : List A → Type ℓ
  KeyInjective xs = (a b : A) → contains xs a ≡ true → contains xs b ≡ true → key a ≡ key b → a ≡ b

  -- A sorted list without repetition is known by its members.
  pub IsSorted-unique :
      (xs ys : List A)
      → IsSorted key xs
      → IsSorted key ys
      → NoDup xs
      → NoDup ys
      → KeyInjective xs
      → ((a : A) → contains xs a ≡ contains ys a)
      → xs ≡ ys
  unfolding contains
  IsSorted-unique [] [] _ _ _ _ _ same = refl
  IsSorted-unique [] (y ∷ ys) _ _ _ _ _ same = absurd (ground (arith, same y, e.equals_iff y y))
  IsSorted-unique (x ∷ xs) [] _ _ _ _ _ same = absurd (ground (arith, same x, e.equals_iff x x))
  IsSorted-unique (x ∷ xs) (y ∷ ys) (bx, sx) (by, sy) (nx, dx) (ny, dy) inj same = ap₂ ◌∷◌ head_eq (
      IsSorted-unique xs ys sx sy dx dy (λ a b m n. inj a b (ground arith) (ground arith))
        (λ a. ground (arith, same a, head_eq, e.equals_iff x a, e.equals_iff y a)))
    where
      apart : (x == y) ≡ false → x ≡ y
      apart h =
          inj x y (ground (arith, e.equals_iff x x)) (ground (arith, same y, e.equals_iff y y)) (
            text_leb_antisymm (key x) (key y)
              (All-contains x y xs bx (ground (arith, same y, e.equals_iff y y)))
              (All-contains y x ys by
                (ground (arith, same x, e.equals_iff x x, e.equals_iff x y, e.equals_iff y x))))

      head_eq : x ≡ y
      head_eq = elim (Bool-cases (x == y)) [ inl h ↦ eq_of_beq x y h | inr h ↦ apart h ]
