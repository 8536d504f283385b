-- ===== src/Prelude/Members.antt =====
-- Membership in a list as a relation, for types whose equality is not tested.
use Prim.Native.Nat.{ℕ, suc}
use mathlib.Core.Path.{◌≡◌, refl, sym, subst, ap, ◌∙◌}
use mathlib.Core.Bool.{true}
use mathlib.Core.Logic.{◌⊎◌, inl, inr}
use mathlib.Core.List.{List, [], ◌∷◌, ◌++◌, map}
use native.Mathlib.Omega.{arith}
use gardenlinux.Prelude.Tests.{Eq, ◌==◌, Bool-cases, eq_of_beq}
use gardenlinux.Prelude.Sort.{place, sorted}
use gardenlinux.Prelude.Text.{text_leb}
use gardenlinux.Prelude.Lists.{contains, flat_map, length}
use gardenlinux.Prelude.Result.{Result, ok, map_result, map_result-cons}

pub data In {ℓ} {A : Type ℓ} (a : A) : List A → Type ℓ where
  here : {xs : List A} → In a (a ∷ xs)
  there : {b : A} {xs : List A} → In a xs → In a (b ∷ xs)

module _ {ℓ} {A : Type ℓ} where
  pub In-cons : {a b : A} {xs : List A} → In a (b ∷ xs) → (b ≡ a) ⊎ In a xs
  In-cons here = inl refl
  In-cons (there m) = inr m

  pub In-head : {a b : A} {xs : List A} → b ≡ a → In a (b ∷ xs)
  In-head {b} {xs} e = subst (λ x. In x (b ∷ xs)) e here

  pub In-append_left : {a : A} {xs : List A} (ys : List A) → In a xs → In a (xs ++ ys)
  In-append_left ys here = here
  In-append_left ys (there m) = there (In-append_left ys m)

  pub In-append_right : {a : A} (xs : List A) {ys : List A} → In a ys → In a (xs ++ ys)
  In-append_right [] m = m
  In-append_right (x ∷ xs) m = there (In-append_right xs m)

  In-append : {a : A} (xs ys : List A) → In a (xs ++ ys) → In a xs ⊎ In a ys
  In-append [] ys m = inr m
  In-append (x ∷ xs) ys here = inl here
  In-append (x ∷ xs) ys (there m) = elim (In-append xs ys m) [
    | inl h ↦ inl (there h)
    | inr h ↦ inr h
  ]

module _ {ℓ κ} {A : Type ℓ} {B : Type κ} where
  pub In-map : {x : A} {xs : List A} (f : A → B) → In x xs → In (f x) (map f xs)
  In-map f here = here
  In-map f (there m) = there (In-map f m)

  pub map-In : {y : B} (f : A → B) (xs : List A) → In y (map f xs) → (x : A) × In x xs × (f x ≡ y)
  map-In f [] m = elim m [ ]
  map-In f (x ∷ xs) m = elim (In-cons m) [
    | inl e ↦ (x, here, e)
    | inr h ↦ let (x', k, e) = map-In f xs h in (x', there k, e)
  ]

  pub In-flat_map :
      {x : A} {y : B} {xs : List A} (f : A → List B) → In x xs → In y (f x) → In y (flat_map f xs)
  unfolding flat_map
  In-flat_map f here m = In-append_left _ m
  In-flat_map f (there {b = b} h) m = In-append_right (f b) (In-flat_map f h m)

  pub flat_map-In :
      {y : B} (f : A → List B) (xs : List A) → In y (flat_map f xs) → (x : A) × In x xs × In y (f x)
  unfolding flat_map
  flat_map-In f [] m = elim m [ ]
  flat_map-In f (x ∷ xs) m = elim (In-append (f x) (flat_map f xs) m) [
    | inl h ↦ (x, here, h)
    | inr h ↦ let (x', k, e) = flat_map-In f xs h in (x', there k, e)
  ]

  -- What a comprehension that does not raise yields.
  pub In-map_result :
      (f : A → Result B) {x : A} {y : B} (xs : List A) (ys : List B)
      → map_result f xs ≡ ok ys
      → f x ≡ ok y
      → In x xs
      → In y ys
  In-map_result f [] ys e p m = elim m [ ]
  In-map_result f {x} (w ∷ xs) ys e p m =
      let (z, zs, q, r, s) = map_result-cons f w xs ys e in
      elim (In-cons m) [
        | inl same ↦ subst (In _) (sym s) (In-head (cc (ap f same)))
        | inr h ↦ subst (In _) (sym s) (there (In-map_result f xs zs r p h))
      ]

  pub map_result-In :
      (f : A → Result B) {y : B} (xs : List A) (ys : List B)
      → map_result f xs ≡ ok ys
      → In y ys
      → (x : A) × In x xs × (f x ≡ ok y)
  unfolding map_result
  map_result-In f {y} [] ys e m =
      let none_left : ys ≡ [] = cc in elim (subst (In y) none_left m) [ ]
  map_result-In f {y} (x ∷ xs) ys e m =
      let (z, zs, q, r, s) = map_result-cons f x xs ys e in
      elim (In-cons (subst (In y) s m)) [
        | inl same ↦ (x, here, q ∙ ap ok same)
        | inr h ↦ let (x', k, p) = map_result-In f xs zs r h in (x', there k, p)
      ]

  pub length-map_result :
      (f : A → Result B) (xs : List A) (ys : List B)
      → map_result f xs ≡ ok ys
      → length ys ≡ length xs
  unfolding map_result
  length-map_result f [] ys e = let none_left : ys ≡ [] = cc in ap length none_left
  length-map_result f (x ∷ xs) ys e =
      let (z, zs, q, r, s) = map_result-cons f x xs ys e in
      ap length s ∙ ap suc (length-map_result f xs zs r)

module _ {ℓ} {A : Type ℓ} ⦃e : Eq A⦄ where
  pub contains-In : (xs : List A) {a : A} → In a xs → contains xs a ≡ true
  unfolding contains
  contains-In [] m = elim m [ ]
  contains-In (x ∷ xs) {a} m = elim (In-cons m) [
    | inl same ↦ ground (arith, e.equals_iff x a)
    | inr h ↦ ground (arith, contains-In xs h)
  ]

  pub In-contains : (xs : List A) {a : A} → contains xs a ≡ true → In a xs
  unfolding contains
  In-contains [] h = absurd (ground arith)
  In-contains (x ∷ xs) {a} h = elim (Bool-cases (x == a)) [
    | inl same ↦ In-head (eq_of_beq x a same)
    | inr other ↦ there (In-contains xs (ground arith))
  ]

module _ {ℓ} {A : Type ℓ} (key : A → List ℕ) where
  In-place : {b : A} (a : A) (xs : List A) → (a ≡ b) ⊎ In b xs → In b (place key a xs)
  unfolding place
  In-place a [] (inl e) = In-head e
  In-place a [] (inr m) = elim m [ ]
  In-place a (x ∷ xs) h = elim (Bool-cases (text_leb (key a) (key x))) [
    | inl below ↦ rw below (elim h [ inl e ↦ In-head e | inr m ↦ there m ])
    | inr above ↦ rw above (elim h [
      | inl e ↦ there (In-place a xs (inl e))
      | inr m ↦ elim (In-cons m) [ inl e ↦ In-head e | inr k ↦ there (In-place a xs (inr k)) ]
    ])
  ]

  place-In : {b : A} (a : A) (xs : List A) → In b (place key a xs) → (a ≡ b) ⊎ In b xs
  unfolding place
  place-In a [] m = In-cons m
  place-In {b} a (x ∷ xs) m = elim (Bool-cases (text_leb (key a) (key x))) [
    | inl below ↦ In-cons (rw below at m)
    | inr above ↦ elim (In-cons {xs = place key a xs} (rw above at m)) [
      | inl e ↦ inr (In-head e)
      | inr k ↦ elim (place-In a xs k) [ inl e ↦ inl e | inr i ↦ inr (there i) ]
    ]
  ]

  pub In-sorted : {b : A} (xs : List A) → In b xs → In b (sorted key xs)
  unfolding sorted
  In-sorted [] m = m
  In-sorted (x ∷ xs) m =
      In-place x (sorted key xs) (elim (In-cons m) [ inl e ↦ inl e | inr k ↦ inr (In-sorted xs k) ])

  pub sorted-In : {b : A} (xs : List A) → In b (sorted key xs) → In b xs
  unfolding sorted
  sorted-In [] m = m
  sorted-In (x ∷ xs) m = elim (place-In x (sorted key xs) m) [
    | inl e ↦ In-head e
    | inr k ↦ there (sorted-In xs k)
  ]
