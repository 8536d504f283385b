-- ===== src/Model/Modifiers/Unordered.antt =====
-- Modifiers in another order, or given more than once.
pub mod Features
use mathlib.Core.Path.{ap₂}
use gardenlinux.Prelude.{
  ℕ, nat_eq, ◌≡◌, refl, sym, ap, subst, ◌∙◌, ◌↔◌, inl, inr, String, true, List, [], ◌∷◌, map,
  list_eq, list_beq_iff, ◌==◌, string_eq, Bool-cases, contains, to_set, union, difference, upper,
  sorted, NoDup, to_set-NoDup, keep-NoDup, difference-NoDup, KeyInjective, IsSorted-unique,
  sorted-NoDup, sorted-IsSorted, contains-to_set, eq_of_beq, beq_refl, arith,
}
use gardenlinux.Prelude.Result.{ok, >>=-ok, map_result}
use gardenlinux.Model.Features.{
  FeatureDescriptor, descriptor_eq, feature_by_name, included_features,
}
use gardenlinux.Model.Features.Closure.{contains-feature_by_name, name-feature_by_name}
use gardenlinux.Model.Modifiers.{
  names, normalised_modifiers, subtract_platform, drop_included, canonicalised_features,
}
use gardenlinux.Model.Modifiers.Selected.{
  Selected, given, implied, of_platform, names-contains, found-map_result, map_result-found,
}
use gardenlinux.Model.Modifiers.Normalised.{normalised_modifiers_members, Run, run}
use gardenlinux.Model.Modifiers.Idempotent.{
  both_true, map_result-total, add_included-reads, add_included-total, Selected-reads,
}
use gardenlinux.Model.Modifiers.Canonical.{
  IsImplied, by, drop_included-cons, canonicalised_features_members,
}

-- The same names, in any order, each as often as one likes.
abbrev pub SameNames : List String → List String → Type 0
SameNames ms ns = (x : String) → contains ms x ≡ contains ns x

-- No two features differ in case alone.
abbrev pub IsCased : List FeatureDescriptor → Type 0
IsCased features =
    (a b : String) (f g : FeatureDescriptor)
    → feature_by_name features a ≡ ok f
    → feature_by_name features b ≡ ok g
    → upper a ≡ upper b
    → a ≡ b

contains-upper :
    (xs : List String) (b : String)
    → contains xs b ≡ true
    → contains (map upper xs) (upper b) ≡ true
unfolding contains
contains-upper [] b h = cc
contains-upper (x ∷ xs) b h = elim (Bool-cases (x == b)) [
  | inl same ↦
      let e = ap upper (eq_of_beq x b same) in ground (arith, list_beq_iff (upper x) (upper b), e)
  | inr other ↦ ground (arith, contains-upper xs b)
]

NoDup-KeyInjective : (xs : List String) → NoDup (map upper xs) → KeyInjective upper xs
unfolding contains
NoDup-KeyInjective [] h a b m n e = cc
NoDup-KeyInjective (x ∷ xs) (fresh, h) a b m n e = elim (Bool-cases (x == a)) [
  | inl left ↦ elim (Bool-cases (x == b)) [
    | inl right ↦ sym (eq_of_beq x a left) ∙ eq_of_beq x b right
    | inr other ↦
        let there = contains-upper xs b (ground arith) in
        let at_x = ap upper (eq_of_beq x a left) ∙ e in
        absurd (ground (arith, rw (← at_x) at there, fresh))
  ]
  | inr other ↦ elim (Bool-cases (x == b)) [
    | inl right ↦
        let there = contains-upper xs a (ground arith) in
        let at_x = ap upper (eq_of_beq x b right) ∙ sym e in
        absurd (ground (arith, rw (← at_x) at there, fresh))
    | inr neither ↦ NoDup-KeyInjective xs h a b (ground arith) (ground arith) e
  ]
]

-- Which can be seen from the names.
pub IsCased-names :
    (features : List FeatureDescriptor) → NoDup (map upper (names features)) → IsCased features
IsCased-names features h a b f g p q e =
    NoDup-KeyInjective (names features) h a b
      (ap (contains (names features)) (sym (name-feature_by_name features a f p))
        ∙ names-contains features f (contains-feature_by_name features a f p))
      (ap (contains (names features)) (sym (name-feature_by_name features b g q))
        ∙ names-contains features g (contains-feature_by_name features b g q))
      e

module _ (features : List FeatureDescriptor) where
  Selected-SameNames :
      {platform x : String} {ms ns : List String}
      → SameNames ms ns
      → Selected features platform ms x
      → Selected features platform ns x
  Selected-SameNames same (given x h) = given x (sym (same x) ∙ h)
  Selected-SameNames same (implied m f g h b q) = implied m f g (sym (same m) ∙ h) b q
  Selected-SameNames same (of_platform f g b q) = of_platform f g b q

  module _ (depth : ℕ) where
    normalised-SameNames :
        {platform : String} {ms l : List String} (ns : List String)
        → SameNames ms ns
        → Run features depth platform ms l
        → (l' : List String) × (normalised_modifiers features depth platform ns ≡ ok l')
    unfolding normalised_modifiers
    normalised-SameNames {ms} ns same r =
        let (fs, p) = map_result-total features ns (λ m c.
          let (f, b, _) = map_result-found features ms r.found m r.named_modifiers (same m ∙ c) in
          (f, b)) in
        let (all, q) =
          add_included-total features depth (to_set fs) (to_set (names (to_set fs))) (λ f c.
            let (d, b) = found-map_result features ns fs f p (sym (contains-to_set fs f) ∙ c) in
            let (g, b', c') =
              map_result-found features ms r.found f.name r.named_modifiers (same f.name ∙ d) in
            let (k, q') =
              add_included-reads features depth (to_set r.found) _ r.all g r.added
                (contains-to_set r.found g ∙ c') in
            let one : f ≡ g = cc in (k, ap (included_features features depth true) one ∙ q')) in
        (sorted upper (union all (names r.included)), rw (r.named_platform, p, q, r.read))

    Run-cased :
        {platform : String} {ms l : List String}
        → IsCased features
        → Run features depth platform ms l
        → ((x : String) → contains l x ≡ true → Selected features platform ms x)
        → KeyInjective upper l
    Run-cased cased r members a b m n e =
        let (f, _, p, _) = Selected-reads features depth r (members a m) in
        let (g, _, q, _) = Selected-reads features depth r (members b n) in cased a b f g p q e

  -- Where no two features differ in case alone, modifiers with the same names normalise to the same.
  pub normalised_modifiers_unordered :
      (depth : ℕ) (platform : String) (ms ns l : List String)
      → IsCased features
      → SameNames ms ns
      → normalised_modifiers features depth platform ms ≡ ok l
      → normalised_modifiers features depth platform ns ≡ ok l
  normalised_modifiers_unordered depth platform ms ns l cased same e =
      let r = run features depth platform ms l e in
      let (l', e') = normalised-SameNames depth ns same r in
      let (s, u, members) = normalised_modifiers_members features depth platform ms l e in
      let (s', u', members') = normalised_modifiers_members features depth platform ns l' e' in
      let injective = Run-cased depth cased r (λ x c. (members x).0 c) in
      e'
      ∙ ap ok (
          sym (
            IsSorted-unique upper l l' s s' u u' injective (λ x.
              both_true (contains l x) (contains l' x)
                (λ c. (members' x).1 (Selected-SameNames same ((members x).0 c)))
                (λ c. (members x).1 (Selected-SameNames (λ y. sym (same y)) ((members' x).0 c))))))
