-- ===== src/Model/Modifiers/Idempotent.antt =====
-- Normalising normalised modifiers.
use gardenlinux.Prelude.{
  ℕ, ◌≡◌, refl, sym, ap, subst, ◌∙◌, inl, inr, String, Bool, true, false, List, [], ◌∷◌, ◌==◌,
  string_eq, Bool-cases, contains, to_set, union, upper, KeyInjective, IsSorted-unique, sorted,
  contains-to_set, eq_of_beq, beq_refl, arith,
}
use gardenlinux.Prelude.Result.{ok, map_result}
use gardenlinux.Model.Features.{
  FeatureDescriptor, descriptor_eq, feature_by_name, included_features,
}
use gardenlinux.Model.Features.Closure.{
  named, Reaches, one, more, Reaches-trans, name-feature_by_name,
}
use gardenlinux.Model.Features.Included.{included_features-Reaches}
use gardenlinux.Model.Modifiers.{names, add_included, normalised_modifiers}
use gardenlinux.Model.Modifiers.Selected.{
  Selected, given, implied, of_platform, found-map_result, map_result-found,
}
use gardenlinux.Model.Modifiers.Normalised.{
  normalised_modifiers_members, Run, run, add_included-cons,
}

pub both_true : (a b : Bool) → (a ≡ true → b ≡ true) → (b ≡ true → a ≡ true) → a ≡ b
both_true true b h k = sym (h refl)
both_true false true h k = k refl
both_true false false h k = refl

module _ (features : List FeatureDescriptor) where
  -- A feature that is reached is found under its name.
  pub feature_by_name-Reaches :
      {f g : FeatureDescriptor} → Reaches features f g → feature_by_name features g.name ≡ ok g
  feature_by_name-Reaches (one (named f g name c p)) =
      ap (feature_by_name features) (name-feature_by_name features name g p) ∙ p
  feature_by_name-Reaches (more i r) = feature_by_name-Reaches r

  pub map_result-total :
      (ms : List String)
      → ((m : String)
          → contains ms m ≡ true
          → (f : FeatureDescriptor) × (feature_by_name features m ≡ ok f))
      → (fs : List FeatureDescriptor) × (map_result (feature_by_name features) ms ≡ ok fs)
  unfolding map_result contains
  map_result-total [] h = ([], refl)
  map_result-total (m ∷ ms) h =
      let (f, p) = h m (ground (arith, beq_refl m)) in
      let (fs, q) = map_result-total ms (λ n c. h n (ground arith)) in (f ∷ fs, rw (p, q))

  module _ (depth : ℕ) where
    pub add_included-reads :
        (ms : List FeatureDescriptor) (all l : List String) (m : FeatureDescriptor)
        → add_included features depth ms all ≡ ok l
        → contains ms m ≡ true
        → (k : List FeatureDescriptor) × (included_features features depth true m ≡ ok k)
    unfolding contains
    add_included-reads [] all l m e c = cc
    add_included-reads (n ∷ ms) all l m e c =
        let (inc, p, q) = add_included-cons features depth n ms all l e in
        elim (Bool-cases (n == m)) [
          | inl same ↦
              (inc, ap (included_features features depth true) (sym (eq_of_beq n m same)) ∙ p)
          | inr other ↦ add_included-reads ms (union all (names inc)) l m q (ground arith)
        ]

    pub add_included-total :
        (ms : List FeatureDescriptor) (all : List String)
        → ((m : FeatureDescriptor)
            → contains ms m ≡ true
            → (k : List FeatureDescriptor) × (included_features features depth true m ≡ ok k))
        → (l : List String) × (add_included features depth ms all ≡ ok l)
    unfolding add_included contains
    add_included-total [] all h = (all, refl)
    add_included-total (m ∷ ms) all h =
        let (k, p) = h m (ground (arith, descriptor_eq.equals_iff m m)) in
        let (l, q) = add_included-total ms (union all (names k)) (λ n c. h n (ground arith)) in
        (l, rw p q)

    -- A selected name belongs to a feature whose dependencies are found.
    pub Selected-reads :
        {platform : String} {modifiers l : List String} {x : String}
        → Run features depth platform modifiers l
        → Selected features platform modifiers x
        → (f : FeatureDescriptor) × (k : List FeatureDescriptor) × (feature_by_name features x
            ≡ ok f)
          × (included_features features depth true f ≡ ok k)
    Selected-reads {modifiers} r (given x h) =
        let (f, b, c) = map_result-found features modifiers r.found x r.named_modifiers h in
        let (k, p) =
          add_included-reads (to_set r.found) _ r.all f r.added (contains-to_set r.found f ∙ c) in
        (f, k, b, p)
    Selected-reads {modifiers} r (implied m f g h b q) =
        let (f', b', c) = map_result-found features modifiers r.found m r.named_modifiers h in
        let (k, p) =
          add_included-reads (to_set r.found) _ r.all f' r.added (contains-to_set r.found f' ∙ c) in
        let same : f' ≡ f = cc in
        let (k', p') =
          included_features-Reaches features depth k p
            (subst (λ n. Reaches features n g) (sym same) q) in
        (g, k', feature_by_name-Reaches q, p')
    Selected-reads r (of_platform f g b q) =
        let same : r.platform_feature ≡ f = cc (r.named_platform) in
        let (k', p') =
          included_features-Reaches features depth r.included r.read
            (subst (λ n. Reaches features n g) (sym same) q) in
        (g, k', feature_by_name-Reaches q, p')

  -- What a selected name depends on is selected.
  Selected-Reaches :
      {platform : String} {modifiers : List String} {x : String} (f g : FeatureDescriptor)
      → Selected features platform modifiers x
      → feature_by_name features x ≡ ok f
      → Reaches features f g
      → Selected features platform modifiers g.name
  Selected-Reaches f g (given x h) b q = implied x f g h b q
  Selected-Reaches f g (implied m f' g' h b' q') b q =
      let same : f ≡ g' = cc (feature_by_name-Reaches q') in
      implied m f' g h b' (Reaches-trans features q' (subst (λ n. Reaches features n g) same q))
  Selected-Reaches f g (of_platform f' g' b' q') b q =
      let same : f ≡ g' = cc (feature_by_name-Reaches q') in
      of_platform f' g b' (Reaches-trans features q' (subst (λ n. Reaches features n g) same q))

  Selected-Selected :
      {platform : String} {modifiers l : List String} {x : String}
      → ((y : String) → contains l y ≡ true → Selected features platform modifiers y)
      → Selected features platform l x
      → Selected features platform modifiers x
  Selected-Selected h (given x c) = h x c
  Selected-Selected h (implied m f g c b q) = Selected-Reaches f g (h m c) b q
  Selected-Selected h (of_platform f g b q) = of_platform f g b q

  normalised_again :
      (depth : ℕ) (platform : String) (modifiers l : List String)
      → normalised_modifiers features depth platform modifiers ≡ ok l
      → (l' : List String) × (normalised_modifiers features depth platform l ≡ ok l')
  unfolding normalised_modifiers
  normalised_again depth platform modifiers l e =
      let r = run features depth platform modifiers l e in
      let (_, _, members) = normalised_modifiers_members features depth platform modifiers l e in
      let (fs, p) =
        map_result-total l
          (λ m c. let (f, k, b, q) = Selected-reads depth r ((members m).0 c) in (f, b)) in
      let (all, q) = add_included-total depth (to_set fs) (to_set (names (to_set fs))) (λ f c.
        let (d, b) = found-map_result features l fs f p (sym (contains-to_set fs f) ∙ c) in
        let (f', k, b', q') = Selected-reads depth r ((members f.name).0 d) in
        let same : f ≡ f' = cc in (k, ap (included_features features depth true) same ∙ q')) in
      (sorted upper (union all (names r.included)), rw (r.named_platform, p, q, r.read))

  -- Normalised modifiers, normalised again for the same platform, are unchanged, if no two of them
  -- differ in case alone.
  pub normalised_modifiers_idempotent :
      (depth : ℕ) (platform : String) (modifiers l : List String)
      → normalised_modifiers features depth platform modifiers ≡ ok l
      → KeyInjective upper l
      → normalised_modifiers features depth platform l ≡ ok l
  normalised_modifiers_idempotent depth platform modifiers l e inj =
      let (l', e') = normalised_again depth platform modifiers l e in
      let (s, u, members) = normalised_modifiers_members features depth platform modifiers l e in
      let (s', u', members') = normalised_modifiers_members features depth platform l l' e' in
      e'
      ∙ ap ok (
          sym (
            IsSorted-unique upper l l' s s' u u' inj (λ x.
              both_true (contains l x) (contains l' x) (λ c. (members' x).1 (given x c))
                (λ c.
                  (members x).1 (Selected-Selected (λ y d. (members y).0 d) ((members' x).0 c))))))
