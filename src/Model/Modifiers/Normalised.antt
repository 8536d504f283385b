-- ===== src/Model/Modifiers/Normalised.antt =====
-- What `normalised_modifiers` returns.
use gardenlinux.Prelude.{
  ℕ, ◌≡◌, sym, ap, subst, ◌∙◌, ◌↔◌, ◌⊎◌, inl, inr, String, true, ◌||◌, List, [], ◌∷◌, ◌==◌,
  string_eq, Bool-cases, contains, to_set, union, sorted, upper, NoDup, IsSorted, sorted-IsSorted,
  contains-sorted, sorted-NoDup, contains-to_set, contains-union, to_set-NoDup, union-NoDup,
  eq_of_beq, beq_refl, arith,
}
use gardenlinux.Prelude.Result.{ok, >>=-ok, map_result}
use gardenlinux.Model.Features.{
  FeatureDescriptor, descriptor_eq, feature_by_name, included_features,
}
use gardenlinux.Model.Features.Closure.{Reaches, name-feature_by_name}
use gardenlinux.Model.Features.Included.{included_features_iff}
use gardenlinux.Model.Modifiers.{names, add_included, normalised_modifiers}
use gardenlinux.Model.Modifiers.Selected.{
  Selected, given, implied, of_platform, contains-names, names-contains, found-map_result,
  map_result-found,
}

module _ (features : List FeatureDescriptor) where
  module _ (depth : ℕ) where
    pub add_included-cons :
        (m : FeatureDescriptor) (ms : List FeatureDescriptor) (all l : List String)
        → add_included features depth (m ∷ ms) all ≡ ok l
        → (included : List FeatureDescriptor) × (included_features features depth true m
            ≡ ok included)
          × (add_included features depth ms (union all (names included)) ≡ ok l)
    unfolding add_included
    add_included-cons m ms all l e = >>=-ok (included_features features depth true m) _ e

    add_included_sound :
        (ms : List FeatureDescriptor) (all l : List String) (x : String)
        → add_included features depth ms all ≡ ok l
        → contains l x ≡ true
        → (contains all x ≡ true)
          ⊎ ((m : FeatureDescriptor) × (g : FeatureDescriptor) × (contains ms m ≡ true)
              × Reaches features m g
              × (g.name ≡ x))
    unfolding add_included contains
    add_included_sound [] all l x e h = inl (ground arith)
    add_included_sound (m ∷ ms) all l x e h =
        let (inc, p, q) = add_included-cons m ms all l e in
        elim (add_included_sound ms (union all (names inc)) l x q h) [
          | inl before ↦ elim (Bool-cases (contains all x)) [
            | inl old ↦ inl old
            | inr new ↦
                let (g, c, n) =
                  contains-names inc x (ground (arith, contains-union (names inc) all x)) in
                inr (
                  m,
                  g,
                  ground (arith, beq_refl m),
                  (included_features_iff features depth m g inc p).0 c,
                  n,
                )
          ]
          | inr (k, g, c, r, n) ↦ inr (k, g, ground (arith, c), r, n)
        ]

    add_included-keeps :
        (ms : List FeatureDescriptor) (all l : List String) (x : String)
        → add_included features depth ms all ≡ ok l
        → contains all x ≡ true
        → contains l x ≡ true
    unfolding add_included
    add_included-keeps [] all l x e h = ground arith
    add_included-keeps (m ∷ ms) all l x e h =
        let (inc, p, q) = add_included-cons m ms all l e in
        add_included-keeps ms (union all (names inc)) l x q
          (ground (arith, contains-union (names inc) all x))

    add_included_complete :
        (ms : List FeatureDescriptor) (all l : List String) (m g : FeatureDescriptor)
        → add_included features depth ms all ≡ ok l
        → contains ms m ≡ true
        → Reaches features m g
        → contains l g.name ≡ true
    unfolding contains
    add_included_complete [] all l m g e c r = cc
    add_included_complete (k ∷ ms) all l m g e c r =
        let (inc, p, q) = add_included-cons k ms all l e in
        elim (Bool-cases (k == m)) [
          | inl same ↦
              let reached : Reaches features k g = rw (eq_of_beq k m same) r in
              let listed = (included_features_iff features depth k g inc p).1 reached in
              add_included-keeps ms (union all (names inc)) l g.name q
                (ground (arith, contains-union (names inc) all g.name, names-contains inc g listed))
          | inr other ↦ add_included_complete ms (union all (names inc)) l m g q (ground arith) r
        ]

    add_included-NoDup :
        (ms : List FeatureDescriptor) (all l : List String)
        → add_included features depth ms all ≡ ok l
        → NoDup all
        → NoDup l
    unfolding add_included
    add_included-NoDup [] all l e h = let same : all ≡ l = cc e in rw (← same) h
    add_included-NoDup (m ∷ ms) all l e h =
        let (inc, p, q) = add_included-cons m ms all l e in
        add_included-NoDup ms (union all (names inc)) l q (union-NoDup (names inc) all h)

    -- The values of the variables of a call that returns.
    pub record Run (platform : String) (modifiers l : List String) : Type 0 where
      pub platform_feature : FeatureDescriptor
      pub found : List FeatureDescriptor
      pub all : List String
      pub included : List FeatureDescriptor
      pub named_platform : feature_by_name features platform ≡ ok platform_feature
      pub named_modifiers : map_result (feature_by_name features) modifiers ≡ ok found
      pub added :
          add_included features depth (to_set found) (to_set (names (to_set found))) ≡ ok all
      pub read : included_features features depth true platform_feature ≡ ok included
      pub result : sorted upper (union all (names included)) ≡ l

    pub run :
        (platform : String) (modifiers l : List String)
        → normalised_modifiers features depth platform modifiers ≡ ok l
        → Run platform modifiers l
    unfolding normalised_modifiers
    run platform modifiers l e =
        let (p, ep, e₁) = >>=-ok (feature_by_name features platform) _ e in
        let (found, ef, e₂) = >>=-ok (map_result (feature_by_name features) modifiers) _ e₁ in
        let (all, ea, e₃) =
          >>=-ok (add_included features depth (to_set found) (to_set (names (to_set found)))) _
            e₂ in
        let (inc, ei, e₄) = >>=-ok (included_features features depth true p) _ e₃ in
        record {
          platform_feature = p;
          found = found;
          all = all;
          included = inc;
          named_platform = ep;
          named_modifiers = ef;
          added = ea;
          read = ei;
          result = cc e₄;
        }

    contains-Run :
        {platform : String} {modifiers l : List String} (r : Run platform modifiers l) (x : String)
        → contains l x ≡ (contains r.all x || contains (names r.included) x)
    contains-Run {l} r x =
        ap (λ xs. contains xs x) (sym r.result)
        ∙ (contains-sorted upper (union r.all (names r.included)) x
            ∙ contains-union (names r.included) r.all x)

    Selected-of :
        {platform : String} {modifiers l : List String} (x : String)
        → Run platform modifiers l
        → contains l x ≡ true
        → Selected features platform modifiers x
    Selected-of {platform} {modifiers} {l} x r h = elim (Bool-cases (contains r.all x)) [
      | inl own ↦ elim (add_included_sound (to_set r.found) _ r.all x r.added own) [
        | inl old ↦
            let (f, c, n) =
              contains-names (to_set r.found) x
                (ground (arith, contains-to_set (names (to_set r.found)) x)) in
            let (d, b) =
              found-map_result features modifiers r.found f r.named_modifiers
                (ground (arith, contains-to_set r.found f)) in
            given x (ap (contains modifiers) (sym n) ∙ d)
        | inr (m, g, c, q, n) ↦
            let (d, b) =
              found-map_result features modifiers r.found m r.named_modifiers
                (ground (arith, contains-to_set r.found m, c)) in
            subst (Selected features platform modifiers) n (implied m.name m g d b q)
      ]
      | inr other ↦
          let (g, c, n) = contains-names r.included x (ground (arith, contains-Run r x)) in
          subst (Selected features platform modifiers) n (
            of_platform r.platform_feature g r.named_platform
              ((included_features_iff features depth r.platform_feature g r.included r.read).0 c))
    ]

    of_Selected :
        {platform : String} {modifiers l : List String} {x : String}
        → Run platform modifiers l
        → Selected features platform modifiers x
        → contains l x ≡ true
    of_Selected {modifiers} r (given x h) =
        let (f, b, c) = map_result-found features modifiers r.found x r.named_modifiers h in
        let own = names-contains (to_set r.found) f (contains-to_set r.found f ∙ c) in
        let base : contains (to_set (names (to_set r.found))) x ≡ true =
          contains-to_set (names (to_set r.found)) x
          ∙ (ap (contains (names (to_set r.found))) (sym (name-feature_by_name features x f b))
              ∙ own) in
        ground (arith, contains-Run r x, add_included-keeps (to_set r.found) _ r.all x r.added base)
    of_Selected {modifiers} r (implied m f g h b q) =
        let (k, b', c) = map_result-found features modifiers r.found m r.named_modifiers h in
        let same : f ≡ k = cc in
        let reached : Reaches features k g = subst (λ n. Reaches features n g) same q in
        ground (
          arith,
          contains-Run r g.name,
          add_included_complete (to_set r.found) _ r.all k g r.added (contains-to_set r.found k ∙ c)
              reached,
        )
    of_Selected r (of_platform f g b q) =
        let same : f ≡ r.platform_feature = cc (r.named_platform) in
        let reached : Reaches features r.platform_feature g =
          subst (λ n. Reaches features n g) same q in
        ground (
          arith,
          contains-Run r g.name,
          names-contains r.included g (
              (included_features_iff features depth r.platform_feature g r.included r.read).1
                reached),
        )

  -- A result that is returned is sorted by the upper-cased names and repeats none, and its members
  -- are exactly the given modifiers, what these depend on and what the platform depends on.
  pub normalised_modifiers_members :
      (depth : ℕ) (platform : String) (modifiers l : List String)
      → normalised_modifiers features depth platform modifiers ≡ ok l
      → IsSorted upper l
        × NoDup l
        × ((x : String) → (contains l x ≡ true) ↔ Selected features platform modifiers x)
  normalised_modifiers_members depth platform modifiers l e =
      let r = run depth platform modifiers l e in
      let unique =
        union-NoDup (names r.included) r.all
          (add_included-NoDup depth (to_set r.found) _ r.all r.added (to_set-NoDup _)) in
      (
        subst (IsSorted upper) r.result (sorted-IsSorted upper _),
        subst (λ xs. NoDup xs) r.result (sorted-NoDup upper _ unique),
        λ x. (Selected-of depth x r, of_Selected depth r),
      )
