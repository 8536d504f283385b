-- ===== src/Model/Features/Closure.antt =====
-- The inclusion relation of the descriptors, and the loop of `included_features`.
use gardenlinux.Prelude.{
  ◌≡◌, refl, ◌⊎◌, inl, inr, String, true, List, [], ◌∷◌, ◌++◌, ◌==◌, string_eq, Bool-cases,
  contains, contains-middle, ap, eq_of_beq, beq_refl, arith,
}
use gardenlinux.Prelude.Result.{Result, ok, >>=-ok}
use gardenlinux.Model.Features.{
  FeatureDescriptor, descriptor_eq, included_feature_names, feature_by_name, each_included,
}

-- What is found by its name is among the descriptors, under that name.
pub contains-feature_by_name :
    (features : List FeatureDescriptor) (name : String) (g : FeatureDescriptor)
    → feature_by_name features name ≡ ok g
    → contains features g ≡ true
unfolding feature_by_name contains
contains-feature_by_name [] name g e = cc
contains-feature_by_name (f ∷ features) name g e =
    ground (arith, contains-feature_by_name features name g, descriptor_eq.equals_iff f g)

pub name-feature_by_name :
    (features : List FeatureDescriptor) (name : String) (g : FeatureDescriptor)
    → feature_by_name features name ≡ ok g
    → g.name ≡ name
unfolding feature_by_name
name-feature_by_name [] name g e = cc
name-feature_by_name (f ∷ features) name g e =
    ground (arith, name-feature_by_name features name g, string_eq.equals_iff f.name name)

module _ (features : List FeatureDescriptor) where
  -- `f` names `g` among the features that it includes.
  pub data Includes : FeatureDescriptor → FeatureDescriptor → Type 0 where
    named :
        (f g : FeatureDescriptor) (name : String)
        → contains (included_feature_names f) name ≡ true
        → feature_by_name features name ≡ ok g
        → Includes f g

  -- `g` is a dependency of `f`, over one inclusion or more.
  pub data Reaches : FeatureDescriptor → FeatureDescriptor → Type 0 where
    one : {f g : FeatureDescriptor} → Includes f g → Reaches f g
    more : {f g h : FeatureDescriptor} → Includes f g → Reaches g h → Reaches f h

  pub Reaches-trans : {f g h : FeatureDescriptor} → Reaches f g → Reaches g h → Reaches f h
  Reaches-trans (one i) r = more i r
  Reaches-trans (more i q) r = more i (Reaches-trans q r)

  -- Where an element of a run of the loop comes from.
  pub record Yielded (below : FeatureDescriptor → Result (List FeatureDescriptor))
      (names : List String) (g : FeatureDescriptor) : Type 0 where
    pub name : String
    pub feature : FeatureDescriptor
    pub inner : List FeatureDescriptor
    pub listed : contains names name ≡ true
    pub found : feature_by_name features name ≡ ok feature
    pub ran : below feature ≡ ok inner
    pub here : (feature ≡ g) ⊎ (contains inner g ≡ true)

  module _ (below : FeatureDescriptor → Result (List FeatureDescriptor)) where
    -- What a run of the loop that ends did for its first name.
    each_included-cons :
        (name : String) (names : List String) (l : List FeatureDescriptor)
        → each_included features below (name ∷ names) ≡ ok l
        → (feature : FeatureDescriptor) × (inner : List FeatureDescriptor) × (rest : List
            FeatureDescriptor)
          × (feature_by_name features name ≡ ok feature)
          × (below feature ≡ ok inner)
          × (each_included features below names ≡ ok rest)
          × (l ≡ inner ++ (feature ∷ rest))
    unfolding each_included
    each_included-cons name names l e =
        let (f, p, e₁) = >>=-ok (feature_by_name features name) _ e in
        let (inner, q, e₂) = >>=-ok (below f) _ e₁ in
        let (rest, r, e₃) = >>=-ok (each_included features below names) _ e₂ in
        (f, inner, rest, p, q, r, cc e₃)

    later :
        (name : String) {names : List String} {g : FeatureDescriptor}
        → Yielded below names g
        → Yielded below (name ∷ names) g
    unfolding contains
    later name y = record {
      name = y.name;
      feature = y.feature;
      inner = y.inner;
      listed = ground (arith, y.listed);
      found = y.found;
      ran = y.ran;
      here = y.here;
    }

    pub each_included_sound :
        (names : List String) (l : List FeatureDescriptor) (g : FeatureDescriptor)
        → each_included features below names ≡ ok l
        → contains l g ≡ true
        → Yielded below names g
    unfolding each_included contains
    each_included_sound [] l g e m = absurd (ground arith)
    each_included_sound (name ∷ names) l g e m =
        let (f, inner, rest, p, q, r, eq) = each_included-cons name names l e in
        elim (Bool-cases (f == g)) [
          | inl same ↦ record {
            name = name;
            feature = f;
            inner = inner;
            listed = ground (arith, beq_refl name);
            found = p;
            ran = q;
            here = inl (eq_of_beq f g same);
          }
          | inr other ↦ elim (Bool-cases (contains inner g)) [
            | inl within ↦ record {
              name = name;
              feature = f;
              inner = inner;
              listed = ground (arith, beq_refl name);
              found = p;
              ran = q;
              here = inr within;
            }
            | inr without ↦ later name (
                each_included_sound names rest g r (ground (arith, contains-middle inner f rest g)))
          ]
        ]

    pub each_included_complete :
        (names : List String) (l : List FeatureDescriptor) (g : FeatureDescriptor)
        → each_included features below names ≡ ok l
        → Yielded below names g
        → contains l g ≡ true
    unfolding contains
    each_included_complete [] l g e y = absurd (ground (arith, y.listed))
    each_included_complete (name ∷ names) l g e y =
        let (f, inner, rest, p, q, r, eq) = each_included-cons name names l e in
        elim (Bool-cases (name == y.name)) [
          | inl same ↦
              let same_feature : f ≡ y.feature = cc (eq_of_beq name y.name same) in
              let same_inner : inner ≡ y.inner = cc (ap below same_feature) in
              rw (eq, contains-middle)
                (ground (arith, same_feature, same_inner, y.here, descriptor_eq.equals_iff f g))
          | inr other ↦
              rw (eq, contains-middle)
                (ground (
                  arith,
                  each_included_complete names rest g r (record {
                    name = y.name;
                    feature = y.feature;
                    inner = y.inner;
                    listed = ground (arith, y.listed);
                    found = y.found;
                    ran = y.ran;
                    here = y.here;
                  }),
                ))
        ]

    -- A run that ends has read every name and run `below` on its feature.
    pub each_included-reads :
        (names : List String) (l : List FeatureDescriptor) (name : String)
        → each_included features below names ≡ ok l
        → contains names name ≡ true
        → (f : FeatureDescriptor) × (inner : List FeatureDescriptor) × (feature_by_name features
              name
            ≡ ok f)
          × (below f ≡ ok inner)
    unfolding contains
    each_included-reads [] l name e m = cc
    each_included-reads (n ∷ names) l name e m =
        let (f, inner, rest, p, q, r, eq) = each_included-cons n names l e in
        elim (Bool-cases (n == name)) [
          | inl same ↦ (f, inner, rw (← eq_of_beq n name same) p, q)
          | inr other ↦ each_included-reads names rest name r (ground arith)
        ]

    pub each_included_mono :
        (above : FeatureDescriptor → Result (List FeatureDescriptor))
        → ((f : FeatureDescriptor) (l : List FeatureDescriptor) → below f ≡ ok l → above f ≡ ok l)
        → (names : List String) (l : List FeatureDescriptor)
        → each_included features below names ≡ ok l
        → each_included features above names ≡ ok l
    unfolding each_included
    each_included_mono above h [] l e = e
    each_included_mono above h (name ∷ names) l e =
        let (f, inner, rest, p, q, r, eq) = each_included-cons name names l e in
        rw (p, h f inner q, each_included_mono above h names rest r, eq)

    -- With every name known and every inner run ending, the run ends.
    pub each_included-total :
        (names : List String)
        → ((name : String)
            → contains names name ≡ true
            → (f : FeatureDescriptor) × (inner : List FeatureDescriptor) × (feature_by_name features
                  name
                ≡ ok f)
              × (below f ≡ ok inner))
        → (l : List FeatureDescriptor) × (each_included features below names ≡ ok l)
    unfolding each_included contains
    each_included-total [] h = ([], refl)
    each_included-total (name ∷ names) h =
        let (f, inner, p, q) = h name (ground (arith, beq_refl name)) in
        let (rest, r) = each_included-total names (λ n m. h n (ground arith)) in
        (inner ++ (f ∷ rest), rw (p, q, r))
