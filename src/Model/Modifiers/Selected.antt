-- ===== src/Model/Modifiers/Selected.antt =====
-- The modifiers that a flavour selects, as a relation, and what a list of known names finds.
use gardenlinux.Prelude.{
  ◌≡◌, sym, ap, subst, ◌∙◌, inl, inr, String, true, List, [], ◌∷◌, ◌==◌, string_eq, Bool-cases,
  contains, eq_of_beq, beq_refl, arith,
}
use gardenlinux.Prelude.Result.{ok, map_result, map_result-cons}
use gardenlinux.Model.Features.{FeatureDescriptor, descriptor_eq, feature_by_name}
use gardenlinux.Model.Features.Closure.{Reaches, name-feature_by_name}
use gardenlinux.Model.Modifiers.{names}

-- A name in a list of descriptors is the name of one of them.
pub contains-names :
    (fs : List FeatureDescriptor) (x : String)
    → contains (names fs) x ≡ true
    → (g : FeatureDescriptor) × (contains fs g ≡ true) × (g.name ≡ x)
unfolding contains
contains-names [] x h = cc
contains-names (f ∷ fs) x h = elim (Bool-cases (f.name == x)) [
  | inl same ↦ (f, ground (arith, beq_refl f), eq_of_beq f.name x same)
  | inr other ↦ let (g, m, e) = contains-names fs x (ground arith) in (g, ground (arith, m), e)
]

pub names-contains :
    (fs : List FeatureDescriptor) (g : FeatureDescriptor)
    → contains fs g ≡ true
    → contains (names fs) g.name ≡ true
unfolding contains
names-contains [] g h = cc
names-contains (f ∷ fs) g h =
    ground (arith, names-contains fs g, descriptor_eq.equals_iff f g, beq_refl g.name)

module _ (features : List FeatureDescriptor) where
  -- The modifiers of the flavour: those given, and what they and the platform depend on.
  pub data Selected (platform : String) (modifiers : List String) : String → Type 0 where
    given : (x : String) → contains modifiers x ≡ true → Selected platform modifiers x
    implied :
        (m : String) (f g : FeatureDescriptor)
        → contains modifiers m ≡ true
        → feature_by_name features m ≡ ok f
        → Reaches features f g
        → Selected platform modifiers g.name
    of_platform :
        (f g : FeatureDescriptor)
        → feature_by_name features platform ≡ ok f
        → Reaches features f g
        → Selected platform modifiers g.name

  -- What a list of names that are all known gives.
  pub names-map_result :
      (ms : List String) (fs : List FeatureDescriptor)
      → map_result (feature_by_name features) ms ≡ ok fs
      → names fs ≡ ms
  unfolding map_result
  names-map_result [] fs e = ground arith
  names-map_result (m ∷ ms) fs e =
      let (f, rest, p, q, split) = map_result-cons (feature_by_name features) m ms fs e in
      ap names split ∙ cc (name-feature_by_name features m f p, names-map_result ms rest q)

  pub found-map_result :
      (ms : List String) (fs : List FeatureDescriptor) (f : FeatureDescriptor)
      → map_result (feature_by_name features) ms ≡ ok fs
      → contains fs f ≡ true
      → (contains ms f.name ≡ true) × (feature_by_name features f.name ≡ ok f)
  unfolding map_result contains
  found-map_result [] fs f e h = absurd (ground arith)
  found-map_result (m ∷ ms) fs f e h =
      let (g, rest, p, q, split) = map_result-cons (feature_by_name features) m ms fs e in
      let within : contains (g ∷ rest) f ≡ true = subst (λ l. contains l f ≡ true) split h in
      elim (Bool-cases (g == f)) [
        | inl same ↦
            let same' : g ≡ f = eq_of_beq g f same in
            let named : f.name ≡ m =
              cc (
                name-feature_by_name features m g p,
                ap (λ (k : FeatureDescriptor). k.name) same',
              ) in
            (
              ground (arith, named, beq_refl m),
              ap (feature_by_name features) named ∙ p ∙ ap ok same',
            )
        | inr other ↦
            let (c, b) = found-map_result ms rest f q (ground arith) in (ground (arith, c), b)
      ]

  pub map_result-found :
      (ms : List String) (fs : List FeatureDescriptor) (m : String)
      → map_result (feature_by_name features) ms ≡ ok fs
      → contains ms m ≡ true
      → (f : FeatureDescriptor) × (feature_by_name features m ≡ ok f) × (contains fs f ≡ true)
  map_result-found ms fs m e h =
      let (f, c, n) = contains-names fs m (rw (names-map_result ms fs e) h) in
      let (_, b) = found-map_result ms fs f e c in (f, ap (feature_by_name features) (sym n) ∙ b, c)
