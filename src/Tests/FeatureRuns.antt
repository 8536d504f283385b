-- ===== src/Tests/FeatureRuns.antt =====
-- The features that the small set of features includes, and those that a canonical list drops.
use gardenlinux.Prelude.{
  ap, sym, subst, ◌⊎◌, inl, inr, ℕ, ◌≡◌, ◌↔◌, ◌<◌, refl, String, true, false, List, [], ◌∷◌, ◌==◌,
  string_eq, if◌then◌else◌, contains, IsSorted, upper, In, In-cons, In-contains, eq_of_beq, arith,
}
use gardenlinux.Prelude.Result.{ok, ok_injective}
use gardenlinux.Model.Targets.{target_eq}
use gardenlinux.Model.Features.{
  descriptor_beq, FeatureDescriptor, descriptor_eq, included_feature_names, included_features,
  feature_by_name,
}
use gardenlinux.Model.Features.Closure.{Reaches, one, named}
use gardenlinux.Model.Features.Included.{IsAcyclic, included_features_iff}
use gardenlinux.Model.Modifiers.Canonical.{IsImplied, by, canonicalised_features_members}
use gardenlinux.Model.Tests.{
  base_feature, cloud_feature, gardener_feature, aws_feature, lost_feature, registry, aws_included,
  aws_canonical,
}

aws_cloud : Reaches registry aws_feature cloud_feature
unfolding included_feature_names feature_by_name contains
aws_cloud = one (named aws_feature cloud_feature "cloud" refl refl)

lost_lost : Reaches (lost_feature ∷ []) lost_feature lost_feature
unfolding included_feature_names feature_by_name contains
lost_lost = one (named lost_feature lost_feature "lost" refl refl)

-- The depth of each feature.
abbrev rank : FeatureDescriptor → ℕ
rank f = if f.name == "aws" then 2 else if f.name == "cloud" then 1 else 0

-- The features of the registry, one by one.
each_of_registry :
    {f : FeatureDescriptor}
    → In f registry
    → (f ≡ aws_feature) ⊎ ((f ≡ cloud_feature) ⊎ (included_feature_names f ≡ []))
unfolding included_feature_names
each_of_registry h = elim (In-cons h) [
  | inl e ↦ inl (sym e)
  | inr h ↦ elim (In-cons h) [
    | inl e ↦ inr (inl (sym e))
    | inr h ↦ elim (In-cons h) [
      | inl e ↦ inr (inr (ap included_feature_names (sym e)))
      | inr h ↦ elim (In-cons h) [
        | inl e ↦ inr (inr (ap included_feature_names (sym e)))
        | inr h ↦ elim h [ ]
      ]
    ]
  ]
]

included_of_registry :
    (f : FeatureDescriptor) (name : String)
    → (f ≡ aws_feature) ⊎ ((f ≡ cloud_feature) ⊎ (included_feature_names f ≡ []))
    → contains (included_feature_names f) name ≡ true
    → (g : FeatureDescriptor) × (feature_by_name registry name ≡ ok g) × (rank g < rank f)
unfolding included_feature_names feature_by_name contains
included_of_registry f name (inl e) c =
    let c' : contains (included_feature_names aws_feature) name ≡ true =
      subst (λ x. contains (included_feature_names x) name ≡ true) e c in
    let n : "cloud" ≡ name = eq_of_beq "cloud" name (ground (arith, c')) in
    (
      cloud_feature,
      subst (λ x. feature_by_name registry x ≡ ok cloud_feature) n refl,
      subst (λ x. 1 < rank x) (sym e) (omega arith),
    )
included_of_registry f name (inr (inl e)) c =
    let c' : contains (included_feature_names cloud_feature) name ≡ true =
      subst (λ x. contains (included_feature_names x) name ≡ true) e c in
    let n : "base" ≡ name = eq_of_beq "base" name (ground (arith, c')) in
    (
      base_feature,
      subst (λ x. feature_by_name registry x ≡ ok base_feature) n refl,
      subst (λ x. 0 < rank x) (sym e) (omega arith),
    )
included_of_registry f name (inr (inr e)) c =
    absurd (ground (arith, subst (λ x. contains x name ≡ true) e c))

registry-IsAcyclic : IsAcyclic registry rank
registry-IsAcyclic = record {
  known = λ f name m c. included_of_registry f name (each_of_registry (In-contains registry m)) c;
}

included_features_iff_example :
    (contains (base_feature ∷ cloud_feature ∷ []) cloud_feature ≡ true)
    ↔ Reaches registry aws_feature cloud_feature
included_features_iff_example =
    included_features_iff registry 9 aws_feature cloud_feature (base_feature ∷ cloud_feature ∷ [])
      aws_included

one_of_two : (x y z : String) → contains (x ∷ y ∷ []) z ≡ true → (x ≡ z) ⊎ (y ≡ z)
one_of_two x y z c = elim (In-cons (In-contains (x ∷ y ∷ []) c)) [
  | inl e ↦ inl e
  | inr h ↦ elim (In-cons h) [ inl e ↦ inr e | inr h ↦ elim h [ ] ]
]

unreached :
    (f g : FeatureDescriptor) (l : List FeatureDescriptor)
    → included_features registry 9 true g ≡ ok l
    → contains l cloud_feature ≡ false
    → ok g ≡ ok f
    → ¬ Reaches registry f cloud_feature
unreached f g l e c same r = absurd (
    ground (
      arith,
      (included_features_iff registry 9 g cloud_feature l e).1
          (subst (λ x. Reaches registry x cloud_feature) (sym (ok_injective same)) r),
    ))

cloud-free : ¬ IsImplied registry 9 ("gardener" ∷ "cloud" ∷ []) cloud_feature
unfolding included_features feature_by_name contains descriptor_beq
cloud-free (by m f c p r) = elim (one_of_two "gardener" "cloud" m c) [
  | inl e ↦
      unreached f gardener_feature [] refl refl
        (subst (λ x. feature_by_name registry x ≡ ok f) (sym e) p) r
  | inr e ↦
      unreached f cloud_feature (base_feature ∷ []) refl refl
        (subst (λ x. feature_by_name registry x ≡ ok f) (sym e) p) r
]

canonicalised_features_members_example :
    (p : FeatureDescriptor) × (rest : List FeatureDescriptor) × ((aws_feature ∷ cloud_feature
        ∷ gardener_feature ∷ [])
      ≡ p ∷ rest)
    × (feature_by_name registry "aws" ≡ ok p)
    × IsSorted (λ (m : FeatureDescriptor). upper m.name) rest
    × ((g : FeatureDescriptor)
        → (contains rest g ≡ true) ↔ (
            (contains ("gardener" ∷ "cloud" ∷ []) g.name ≡ true)
            × (feature_by_name registry g.name ≡ ok g)
            × (¬ IsImplied registry 9 ("gardener" ∷ "cloud" ∷ []) g)))
canonicalised_features_members_example =
    canonicalised_features_members registry 9 "aws" ("gardener" ∷ "cloud" ∷ [])
      (aws_feature ∷ cloud_feature ∷ gardener_feature ∷ []) aws_canonical
