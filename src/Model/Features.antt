-- ===== src/Model/Features.antt =====
-- `FeatureDescriptor`, `feature_by_name` and the features that a feature includes, of
-- ci/glci/model.py. The set `features()` of all descriptors, read from features/*/info.yaml, is the
-- argument `features`, in its order of iteration.
pub mod Closure
pub mod Included
use gardenlinux.Prelude.{
  ℕ, zero, suc, ◌≡◌, refl, ◌↔◌, String, Bool, true, false, ◌&&◌, Option, none, some, List, [], ◌∷◌,
  ◌++◌, Eq, ◌==◌, if◌then◌else◌, string_eq, list_eq, list_beq_iff, keep, arith,
}
use gardenlinux.Prelude.Result.{Result, ok, err, value_error, recursion_error, ◌>>=◌}

pub data FeatureType : Type 0 where
  platform modifier : FeatureType

abbrev pub type_beq : FeatureType → FeatureType → Bool
type_beq platform platform = true
type_beq modifier modifier = true
type_beq _ _ = false

pub record Features : Type 0 where
  pub include : List String

pub record FeatureDescriptor : Type 0 where
  pub type : FeatureType
  pub name : String
  pub description : String
  pub features : Option Features

abbrev pub features_beq : Option Features → Option Features → Bool
features_beq none none = true
features_beq (some f) (some g) = f.include == g.include
features_beq _ _ = false

-- The `==` that a frozen dataclass has: field by field.
unfoldable pub descriptor_beq : FeatureDescriptor → FeatureDescriptor → Bool
descriptor_beq f g =
    type_beq f.type g.type
    && f.name == g.name
    && f.description == g.description
    && features_beq f.features g.features

type_beq_iff : (a b : FeatureType) → (type_beq a b ≡ true) ↔ (a ≡ b)
type_beq_iff a b = ground arith

features_beq_iff : (a b : Option Features) → (features_beq a b ≡ true) ↔ (a ≡ b)
features_beq_iff none none = (λ _. refl, λ _. refl)
features_beq_iff none (some g) = (λ h. cc, λ h. cc)
features_beq_iff (some f) none = (λ h. cc, λ h. cc)
features_beq_iff (some f) (some g) = ground (arith, list_beq_iff f.include g.include)

pub descriptor_beq_iff : (f g : FeatureDescriptor) → (descriptor_beq f g ≡ true) ↔ (f ≡ g)
unfolding descriptor_beq
descriptor_beq_iff f g = ground (
  arith,
  type_beq_iff f.type g.type,
  string_eq.equals_iff f.name g.name,
  string_eq.equals_iff f.description g.description,
  features_beq_iff f.features g.features,
)

instance abbrev pub descriptor_eq : Eq FeatureDescriptor
descriptor_eq = record { equals = descriptor_beq; equals_iff = descriptor_beq_iff }

abbrev include_of : Option Features → List String
include_of none = []
include_of (some f) = f.include

-- `f.included_feature_names()`
unfoldable pub included_feature_names : FeatureDescriptor → List String
included_feature_names f = include_of f.features

-- The features of one type: `platforms()` and `modifiers()`.
unfoldable pub of_type : FeatureType → List FeatureDescriptor → List FeatureDescriptor
of_type t features = keep (λ f. type_beq f.type t) features

-- `feature_by_name(name)`: the first of that name.
unfoldable pub feature_by_name : List FeatureDescriptor → String → Result FeatureDescriptor
feature_by_name [] name = err value_error
feature_by_name (f ∷ features) name =
    let rest = feature_by_name features name in if f.name == name then ok f else rest

module _ (features : List FeatureDescriptor) where
  -- The loop of `included_features`: of each feature what `below` yields, and then the feature.
  unfoldable pub each_included :
      (FeatureDescriptor → Result (List FeatureDescriptor))
      → List String
      → Result (List FeatureDescriptor)
  each_included below [] = ok []
  each_included below (name ∷ names) = do
    feature ← feature_by_name features name
    inner ← below feature
    rest ← each_included below names
    ok (inner ++ (feature ∷ rest))

  -- `f.included_features(transitive)`, read to its end. The number is the depth of calls that the
  -- interpreter has left, past which it raises a `RecursionError`.
  unfoldable pub included_features : ℕ → Bool → FeatureDescriptor → Result (List FeatureDescriptor)
  unfolding each_included included_feature_names feature_by_name
  included_features zero transitive f = err recursion_error
  included_features (suc depth) true f =
      each_included (included_features depth true) (included_feature_names f)
  included_features (suc depth) false f = each_included (λ _. ok []) (included_feature_names f)
