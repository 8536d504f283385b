-- ===== src/Model/Modifiers.antt =====
-- `normalised_modifiers` and `canonicalised_features` of ci/glci/model.py.
pub mod Selected
pub mod Normalised
pub mod Idempotent
pub mod Canonical
pub mod Unordered
use gardenlinux.Prelude.{
  ℕ, ◌≡◌, refl, ◌↔◌, arith, String, Bool, true, false, List, [], ◌∷◌, ◌++◌, map, Eq, ◌==◌,
  if◌then◌else◌, string_eq, not, contains, keep, to_set, union, difference, sorted, upper,
}
use gardenlinux.Prelude.Result.{Result, ok, err, ◌>>=◌, map_result}
use gardenlinux.Model.Features.{
  FeatureDescriptor, descriptor_eq, descriptor_beq_iff, feature_by_name, included_features,
}

-- What `canonicalised_features` puts into the set that it subtracts first: descriptors, names,
-- and a generator, which is equal to none of them.
pub data Item : Type 0 where
  descriptor : FeatureDescriptor → Item
  text : String → Item
  generator : Item

abbrev pub item_beq : Item → Item → Bool
item_beq (descriptor f) (descriptor g) = f == g
item_beq (text s) (text t) = s == t
item_beq generator generator = true
item_beq _ _ = false

pub item_beq_iff : (a b : Item) → (item_beq a b ≡ true) ↔ (a ≡ b)
item_beq_iff (descriptor f) (descriptor g) = ground (arith, descriptor_beq_iff f g)
item_beq_iff (text s) (text t) = ground (arith, string_eq.equals_iff s t)
item_beq_iff generator generator = (λ _. refl, λ _. refl)
item_beq_iff _ _ = (λ h. cc, λ h. cc)

instance abbrev pub item_eq : Eq Item
item_eq = record { equals = item_beq; equals_iff = item_beq_iff }

-- `minimal_modifiers -= set((platform.included_features(), *modifiers))`
unfoldable pub subtract_platform : List String → List FeatureDescriptor → List FeatureDescriptor
subtract_platform modifiers minimal =
    let subtracted = to_set (generator ∷ map text modifiers) in
    keep (λ m. not (contains subtracted (descriptor m))) minimal

abbrev pub names : List FeatureDescriptor → List String
names = map (λ (f : FeatureDescriptor). f.name)

module _ (features : List FeatureDescriptor) (depth : ℕ) where
  -- `for m in modifiers: all_modifiers |= …`
  unfoldable pub add_included : List FeatureDescriptor → List String → Result (List String)
  add_included [] all_modifiers = ok all_modifiers
  add_included (m ∷ modifiers) all_modifiers = do
    included ← included_features features depth true m
    add_included modifiers (union all_modifiers (names included))

  unfoldable pub normalised_modifiers : String → List String → Result (List String)
  unfolding add_included
  normalised_modifiers platform modifiers = do
    platform_feature ← feature_by_name features platform
    found ← map_result (feature_by_name features) modifiers
    let modifier_set = to_set found
    all_modifiers ← add_included modifier_set (to_set (names modifier_set))
    included ← included_features features depth true platform_feature
    ok (sorted upper (union all_modifiers (names included)))

  -- `for modifier in modifiers: minimal_modifiers -= set(modifier.included_features())`, where each
  -- name is looked up in its turn
  unfoldable pub drop_included :
      List String → List FeatureDescriptor → Result (List FeatureDescriptor)
  drop_included [] minimal = ok minimal
  drop_included (name ∷ modifiers) minimal = do
    modifier ← feature_by_name features name
    included ← included_features features depth true modifier
    drop_included modifiers (difference minimal included)

  unfoldable pub canonicalised_features : String → List String → Result (List FeatureDescriptor)
  unfolding drop_included subtract_platform
  canonicalised_features platform modifiers = do
    platform_feature ← feature_by_name features platform
    found ← map_result (feature_by_name features) modifiers
    minimal ← drop_included modifiers (subtract_platform modifiers (to_set found))
    ok (platform_feature ∷ sorted (λ (m : FeatureDescriptor). upper m.name) minimal)
