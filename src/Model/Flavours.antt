-- ===== src/Model/Flavours.antt =====
-- `GardenlinuxFlavour`, `GardenlinuxFlavourCombination` and `GardenlinuxFlavourSet` of
-- ci/glci/model.py.
pub mod Declared
use gardenlinux.Prelude.{
  ℕ, ◌≡◌, refl, ◌↔◌, arith, String, ◌<>◌, Bool, true, false, ◌&&◌, List, [], ◌∷◌, ◌++◌, map, Eq,
  ◌==◌, string_eq, list_eq, list_beq, list_beq_iff, is_nil, contains, to_set, difference, sorted,
  codes, join, flat_map, if◌then◌else◌,
}
use gardenlinux.Prelude.Result.{Result, ok, err, value_error, ◌>>=◌, ◌>>◌, guard, map_result}
use gardenlinux.Model.Features.{FeatureDescriptor, platform, modifier, of_type, feature_by_name}
use gardenlinux.Model.Modifiers.{names, normalised_modifiers}

pub data Architecture : Type 0 where
  amd64 : Architecture

-- `architecture.value`
unfoldable pub architecture_value : Architecture → String
architecture_value amd64 = "amd64"

pub record Flavour : Type 0 where
  pub architecture : Architecture
  pub platform : String
  pub modifiers : List String

pub architecture_path : (a b : Architecture) → a ≡ b
architecture_path amd64 amd64 = refl

unfoldable pub flavour_beq : Flavour → Flavour → Bool
flavour_beq f g = f.platform == g.platform && f.modifiers == g.modifiers

pub flavour_beq_iff : (f g : Flavour) → (flavour_beq f g ≡ true) ↔ (f ≡ g)
unfolding flavour_beq
flavour_beq_iff f g = ground (
  arith,
  architecture_path f.architecture g.architecture,
  string_eq.equals_iff f.platform g.platform,
  list_beq_iff f.modifiers g.modifiers,
)

instance abbrev pub flavour_eq : Eq Flavour
flavour_eq = record { equals = flavour_beq; equals_iff = flavour_beq_iff }

-- `sorted(modifiers)`, joined
unfoldable pub filename_prefix : Flavour → String
filename_prefix f = f.platform <> ("-" <> join "_" (sorted codes f.modifiers))

unfoldable pub canonical_name_prefix : Flavour → String
unfolding filename_prefix architecture_value
canonical_name_prefix f = architecture_value f.architecture <> ("/" <> filename_prefix f)

pub record FlavourCombination : Type 0 where
  pub architectures : List Architecture
  pub platforms : List String
  pub modifiers : List (List String)

pub record FlavourSet : Type 0 where
  pub name : String
  pub flavour_combinations : List FlavourCombination

-- `itertools.product` of three sequences
unfoldable pub product {ℓ} : {A B C : Type ℓ} → List A → List B → List C → List (A × B × C)
product as' bs cs = flat_map (λ a. flat_map (λ b. map (λ c. (a, b, c)) cs) bs) as'

-- The choices that the combinations of a set declare, in order.
unfoldable pub choices : List FlavourCombination → List (Architecture × String × List String)
unfolding product
choices combinations =
    flat_map (λ (c : FlavourCombination). product c.architectures c.platforms c.modifiers)
      combinations

module _ (features : List FeatureDescriptor) where
  -- The construction of a flavour, with its `__post_init__`.
  unfoldable pub flavour : Architecture → String → List String → Result Flavour
  flavour architecture platform_name modifiers = do
    guard (contains (to_set (names (of_type platform features))) platform_name) value_error
    guard (is_nil (difference (to_set modifiers) (to_set (names (of_type modifier features)))))
        value_error
    ok (record { architecture = architecture; platform = platform_name; modifiers = modifiers })

  module _ (depth : ℕ) where
    -- `f.calculate_modifiers()`
    unfoldable pub calculate_modifiers : Flavour → Result (List FeatureDescriptor)
    calculate_modifiers f = do
      modifiers ← normalised_modifiers features depth f.platform f.modifiers
      map_result (feature_by_name features) modifiers

    unfoldable pub normalised_flavour : Architecture × String × List String → Result Flavour
    unfolding flavour
    normalised_flavour (architecture, platform_name, mods) = do
      modifiers ← normalised_modifiers features depth platform_name mods
      flavour architecture platform_name modifiers

    -- `flavour_set.flavours()`, read to its end
    unfoldable pub flavours : FlavourSet → Result (List Flavour)
    unfolding normalised_flavour choices
    flavours flavour_set = map_result normalised_flavour (choices flavour_set.flavour_combinations)
