-- ===== src/Model/Tests.antt =====
-- Runs of the code of ci/glci/model.py on a small set of features.
use gardenlinux.Prelude.{
  flat_map, keep, difference, text_leb, union, sorted, ◌≡◌, ◌↔◌, refl, String, true, none, some,
  List, [], ◌∷◌, length, string_eq, contains, to_set, NoDup, IsSorted, upper, In,
}
use gardenlinux.Prelude.Result.{map_result, ok, err, value_error, recursion_error}
use gardenlinux.Model.Targets.{
  requires, build, manifest, publish, target_eq, check_requirements, set_from_str,
}
use gardenlinux.Model.Targets.Requirements.{IsClosed, check_requirements_iff}
use gardenlinux.Model.Features.{
  of_type, descriptor_beq, FeatureDescriptor, platform, modifier, descriptor_eq, included_features,
  feature_by_name,
}
use gardenlinux.Model.Modifiers.{normalised_modifiers, canonicalised_features}
use gardenlinux.Model.Modifiers.Selected.{Selected}
use gardenlinux.Model.Modifiers.Normalised.{normalised_modifiers_members}
use gardenlinux.Model.Flavours.{amd64, Flavour, FlavourSet, flavours}
use gardenlinux.Model.Flavours.Declared.{IsDeclared, declared_count, flavours-IsDeclared}

-- Features: aws includes cloud, cloud includes base; lost includes itself.
abbrev pub base_feature : FeatureDescriptor
base_feature = record { type = modifier; name = "base"; description = ""; features = none }

abbrev pub cloud_feature : FeatureDescriptor
cloud_feature = record {
  type = modifier;
  name = "cloud";
  description = "";
  features = some (record { include = "base" ∷ [] });
}

abbrev pub gardener_feature : FeatureDescriptor
gardener_feature = record { type = modifier; name = "gardener"; description = ""; features = none }

abbrev pub aws_feature : FeatureDescriptor
aws_feature = record {
  type = platform;
  name = "aws";
  description = "";
  features = some (record { include = "cloud" ∷ [] });
}

abbrev pub registry : List FeatureDescriptor
registry = aws_feature ∷ cloud_feature ∷ gardener_feature ∷ base_feature ∷ []

abbrev pub lost_feature : FeatureDescriptor
lost_feature = record {
  type = modifier;
  name = "lost";
  description = "";
  features = some (record { include = "lost" ∷ [] });
}

pub aws_included :
    included_features registry 9 true aws_feature ≡ ok (base_feature ∷ cloud_feature ∷ [])
unfolding included_features
aws_included = refl

lost_included : included_features (lost_feature ∷ []) 9 true lost_feature ≡ err recursion_error
unfolding included_features
lost_included = refl

aws_normalised :
    normalised_modifiers registry 9 "aws" ("gardener" ∷ [])
    ≡ ok ("base" ∷ "cloud" ∷ "gardener" ∷ [])
unfolding normalised_modifiers feature_by_name map_result to_set contains included_features sorted
    union text_leb upper
aws_normalised = refl

-- The feature that the platform includes is not removed.
pub aws_canonical :
    canonicalised_features registry 9 "aws" ("gardener" ∷ "cloud" ∷ [])
    ≡ ok (aws_feature ∷ cloud_feature ∷ gardener_feature ∷ [])
unfolding canonicalised_features feature_by_name map_result included_features sorted difference keep
    to_set contains descriptor_beq text_leb upper
aws_canonical = refl

targets_read : set_from_str "build, manifest" ≡ ok (build ∷ manifest ∷ [])
unfolding set_from_str map_result to_set contains requires
targets_read = refl

check_requirements_iff_example :
    ((check_requirements (publish ∷ []) ≡ ok tt) ↔ IsClosed (publish ∷ []))
    × ((check_requirements (publish ∷ []) ≡ err value_error) ↔ (¬ IsClosed (publish ∷ [])))
check_requirements_iff_example = check_requirements_iff (publish ∷ [])

normalised_modifiers_members_example :
    IsSorted upper ("base" ∷ "cloud" ∷ "gardener" ∷ [])
    × NoDup {A = String} ("base" ∷ "cloud" ∷ "gardener" ∷ [])
    × ((x : String)
        → (contains ("base" ∷ "cloud" ∷ "gardener" ∷ []) x ≡ true)
          ↔ Selected registry "aws" ("gardener" ∷ []) x)
normalised_modifiers_members_example =
    normalised_modifiers_members registry 9 "aws" ("gardener" ∷ [])
      ("base" ∷ "cloud" ∷ "gardener" ∷ []) aws_normalised

abbrev pub small_set : FlavourSet
small_set = record {
  name = "small";
  flavour_combinations =
      (record {
        architectures = amd64 ∷ [];
        platforms = "aws" ∷ [];
        modifiers = [] ∷ ("gardener" ∷ []) ∷ [];
      })
      ∷ [];
}

abbrev pub small_flavours : List Flavour
small_flavours =
    (record { architecture = amd64; platform = "aws"; modifiers = "base" ∷ "cloud" ∷ [] })
    ∷ (record {
      architecture = amd64;
      platform = "aws";
      modifiers = "base" ∷ "cloud" ∷ "gardener" ∷ [];
    })
    ∷ []

pub small_declared : flavours registry 9 small_set ≡ ok small_flavours
unfolding flavours map_result flat_map normalised_modifiers feature_by_name to_set included_features
    contains of_type keep difference sorted union text_leb upper
small_declared = refl

flavours-IsDeclared_example :
    ((f : Flavour) → In f small_flavours ↔ IsDeclared registry 9 small_set f)
    × (length small_flavours ≡ declared_count small_set.flavour_combinations)
flavours-IsDeclared_example = flavours-IsDeclared registry 9 small_set small_flavours small_declared
