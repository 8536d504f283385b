-- ===== src/Oci/Identifier.antt =====
-- `_flavour_identifier` of ci/glci/oci.py.
use gardenlinux.Prelude.{
  ℕ, String, Bool, not, ◌&&◌, List, [], ◌∷◌, ◌==◌, if◌then◌else◌, string_eq, nat_beq, map, keep,
  join,
}
use Prim.Native.Char.{code}
use gardenlinux.Prelude.Result.{Result, ok, err, type_error, map_result, ◌>>=◌}
use gardenlinux.Model.Features.{FeatureDescriptor, feature_by_name}
use gardenlinux.Model.Modifiers.{names, normalised_modifiers}
use gardenlinux.Model.Flavours.{Architecture, Flavour, architecture_value}

-- What the attribute `architecture` of a release holds: a member of the enumeration, when the release
-- was read from the store, or the value of a member, which is a text, when upload_results_step has
-- just built it.
pub data Holding : Type 0 where
  as_member as_value : Holding

-- What is joined: texts, and an architecture that is a member of an enumeration and no text.
pub data Part : Type 0 where
  text : String → Part
  architecture : Architecture → Part

unfoldable pub texts_of : List Part → Result (List String)
texts_of [] = ok []
texts_of (text s ∷ parts) = do rest ← texts_of parts; ok (s ∷ rest)
texts_of (architecture a ∷ parts) = err type_error

unfoldable pub architecture_part : Holding → Architecture → Part
unfolding architecture_value
architecture_part as_member a = architecture a
architecture_part as_value a = text (architecture_value a)

-- `'-'.join(parts)`
unfoldable pub join_parts : List Part → Result String
unfolding texts_of
join_parts parts = do texts ← texts_of parts; ok (join "-" texts)

abbrev is_underscore : ℕ → Bool
is_underscore c = nat_beq c b'_'

unfoldable pub lstrip_underscores : String → String
lstrip_underscores String.[] = ""
lstrip_underscores (String.◌∷◌ c s) =
    let rest = lstrip_underscores s in if is_underscore (code c) then rest else String.◌∷◌ c s

unfoldable pub rstrip_underscores : String → String
rstrip_underscores String.[] = ""
rstrip_underscores (String.◌∷◌ c s) =
    let rest = rstrip_underscores s in
    if is_underscore (code c) && rest == "" then "" else String.◌∷◌ c rest

module _ (features : List FeatureDescriptor) (depth : ℕ) where
  -- `flavour.calculate_modifiers()`
  unfoldable pub calculate_modifiers : Flavour → Result (List FeatureDescriptor)
  calculate_modifiers f = do
    modifiers ← normalised_modifiers features depth f.platform f.modifiers
    map_result (feature_by_name features) modifiers

  unfoldable pub flavour_identifier : Holding → Flavour → Bool → Result String
  unfolding architecture_part calculate_modifiers join_parts lstrip_underscores rstrip_underscores
  flavour_identifier holding f include_arch = do
    calculated ← calculate_modifiers f
    let parts =
        map (λ name. text (rstrip_underscores (lstrip_underscores name)))
          (keep (λ name. not (name == "oci")) (names calculated))
    join_parts (if include_arch then architecture_part holding f.architecture ∷ parts else parts)
