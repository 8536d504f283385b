-- ===== src/Model/Targets.antt =====
-- `BuildTarget` of ci/glci/model.py: what a run builds, and what each target requires.
pub mod Requirements
use gardenlinux.Prelude.{
  ap, eq_of_beq, is_nil, ◌≡◌, refl, ◌↔◌, String, Bool, true, false, ◌&&◌, ◌||◌, Option, none, some,
  List, [], ◌∷◌, map, Eq, ◌==◌, if◌then◌else◌, string_eq, contains, find, to_set, add, split, strip,
  arith,
}
use gardenlinux.Prelude.Result.{Result, ok, err, value_error, ◌>>=◌, ◌>>◌, guard, map_result}

pub data BuildTarget : Type 0 where
  base_build build manifest component_descriptor tests publish freeze_version : BuildTarget
  github_release : BuildTarget

-- `e.value`
unfoldable pub value : BuildTarget → String
value base_build = "build-baseimage"
value build = "build"
value manifest = "manifest"
value component_descriptor = "component-descriptor"
value tests = "tests"
value publish = "publish"
value freeze_version = "freeze-version"
value github_release = "github-release"

-- `e._requires_`
unfoldable pub requires : BuildTarget → List String
requires base_build = []
requires build = []
requires manifest = "build" ∷ []
requires component_descriptor = "build" ∷ []
requires tests = "build" ∷ []
requires publish = "build" ∷ "manifest" ∷ "component-descriptor" ∷ []
requires freeze_version = "build-baseimage" ∷ "build" ∷ "manifest" ∷ "component-descriptor" ∷ []
requires github_release =
    "build-baseimage" ∷ "build" ∷ "manifest" ∷ "component-descriptor" ∷ "freeze-version" ∷ []

abbrev pub members : List BuildTarget
members =
    base_build ∷ build ∷ manifest ∷ component_descriptor ∷ tests ∷ publish ∷ freeze_version
    ∷ github_release ∷ []

first_value : String → List BuildTarget → Result BuildTarget
first_value s [] = err value_error
first_value s (t ∷ ts) = let rest = first_value s ts in if value t == s then ok t else rest

-- `BuildTarget(s)`
unfoldable pub from_value : String → Result BuildTarget
unfolding first_value value
from_value s = first_value s members

-- Members of an enum are equal when their values are.
abbrev pub target_beq : BuildTarget → BuildTarget → Bool
target_beq a b = value a == value b

from_value-value : (t : BuildTarget) → from_value (value t) ≡ ok t
unfolding from_value
from_value-value base_build = refl
from_value-value build = refl
from_value-value manifest = refl
from_value-value component_descriptor = refl
from_value-value tests = refl
from_value-value publish = refl
from_value-value freeze_version = refl
from_value-value github_release = refl

value_injective : (a b : BuildTarget) → value a ≡ value b → a ≡ b
value_injective a b h = cc (from_value-value a, from_value-value b, ap from_value h)

pub target_beq_iff : (a b : BuildTarget) → (target_beq a b ≡ true) ↔ (a ≡ b)
target_beq_iff a b = (
  λ h. value_injective a b (eq_of_beq (value a) (value b) h),
  λ h. (string_eq.equals_iff (value a) (value b)).1 (ap value h),
)

instance abbrev pub target_eq : Eq BuildTarget
target_eq = record { equals = target_beq; equals_iff = target_beq_iff }

-- The values among `rs` whose target is not in the set.
missing : List BuildTarget → List String → Result (List String)
missing bt_set [] = ok []
missing bt_set (r ∷ rs) = do
  target ← from_value r
  others ← missing bt_set rs
  ok (if contains bt_set target then others else add r others)

-- The loop of `check_requirements`, over the members that are left.
check_members : List BuildTarget → List BuildTarget → Result (Unit {0})
unfolding missing
check_members bt_set [] = ok tt
check_members bt_set (e ∷ es) = do
  lacks ← missing bt_set (requires e)
  guard (is_nil lacks) value_error
  check_members bt_set es

unfoldable pub check_requirements : List BuildTarget → Result (Unit {0})
unfolding check_members
check_requirements bt_set = check_members bt_set bt_set

-- `set_from_str`, for a comma-separated list of values
unfoldable pub set_from_str : String → Result (List BuildTarget)
unfolding check_requirements from_value split strip
set_from_str comma_separated = do
  found ← map_result from_value (map strip (split b',' comma_separated))
  let targets = to_set found
  check_requirements targets
  ok targets
