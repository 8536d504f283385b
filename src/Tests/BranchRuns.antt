-- ===== src/Tests/BranchRuns.antt =====
-- Release branches in a repository that is a list of heads.
use gardenlinux.Prelude.{
  strip, split, ◌≡◌, refl, ap, sym, String, ◌<>◌, false, not, Option, none, some, List, [], ◌∷◌,
  map, ◌==◌, if◌then◌else◌, string_eq, contains,
}
use gardenlinux.Prelude.Result.{map_result, ok, ok_injective}
use gardenlinux.Model.Versions.{Whole, plus, int_of, text_of}
use gardenlinux.ReleaseBranch.{
  Git, IsGit, is_zero, components, next_release_version, bump_commit, ensure_target_branch_exists,
}
use gardenlinux.ReleaseBranch.Bump.{ensure_target_branch_exists-bump_commit}

abbrev head_of : List (String × String) → String → Option String
head_of [] b = none
head_of (e ∷ es) b = let rest = head_of es b in if b == e.0 then some e.1 else rest

abbrev heads : Git
heads = record {
  Remote = List (String × String);
  rev_parse = λ r committish. ok committish;
  branches = λ r. map (λ e. e.0) r;
  head = head_of;
  create_branch_ref = λ r name sha. ok ((name, sha) ∷ r);
  index_to_commit = λ version message parent. version <> ("@" <> parent);
  push = λ r from_ref to_ref. ok ((to_ref, from_ref) ∷ r);
}

head_of-cons :
    (r r' : List (String × String)) (name sha : String)
    → ok ((name, sha) ∷ r) ≡ ok r'
    → (b : String) → head_of r' b ≡ (if b == name then some sha else head_of r b)
head_of-cons r r' name sha e b = ap (λ x. head_of x b) (sym (ok_injective e))

heads-IsGit : IsGit heads
heads-IsGit = record {
  head-push = λ r from_ref to_ref r' e b. head_of-cons r r' to_ref from_ref e b;
  head-create_branch_ref = λ r name sha r' e b. head_of-cons r r' name sha e b;
}

abbrev released : List (String × String)
released = ("rel-318", "318.1@abc") ∷ ("rel-318", "abc") ∷ []

first_released :
    ensure_target_branch_exists heads "rel-318" "abc" "318.0" [] ≡ ok (released, "318.1")
unfolding ensure_target_branch_exists map_result split int_of strip contains text_of
first_released = refl

ensure_target_branch_exists-bump_commit_example :
    (major minor : Whole) × (commit : String) × (components "318.0" ≡ ok (major, minor))
    × (heads.rev_parse [] "abc" ≡ ok commit)
    × (contains (heads.branches []) "rel-318" ≡ not (is_zero minor))
    × ("318.1" ≡ next_release_version major minor)
    × (heads.head released "rel-318" ≡ some (bump_commit heads "318.1" commit))
    × ((b : String) → (b == "rel-318") ≡ false → heads.head released b ≡ heads.head [] b)
ensure_target_branch_exists-bump_commit_example =
    ensure_target_branch_exists-bump_commit heads "rel-318" "abc" "318.0" [] released "318.1"
      heads-IsGit first_released

two_components : components "318.0" ≡ ok (plus 318, plus 0)
unfolding components map_result split int_of strip
two_components = refl

already_there : contains (heads.branches released) "rel-318" ≡ is_zero (plus 0)
unfolding contains is_zero
already_there = refl
