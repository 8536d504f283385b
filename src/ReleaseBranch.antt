-- ===== src/ReleaseBranch.antt =====
-- `ensure_target_branch_exists` of ci/release.py. What git and GitHub do is a parameter, `Git`.
pub mod Bump
pub mod Next
pub mod Step
use gardenlinux.Prelude.{
  ℕ, suc, ◌+◌, ◌-◌, ◌≡◌, ◌≢◌, String, ◌<>◌, Bool, true, false, ◌&&◌, not, Option, none, some, List,
  [], ◌∷◌, map, ◌==◌, if◌then◌else◌, string_eq, nat_beq, contains, split, first_part,
}
use gardenlinux.Prelude.Result.{
  Result, ok, err, value_error, system_exit, ◌>>=◌, ◌>>◌, guard, map_result,
}
use gardenlinux.Model.Versions.{Whole, plus, minus, int_of, text_of}

pub record Git : Type 1 where
  -- The state of the remote repository.
  pub Remote : Type 0
  -- `repo.rev_parse(committish)`, as the hash of the commit
  pub rev_parse : Remote → String → Result String
  -- the names and the heads of the branches
  pub branches : Remote → List String
  pub head : Remote → String → Option String
  -- `gh_repo.create_branch_ref(name, sha)`
  pub create_branch_ref : Remote → String → String → Result Remote
  -- `git_helper.index_to_commit(message, parent_commits)`, of the contents of the VERSION file
  pub index_to_commit : String → String → String → String
  -- `git_helper.push(from_ref, to_ref)`
  pub push : Remote → String → String → Result Remote

-- What is documented of a new reference and of a push: the branch points at the commit, and every
-- other branch stays.
pub record IsGit (G : Git) : Type 0 where
  pub head-push :
      (r : G.Remote) (from_ref to_ref : String) (r' : G.Remote)
      → G.push r from_ref to_ref ≡ ok r'
      → (b : String) → G.head r' b ≡ (if b == to_ref then some from_ref else G.head r b)
  pub head-create_branch_ref :
      (r : G.Remote) (name sha : String) (r' : G.Remote)
      → G.create_branch_ref r name sha ≡ ok r'
      → (b : String) → G.head r' b ≡ (if b == name then some sha else G.head r b)

-- `n == 0`
unfoldable pub is_zero : Whole → Bool
is_zero (plus n) = nat_beq n 0
is_zero (minus n) = nat_beq n 0

-- `n + 1`
unfoldable pub next : Whole → Whole
next (plus n) = plus (n + 1)
next (minus n) = if nat_beq n 0 then plus 1 else minus (n - 1)

-- `major, minor = …`
two_of : List Whole → Result (Whole × Whole)
two_of (a ∷ b ∷ []) = ok (a, b)
two_of _ = err value_error

unfoldable pub components : String → Result (Whole × Whole)
unfolding two_of
components release_version = do vs ← map_result int_of (split b'.' release_version); two_of vs

-- `next_release_version`
unfoldable pub next_release_version : Whole → Whole → String
unfolding next
next_release_version major minor = text_of major <> ("." <> text_of (next minor))

-- `release_branch_name`, of the text of the epoch
unfoldable pub release_branch_name : String → String
release_branch_name gardenlinux_epoch = "rel-" <> gardenlinux_epoch

module _ (G : Git) where
  open G use {Remote}

  -- The branch of a first release is made, that of a patch release has to be there.
  unfoldable pub with_branch : String → String → Bool → Remote → Result Remote
  with_branch release_branch release_commit is_first_release r =
      let release_branch_exists = contains (G.branches r) release_branch in
      if is_first_release
      then (if release_branch_exists
          then err (system_exit 1)
          else G.create_branch_ref r release_branch release_commit)
      else if release_branch_exists
      then ok r
      else err (system_exit 1)

  unfoldable pub bump_commit : String → String → String
  bump_commit version release_commit =
      G.index_to_commit version ("prepare release of gardenlinux-" <> version) release_commit

  -- `ensure_target_branch_exists`: the remote repository and the contents of the VERSION file.
  unfoldable pub ensure_target_branch_exists :
      String → String → String → Remote → Result (Remote × String)
  unfolding components is_zero with_branch next_release_version bump_commit
  ensure_target_branch_exists release_branch release_committish release_version r = do
    (major, minor) ← components release_version
    release_commit ← G.rev_parse r release_committish
    with ← with_branch release_branch release_commit (is_zero minor) r
    pushed ←
        G.push with (bump_commit (next_release_version major minor) release_commit) release_branch
    ok (pushed, next_release_version major minor)

  -- `main`, of the release version and the committish
  unfoldable pub make_release_branch : String → String → Remote → Result (Remote × String)
  unfolding ensure_target_branch_exists release_branch_name
  make_release_branch release_version release_committish r = do
    gardenlinux_epoch ← int_of (first_part (split b'.' release_version))
    ensure_target_branch_exists (release_branch_name (text_of gardenlinux_epoch)) release_committish
        release_version r
