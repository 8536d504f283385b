-- ===== src/ReleaseBranch/Step.antt =====
-- `release_step` of ci/steps/release_step.py: the release branch, and the release on GitHub.
use gardenlinux.Prelude.{
  ℕ, ◌≡◌, refl, String, true, Bool, Option, none, some, List, if◌then◌else◌, contains,
}
use gardenlinux.Prelude.Result.{Result, ok, err, attribute_error, ◌>>=◌}
use gardenlinux.Model.Targets.{BuildTarget, target_eq, set_from_str, github_release}
use gardenlinux.Model.Versions.{plus, text_of, next_release_version_from_workingtree}
use gardenlinux.ReleaseBranch.{Git, ensure_target_branch_exists, release_branch_name}

-- `release._git_helper(giturl=giturl)`: the module has no such attribute.
unfoldable pub git_helper : Result (Unit {0})
git_helper = err attribute_error

module _ (G : Git) where
  open G use {Remote}

  -- What a step leaves: the remote repository, the VERSION file, if it was written, and the code
  -- that it exits with, if it does not return.
  pub record Ended : Type 0 where
    pub remote : Remote
    pub version_file : Option String
    pub exit_code : Option ℕ

  -- From the test for the target on; `make_release` is that of ci/github_release.py.
  unfoldable pub release : (Remote → Result Bool) → String → ℕ → List String → Remote → Result Ended
  unfolding git_helper
  release make_release committish gardenlinux_epoch lines r = do
    release_version ← next_release_version_from_workingtree lines lines gardenlinux_epoch
    _ ← git_helper
    (r', written) ←
        ensure_target_branch_exists G (release_branch_name (text_of (plus gardenlinux_epoch)))
          committish release_version r
    release_created ← make_release r'
    ok (record {
      remote = r';
      version_file = some written;
      exit_code = some (if release_created then 0 else 1);
    })

  -- `release_step`, of the lines of the VERSION file
  unfoldable pub release_step :
      (Remote → Result Bool) → String → String → ℕ → List String → Remote → Result Ended
  unfolding release
  release_step make_release build_targets committish gardenlinux_epoch lines r = do
    build_target_set ← set_from_str build_targets
    let released = release make_release committish gardenlinux_epoch lines r
    (if contains build_target_set github_release
        then released
        else ok (record { remote = r; version_file = none; exit_code = none }))

  -- With the target github-release and a VERSION file that is read, the step raises an
  -- AttributeError, before the release branch is looked at.
  pub release_step_raises :
      (make_release : Remote → Result Bool) (build_targets committish version : String)
      (gardenlinux_epoch : ℕ) (lines : List String) (r : Remote) (targets : List BuildTarget)
      → set_from_str build_targets ≡ ok targets
      → contains targets github_release ≡ true
      → next_release_version_from_workingtree lines lines gardenlinux_epoch ≡ ok version
      → release_step make_release build_targets committish gardenlinux_epoch lines r
        ≡ err attribute_error
  unfolding release_step
  release_step_raises make_release build_targets committish version gardenlinux_epoch lines r
        targets read asked next =
      rw (read, asked, next) refl
