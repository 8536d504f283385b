-- ===== src/ReleaseBranch/Bump.antt =====
-- What `ensure_target_branch_exists` leaves in the repository, and when it exits.
use gardenlinux.Prelude.{
  ◌≡◌, refl, sym, ap, ◌∙◌, String, Bool, true, false, not, some, ◌==◌, string_eq, beq_refl,
  contains, Bool-cases, inl, inr, arith,
}
use gardenlinux.Prelude.Result.{ok, err, system_exit, >>=-ok, ok_injective}
use gardenlinux.Model.Versions.{Whole}
use gardenlinux.ReleaseBranch.{
  Git, IsGit, is_zero, components, next_release_version, with_branch, bump_commit,
  ensure_target_branch_exists,
}

module _ (G : Git) where
  open G use {Remote}

  with_branch-ok :
      (branch commit : String) (first : Bool) (r r' : Remote)
      → IsGit G
      → with_branch G branch commit first r ≡ ok r'
      → (contains (G.branches r) branch ≡ not first)
        × ((b : String) → (b == branch) ≡ false → G.head r' b ≡ G.head r b)
  unfolding with_branch
  with_branch-ok branch commit true r r' L e = elim (Bool-cases (contains (G.branches r) branch)) [
    | inl there ↦ absurd (ground (arith, rw there at e))
    | inr missing ↦ (
      missing,
      λ b other.
          L.head-create_branch_ref r branch commit r' (rw missing at e) b ∙ ground (arith, other),
    )
  ]
  with_branch-ok branch commit false r r' L e = elim (Bool-cases (contains (G.branches r) branch)) [
    | inl there ↦ (there, λ b other. ap (λ x. G.head x b) (sym (ok_injective (rw there at e))))
    | inr missing ↦ absurd (ground (arith, rw missing at e))
  ]

  -- Where git behaves as documented, a release that returns has two numbers as components, and its
  -- branch was missing before exactly if the second is zero. The VERSION file then holds the next
  -- version, the branch points at the commit of that file on top of the released commit, and all
  -- other branches are as before.
  pub ensure_target_branch_exists-bump_commit :
      (branch committish version : String) (r r' : Remote) (written : String)
      → IsGit G
      → ensure_target_branch_exists G branch committish version r ≡ ok (r', written)
      → (major minor : Whole) × (commit : String) × (components version ≡ ok (major, minor))
        × (G.rev_parse r committish ≡ ok commit)
        × (contains (G.branches r) branch ≡ not (is_zero minor))
        × (written ≡ next_release_version major minor)
        × (G.head r' branch ≡ some (bump_commit G written commit))
        × ((b : String) → (b == branch) ≡ false → G.head r' b ≡ G.head r b)
  unfolding ensure_target_branch_exists
  ensure_target_branch_exists-bump_commit branch committish version r r' written L e =
      let ((major, minor), p, e₁) = >>=-ok (components version) _ e in
      let (commit, q, e₂) = >>=-ok (G.rev_parse r committish) _ e₁ in
      let (r₁, w, e₃) = >>=-ok (with_branch G branch commit (is_zero minor) r) _ e₂ in
      let (r₂, u, e₄) =
        >>=-ok (G.push r₁ (bump_commit G (next_release_version major minor) commit) branch) _ e₃ in
      let at_end = ok_injective e₄ in
      let last = ap (λ x. x.0) at_end in
      let text = ap (λ x. x.1) at_end in
      let (before, others) = with_branch-ok branch commit (is_zero minor) r r₁ L w in
      let pushed =
        L.head-push r₁ (bump_commit G (next_release_version major minor) commit) branch r₂ u in
      (
        major,
        minor,
        commit,
        p,
        q,
        before,
        sym text,
        ap (λ x. G.head x branch) (sym last)
            ∙ pushed branch
            ∙ ground (arith, beq_refl branch)
            ∙ ap (λ v. some (bump_commit G v commit)) text,
        λ b other.
            ap (λ x. G.head x b) (sym last) ∙ pushed b ∙ ground (arith, other) ∙ others b other,
      )

  -- A first release whose branch is there already, and a patch release whose branch is missing,
  -- exit with code 1.
  pub ensure_target_branch_exists_refused :
      (branch committish version commit : String) (major minor : Whole) (r : Remote)
      → components version ≡ ok (major, minor)
      → G.rev_parse r committish ≡ ok commit
      → contains (G.branches r) branch ≡ is_zero minor
      → ensure_target_branch_exists G branch committish version r ≡ err (system_exit 1)
  unfolding ensure_target_branch_exists with_branch
  ensure_target_branch_exists_refused branch committish version commit major minor r p q same =
      elim (Bool-cases (is_zero minor)) [
        | inl first ↦ rw (p, q, same, first) refl
        | inr later ↦ rw (p, q, same, later) refl
      ]
