-- ===== src/Model/Versions/Lines.antt =====
-- Which line of the VERSION file the version stands on.
use gardenlinux.Prelude.{
  ◌≡◌, ◌↔◌, refl, ap, sym, subst, String, true, false, List, [], ◌∷◌, ◌++◌, All, strip, has_char,
  has_char-strip, has_char-split, split, first_part, Bool-cases, inl, inr, arith,
}
use gardenlinux.Prelude.Result.{ok, err, value_error, ok_injective}
use gardenlinux.Model.Versions.{is_ignored, without_comment, parse_version_from_workingtree}

-- The lines up to the one of the version are ignored, and that one is not.
pub record IsOnLine (lines : List String) (line : String) : Type 0 where
  pub before : List String
  pub after : List String
  pub parts : lines ≡ before ++ (line ∷ after)
  pub ignored : All (λ l. is_ignored (strip l) ≡ true) before
  pub taken : is_ignored (strip line) ≡ false

uncommented : (line : String) → has_char b'#' (without_comment line) ≡ false
unfolding without_comment
uncommented line = elim (Bool-cases (has_char b'#' line)) [
  | inl commented ↦
      rw commented (has_char-strip b'#' (first_part (split b'#' line)) (has_char-split b'#' line))
  | inr plain ↦ rw plain plain
]

-- A version that is read has no comment, and stands on the first line that is neither blank nor a
-- comment.
pub parse_version_from_workingtree-IsOnLine :
    (lines : List String) (v : String)
    → parse_version_from_workingtree lines ≡ ok v
    → (has_char b'#' v ≡ false)
      × (line : String) × IsOnLine lines line
      × (v ≡ without_comment (strip line))
unfolding parse_version_from_workingtree
parse_version_from_workingtree-IsOnLine [] v e = absurd (ground arith)
parse_version_from_workingtree-IsOnLine (l ∷ lines) v e = elim (Bool-cases (is_ignored (strip l))) [
  | inl passed ↦
      let (plain, line, on, same) =
        parse_version_from_workingtree-IsOnLine lines v (rw passed at e) in
      (
        plain,
        line,
        record {
          before = l ∷ on.before;
          after = on.after;
          parts = ap (λ ls. l ∷ ls) on.parts;
          ignored = (passed, on.ignored);
          taken = on.taken;
        },
        same,
      )
  | inr taken ↦
      let same = ok_injective (rw taken at e) in
      (
        subst (λ x. has_char b'#' x ≡ false) same (uncommented (strip l)),
        l,
        record { before = []; after = lines; parts = refl; ignored = tt; taken = taken },
        sym same,
      )
]

-- No version is read exactly if every line is blank or a comment.
pub parse_version_from_workingtree_none :
    (lines : List String)
    → (parse_version_from_workingtree lines ≡ err value_error)
      ↔ All (λ l. is_ignored (strip l) ≡ true) lines
unfolding parse_version_from_workingtree
parse_version_from_workingtree_none [] = (λ _. tt, λ _. refl)
parse_version_from_workingtree_none (l ∷ lines) = elim (Bool-cases (is_ignored (strip l))) [
  | inl passed ↦ rw passed (
    λ e. (refl, (parse_version_from_workingtree_none lines).0 e),
    λ (_, k). (parse_version_from_workingtree_none lines).1 k,
  )
  | inr taken ↦ rw taken (λ e. absurd (ground arith), λ (p, k). absurd (ground arith))
]
