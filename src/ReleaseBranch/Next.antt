-- ===== src/ReleaseBranch/Next.antt =====
-- Reading the version that a release writes.
use gardenlinux.Prelude.{ℕ, ◌+◌, ◌≡◌, refl, ◌<>◌, [], ◌∷◌, split, split-join, join, arith}
use gardenlinux.Prelude.Result.{ok, map_result}
use gardenlinux.Model.Versions.{plus, text_of}
use gardenlinux.Model.Versions.Decimal.{int_of-text_of, has_char-text_of}
use gardenlinux.ReleaseBranch.{next, two_of, components, next_release_version}

-- The next release version has the components of the version before, the second one higher.
pub components-next_release_version :
    (major minor : ℕ)
    → components (next_release_version (plus major) (plus minor))
      ≡ ok (plus major, plus (minor + 1))
unfolding components next_release_version next two_of map_result join
components-next_release_version major minor =
    let first = text_of (plus major) in
    let second = text_of (plus (minor + 1)) in
    let parts : split b'.' (first <> ("." <> second)) ≡ first ∷ second ∷ [] =
      split-join "." first (second ∷ []) (
        has_char-text_of 46 major (omega arith),
        (has_char-text_of 46 (minor + 1) (omega arith), tt),
      ) in
    rw (parts, int_of-text_of major, int_of-text_of (minor + 1)) refl
