-- ===== src/Model/Versions/Next.antt =====
-- The next release version and the epoch of the same file.
use gardenlinux.Prelude.{
  ℕ, ◌≡◌, ◌≢◌, refl, ap, sym, ◌∙◌, String, false, List, [], ◌∷◌, ◌==◌, string_eq, split, arith,
}
use gardenlinux.Prelude.Result.{ok, >>=-ok, ok_injective}
use gardenlinux.Model.Versions.{
  Whole, int_of, or_today, parse_version_from_workingtree, gardenlinux_epoch_from_workingtree,
  with_components, next_release_version_from_workingtree,
}

with_components-ok :
    (version : String) (parts : List String) (v : String)
    → with_components version parts ≡ ok v
    → (v ≡ version)
      × (major : String) × (minor : String) × (e : Whole) × (p : Whole) × (parts
          ≡ major ∷ minor ∷ [])
      × (int_of major ≡ ok e)
      × (int_of minor ≡ ok p)
unfolding with_components
with_components-ok version [] v h = absurd (ground arith)
with_components-ok version (a ∷ []) v h = absurd (ground arith)
with_components-ok version (a ∷ b ∷ c ∷ ps) v h = absurd (ground arith)
with_components-ok version (a ∷ b ∷ []) v h =
    let (e, i, h₁) = >>=-ok (int_of a) _ h in
    let (p, j, h₂) = >>=-ok (int_of b) _ h₁ in (sym (ok_injective h₂), a, b, e, p, refl, i, j)

-- Where the file does not say `today`, a next release version is the version of the file. It has
-- two components that are numbers, and the first is the epoch that is read from the same file.
pub next_release_version-epoch :
    (default_lines lines : List String) (epoch : ℕ) (version v : String)
    → parse_version_from_workingtree lines ≡ ok version
    → version ≢ "today"
    → next_release_version_from_workingtree default_lines lines epoch ≡ ok v
    → (v ≡ version)
      × (major : String) × (minor : String) × (e : Whole) × (p : Whole) × (split b'.' v
          ≡ major ∷ minor ∷ [])
      × (int_of major ≡ ok e)
      × (int_of minor ≡ ok p)
      × (gardenlinux_epoch_from_workingtree lines epoch ≡ ok e)
unfolding next_release_version_from_workingtree gardenlinux_epoch_from_workingtree or_today
next_release_version-epoch default_lines lines epoch version v read other h =
    let not_today : (version == "today") ≡ false =
      ground (arith, string_eq.equals_iff version "today") in
    let (same, major, minor, e, p, parts, i, j) =
      with_components-ok version (split b'.' version) v (rw (read, not_today) at h) in
    (same, major, minor, e, p, ap (split b'.') same ∙ parts, i, j, rw (read, parts, i) refl)
