-- ===== src/Tests/VersionRuns.antt =====
-- Epochs and VERSION files.
use gardenlinux.Prelude.{
  string_eq, ◌+◌, ◌*◌, ◌≡◌, ◌≢◌, refl, String, false, List, [], ◌∷◌, strip, split, has_char, arith,
}
use gardenlinux.Prelude.Result.{ok, err, value_error}
use gardenlinux.Model.Versions.{
  day, snapshot_date, without_comment, parse_version_from_workingtree,
  gardenlinux_epoch_from_workingtree, next_release_version_from_workingtree,
}
use gardenlinux.Model.Versions.Lines.{IsOnLine, parse_version_from_workingtree-IsOnLine}

fourth_day : snapshot_date 1000 4 ≡ ok (1000 + 3 * day)
unfolding snapshot_date
fourth_day = refl

abbrev version_file : List String
version_file = "# the next version\n" ∷ "\n" ∷ "318.9 # soon\n" ∷ "319\n" ∷ []

version_read : parse_version_from_workingtree version_file ≡ ok "318.9"
unfolding parse_version_from_workingtree strip has_char split
version_read = refl

parse_version_from_workingtree-IsOnLine_example :
    (has_char b'#' "318.9" ≡ false)
    × (line : String) × IsOnLine version_file line
    × ("318.9" ≡ without_comment (strip line))
parse_version_from_workingtree-IsOnLine_example =
    parse_version_from_workingtree-IsOnLine version_file "318.9" version_read

next_read : next_release_version_from_workingtree [] version_file 5 ≡ ok "318.9"
unfolding next_release_version_from_workingtree strip has_char split
next_read = refl

abbrev version_text : String
version_text = "318.9"

released : version_text ≢ "today"
released h = ground (arith, (string_eq.equals_iff version_text "today").1 h)

-- A file that says `today` takes the epoch from the default file.
next_of_today : next_release_version_from_workingtree ("318.9" ∷ []) ("today" ∷ []) 5 ≡ ok "318.0"
unfolding next_release_version_from_workingtree strip has_char split
next_of_today = refl

-- `dev` is not understood.
dev_refused : gardenlinux_epoch_from_workingtree ("dev" ∷ []) 5 ≡ err value_error
unfolding gardenlinux_epoch_from_workingtree strip split has_char
dev_refused = refl
