-- ===== src/Model/Versions.antt =====
-- The epoch of a date, the VERSION file and the lookups of configurations (ci/glci/model.py,
-- ci/glci/util.py). A date is a number of microseconds from some origin; a file is the list of its
-- lines.
pub mod Epoch
pub mod Lines
pub mod Next
pub mod Decimal
use gardenlinux.Prelude.{
  ◌<>◌, ℕ, zero, suc, ◌+◌, ◌-◌, ◌*◌, ◌≡◌, String, Bool, true, false, ◌&&◌, ◌||◌, Option, none, some,
  List, [], ◌∷◌, ◌==◌, if◌then◌else◌, string_eq, ltb, leb, nat_beq, first_part, strip, has_char,
  split,
}
use Prim.Native.Char.{Char, code}
use Prim.Native.Nat.{◌/◌, ◌%◌}
use gardenlinux.Prelude.Result.{
  Result, ok, err, value_error, runtime_error, not_implemented_error, ◌>>=◌, ◌>>◌, guard,
}
use gardenlinux.Model.Flavours.{FlavourSet}

abbrev pub day : ℕ
day = 86_400_000_000

-- `gardenlinux_epoch(date)`, with the epoch date: the whole days since it, and one. An earlier date
-- has a negative number of days.
unfoldable pub gardenlinux_epoch : ℕ → ℕ → Result ℕ
gardenlinux_epoch epoch_date date =
    if ltb date epoch_date then err value_error else ok ((date - epoch_date) / day + 1)

-- `snapshot_date(gardenlinux_epoch)`, before it is formatted
unfoldable pub snapshot_date : ℕ → ℕ → Result ℕ
snapshot_date epoch_date gardenlinux_epoch =
    if ltb gardenlinux_epoch 1
    then err value_error
    else ok (epoch_date + (gardenlinux_epoch - 1) * day)

-- `line.startswith('#')`
abbrev pub is_comment : String → Bool
is_comment String.[] = false
is_comment (String.◌∷◌ c s) = nat_beq (code c) b'#'

-- A line that is passed over, after stripping.
unfoldable pub is_ignored : String → Bool
is_ignored line = line == "" || is_comment line

-- The version on a line: what stands before a comment, stripped again.
unfoldable pub without_comment : String → String
without_comment line = if has_char b'#' line then strip (first_part (split b'#' line)) else line

-- `_parse_version_from_workingtree`, of the lines of the file
unfoldable pub parse_version_from_workingtree : List String → Result String
unfolding is_ignored without_comment
parse_version_from_workingtree [] = err value_error
parse_version_from_workingtree (line ∷ lines) =
    let rest = parse_version_from_workingtree lines in
    if is_ignored (strip line) then rest else ok (without_comment (strip line))

-- `flavour_set(flavour_set_name)`, of the sets that are declared
unfoldable pub flavour_set : String → List FlavourSet → Result FlavourSet
flavour_set flavour_set_name [] = err runtime_error
flavour_set flavour_set_name (fs ∷ sets) =
    let rest = flavour_set flavour_set_name sets in
    if fs.name == flavour_set_name then ok fs else rest

-- The object that is of interest for each platform.
unfoldable pub virtual_image_artifact_for_platform : String → Result String
virtual_image_artifact_for_platform p =
    if p == "ali"
    then ok "rootfs.qcow2"
    else if p == "aws"
    then ok "rootfs.raw"
    else if p == "azure"
    then ok "rootfs.vhd"
    else if p == "gcp"
    then ok "rootfs-gcpimage.tar.gz"
    else if p == "kvm"
    then ok "rootfs.raw"
    else if p == "metal"
    then ok "rootfs.tar.xz"
    else if p == "oci"
    then ok "rootfs.tar.xz"
    else if p == "openstack"
    then ok "rootfs.vmdk"
    else if p == "vmware"
    then ok "rootfs.ova"
    else err not_implemented_error

-- What `int(text)` returns.
pub data Whole : Type 0 where
  plus minus : ℕ → Whole

-- The digits of a number, with the value so far, and whether the last character was a digit: single
-- underscores may stand between digits. Digits outside ASCII are left out.
unfoldable pub digits_from : ℕ → Bool → String → Result ℕ
digits_from n after_digit String.[] = if after_digit then ok n else err value_error
digits_from n after_digit (String.◌∷◌ c s) =
    let with_digit = digits_from (n * 10 + (code c - b'0')) true s in
    let with_underscore = digits_from n false s in
    if leb b'0' (code c) && leb (code c) b'9'
    then with_digit
    else if nat_beq (code c) b'_' && after_digit
    then with_underscore
    else err value_error

signed : String → Result Whole
unfolding digits_from
signed String.[] = err value_error
signed (String.◌∷◌ c s) =
    if nat_beq (code c) b'-'
    then (do n ← digits_from 0 false s; ok (minus n))
    else if nat_beq (code c) b'+'
    then (do n ← digits_from 0 false s; ok (plus n))
    else (do n ← digits_from 0 false (String.◌∷◌ c s); ok (plus n))

-- `int(text)`
unfoldable pub int_of : String → Result Whole
unfolding signed
int_of text = signed (strip text)

abbrev pub digit : ℕ → Char
digit n =
    if nat_beq n 0
    then "0"
    else if nat_beq n 1
    then "1"
    else if nat_beq n 2
    then "2"
    else if nat_beq n 3
    then "3"
    else if nat_beq n 4
    then "4"
    else if nat_beq n 5
    then "5"
    else if nat_beq n 6
    then "6"
    else if nat_beq n 7
    then "7"
    else if nat_beq n 8
    then "8"
    else "9"

-- The decimal digits of a number, in front of a text; so many of them at most.
unfoldable pub decimal : ℕ → ℕ → String → String
decimal zero n s = s
decimal (suc fuel) n s =
    let higher = decimal fuel (n / 10) (String.◌∷◌ (digit (n % 10)) s) in
    if ltb n 10 then String.◌∷◌ (digit n) s else higher

-- `str(n)`; a number has no more digits than its successor says.
unfoldable pub text_of : Whole → String
unfolding decimal
text_of (plus n) = decimal (suc n) n ""
text_of (minus n) = if nat_beq n 0 then "0" else String.◌∷◌ "-" (decimal (suc n) n "")

-- `except ValueError: pass`, and the test for `today`
unfoldable pub or_today : String → ℕ → Result Whole → Result Whole
or_today version epoch (ok e) = ok e
or_today version epoch (err value_error) =
    if version == "today" then ok (plus epoch) else err value_error
or_today version epoch (err e) = err e

-- `gardenlinux_epoch_from_workingtree`, of the lines of a file
unfoldable pub gardenlinux_epoch_from_workingtree : List String → ℕ → Result Whole
unfolding or_today int_of parse_version_from_workingtree
gardenlinux_epoch_from_workingtree lines epoch = do
  version_str ← parse_version_from_workingtree lines
  or_today version_str epoch (int_of (first_part (split b'.' version_str)))

-- The unpacking of two components that have to be numbers.
unfoldable pub with_components : String → List String → Result String
with_components version (epoch ∷ patchlevel ∷ []) = do
  _ ← int_of epoch
  _ ← int_of patchlevel
  ok version
with_components version _ = err value_error

-- `next_release_version_from_workingtree`: the epoch is read from the default file, whatever file
-- the version is read from.
unfoldable pub next_release_version_from_workingtree : List String → List String → ℕ → Result String
unfolding gardenlinux_epoch_from_workingtree text_of with_components
next_release_version_from_workingtree default_lines lines epoch = do
  version_str ← parse_version_from_workingtree lines
  let default_version = (do
    e ← gardenlinux_epoch_from_workingtree default_lines epoch
    ok (text_of e <> ".0")) in
      if version_str == "today"
      then default_version
      else with_components version_str (split b'.' version_str)
