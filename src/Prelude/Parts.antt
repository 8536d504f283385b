-- ===== src/Prelude/Parts.antt =====
-- `str.split` at one character, `str.strip` and `in` for one character.
use Prim.Native.Nat.{ℕ}
use Prim.Native.Char.{Char, code}
use Prim.Native.String.{String, ◌++◌ as ◌<>◌}
use mathlib.Core.Path.{◌≡◌, refl, ap, ◌∙◌}
use mathlib.Core.Logic.{inl, inr}
use mathlib.Core.Bool.{Bool, true, false, ◌&&◌, ◌||◌}
use mathlib.Core.List.{List, [], ◌∷◌}
use native.Mathlib.Omega.{arith}
use text.Mathlib.TextLemmas.{cons-append, nil-append}
use gardenlinux.Prelude.Tests.{Bool-cases, leb, nat_beq, if◌then◌else◌}
use gardenlinux.Prelude.Lists.{All}
use gardenlinux.Prelude.Text.{join}

-- The characters that `str.strip` removes.
unfoldable pub is_space : ℕ → Bool
is_space c =
    (leb 9 c && leb c 13)
    || (leb 28 c && leb c 32)
    || nat_beq c 0x85
    || nat_beq c 0xa0
    || nat_beq c 0x1680
    || (leb 0x2000 c && leb c 0x200a)
    || nat_beq c 0x2028
    || nat_beq c 0x2029
    || nat_beq c 0x202f
    || nat_beq c 0x205f
    || nat_beq c 0x3000

is_empty : String → Bool
is_empty String.[] = true
is_empty (String.◌∷◌ c s) = false

unfoldable pub lstrip : String → String
unfolding is_space
lstrip String.[] = ""
lstrip (String.◌∷◌ c s) = let rest = lstrip s in if is_space (code c) then rest else String.◌∷◌ c s

unfoldable pub rstrip : String → String
unfolding is_space is_empty
rstrip String.[] = ""
rstrip (String.◌∷◌ c s) =
    let rest = rstrip s in if is_empty rest && is_space (code c) then "" else String.◌∷◌ c rest

unfoldable pub strip : String → String
unfolding lstrip rstrip
strip s = rstrip (lstrip s)

-- `separator in s`
unfoldable pub has_char : ℕ → String → Bool
has_char separator String.[] = false
has_char separator (String.◌∷◌ c s) = nat_beq (code c) separator || has_char separator s

-- The character in front of the first part.
before_first : Char → List String → List String
before_first c [] = String.◌∷◌ c "" ∷ []
before_first c (part ∷ parts) = String.◌∷◌ c part ∷ parts

-- `s.split(separator)`
unfoldable pub split : ℕ → String → List String
unfolding before_first
split separator String.[] = "" ∷ []
split separator (String.◌∷◌ c s) =
    let parts = split separator s in
    if nat_beq (code c) separator then "" ∷ parts else before_first c parts

module _ (sep : Char) where
  split_one : (s : String) → has_char (code sep) s ≡ false → split (code sep) s ≡ s ∷ []
  unfolding split has_char
  split_one String.[] h = refl
  split_one (String.◌∷◌ c s) h = ground (arith, split_one s)

  split-append :
      (s t : String)
      → has_char (code sep) s ≡ false
      → split (code sep) (s <> String.◌∷◌ sep t) ≡ s ∷ split (code sep) t
  unfolding split has_char
  split-append String.[] t h = rw nil-append (ground arith)
  split-append (String.◌∷◌ c s) t h = rw cons-append (ground (arith, split-append s t))

  -- Splitting undoes joining, where no part has the separator.
  pub split-join :
      (s : String) (parts : List String)
      → All (λ part. has_char (code sep) part ≡ false) (s ∷ parts)
      → split (code sep) (join (String.◌∷◌ sep "") (s ∷ parts)) ≡ s ∷ parts
  unfolding join
  split-join s [] (h, _) = split_one s h
  split-join s (t ∷ rest) (h, k) =
      rw (cons-append, nil-append)
        (split-append s (join (String.◌∷◌ sep "") (t ∷ rest)) h
          ∙ ap (λ r. s ∷ r) (split-join t rest k))

pub has_char-lstrip : (c : ℕ) (s : String) → has_char c s ≡ false → has_char c (lstrip s) ≡ false
unfolding has_char lstrip
has_char-lstrip c String.[] h = refl
has_char-lstrip c (String.◌∷◌ d s) h = ground (arith, has_char-lstrip c s)

pub has_char-rstrip : (c : ℕ) (s : String) → has_char c s ≡ false → has_char c (rstrip s) ≡ false
unfolding has_char rstrip
has_char-rstrip c String.[] h = refl
has_char-rstrip c (String.◌∷◌ d s) h = ground (arith, has_char-rstrip c s)

pub has_char-strip : (c : ℕ) (s : String) → has_char c s ≡ false → has_char c (strip s) ≡ false
unfolding strip
has_char-strip c s h = has_char-rstrip c (lstrip s) (has_char-lstrip c s h)

-- `parts[0]`
abbrev pub first_part : List String → String
first_part [] = ""
first_part (p ∷ ps) = p

has_char-before_first :
    (c : ℕ) (d : Char) (parts : List String)
    → nat_beq (code d) c ≡ false
    → has_char c (first_part parts) ≡ false
    → has_char c (first_part (before_first d parts)) ≡ false
unfolding has_char before_first
has_char-before_first c d [] h k = ground arith
has_char-before_first c d (p ∷ ps) h k = ground arith

-- The first part has no separator.
pub has_char-split : (c : ℕ) (s : String) → has_char c (first_part (split c s)) ≡ false
unfolding has_char split
has_char-split c String.[] = refl
has_char-split c (String.◌∷◌ d s) = elim (Bool-cases (nat_beq (code d) c)) [
  | inl here ↦ rw here refl
  | inr other ↦ rw other (has_char-before_first c d (split c s) other (has_char-split c s))
]
