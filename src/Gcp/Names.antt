-- ===== src/Gcp/Names.antt =====
-- The names of images on GCP.
use gardenlinux.Prelude.{
  ℕ, ◌≡◌, refl, ◌⊎◌, inl, inr, String, true, false, ◌&&◌, nat_beq, has_char, Bool-cases, arith,
}
use Prim.Native.Char.{Char, code}
use gardenlinux.Gcp.{replace_char, lstrip_char, rstrip_char, is_empty, without_dots}

has_char-replace :
    (old : ℕ) (new : Char) (c : ℕ) (s : String)
    → nat_beq (code new) c ≡ false
    → (nat_beq old c ≡ true) ⊎ (has_char c s ≡ false)
    → has_char c (replace_char old new s) ≡ false
unfolding has_char replace_char
has_char-replace old new c String.[] h k = refl
has_char-replace old new c (String.◌∷◌ d s) h (inl same) =
    ground (arith, has_char-replace old new c s h (inl same))
has_char-replace old new c (String.◌∷◌ d s) h (inr free) =
    ground (arith, has_char-replace old new c s h (inr (ground arith)))

has_char-lstrip :
    (d c : ℕ) (s : String) → has_char c s ≡ false → has_char c (lstrip_char d s) ≡ false
unfolding has_char lstrip_char
has_char-lstrip d c String.[] h = refl
has_char-lstrip d c (String.◌∷◌ x s) h = ground (arith, has_char-lstrip d c s)

has_char-rstrip :
    (d c : ℕ) (s : String) → has_char c s ≡ false → has_char c (rstrip_char d s) ≡ false
unfolding has_char rstrip_char
has_char-rstrip d c String.[] h = refl
has_char-rstrip d c (String.◌∷◌ x s) h = ground (arith, has_char-rstrip d c s)

-- `not text.startswith(d)`
abbrev pub NotBefore : ℕ → String → Type 0
NotBefore d String.[] = Unit
NotBefore d (String.◌∷◌ c s) = nat_beq (code c) d ≡ false

-- `not text.endswith(d)`
abbrev pub NotAfter : ℕ → String → Type 0
NotAfter d String.[] = Unit
NotAfter d (String.◌∷◌ c String.[]) = nat_beq (code c) d ≡ false
NotAfter d (String.◌∷◌ c (String.◌∷◌ e s)) = NotAfter d (String.◌∷◌ e s)

lstrip-NotBefore : (d : ℕ) (s : String) → NotBefore d (lstrip_char d s)
unfolding lstrip_char
lstrip-NotBefore d String.[] = tt
lstrip-NotBefore d (String.◌∷◌ c s) = elim (Bool-cases (nat_beq (code c) d)) [
  | inl here ↦ rw here (lstrip-NotBefore d s)
  | inr there ↦ rw there there
]

rstrip-NotBefore : (d : ℕ) (s : String) → NotBefore d s → NotBefore d (rstrip_char d s)
unfolding rstrip_char
rstrip-NotBefore d String.[] h = tt
rstrip-NotBefore d (String.◌∷◌ c s) h = rw h h

cons-NotAfter :
    (d : ℕ) (c : Char) (s : String)
    → NotAfter d s
    → (nat_beq (code c) d && is_empty s) ≡ false
    → NotAfter d (String.◌∷◌ c s)
cons-NotAfter d c String.[] h k = ground arith
cons-NotAfter d c (String.◌∷◌ e s) h k = h

rstrip-NotAfter : (d : ℕ) (s : String) → NotAfter d (rstrip_char d s)
unfolding rstrip_char
rstrip-NotAfter d String.[] = tt
rstrip-NotAfter d (String.◌∷◌ c s) =
    elim (Bool-cases (nat_beq (code c) d && is_empty (rstrip_char d s))) [
      | inl bare ↦ rw bare tt
      | inr full ↦ rw full (cons-NotAfter d c (rstrip_char d s) (rstrip-NotAfter d s) full)
    ]

-- The name of an image has neither dots nor underscores, and neither begins nor ends with a dash.
pub without_dots_lem :
    (text : String)
    → let name = without_dots text in
      (has_char b'.' name ≡ false)
      × (has_char b'_' name ≡ false)
      × NotBefore b'-' name
      × NotAfter b'-' name
unfolding without_dots
without_dots_lem text =
    let dotless : has_char b'.' (replace_char b'.' "-" text) ≡ false =
      has_char-replace b'.' "-" b'.' text refl (inl refl) in
    let name = replace_char b'_' "-" (replace_char b'.' "-" text) in
    let no_dots : has_char b'.' name ≡ false =
      has_char-replace b'_' "-" b'.' (replace_char b'.' "-" text) refl (inr dotless) in
    let no_underscores : has_char b'_' name ≡ false =
      has_char-replace b'_' "-" b'_' (replace_char b'.' "-" text) refl (inl refl) in
    (
      has_char-rstrip b'-' b'.' _ (has_char-lstrip b'-' b'.' name no_dots),
      has_char-rstrip b'-' b'_' _ (has_char-lstrip b'-' b'_' name no_underscores),
      rstrip-NotBefore b'-' _ (lstrip-NotBefore b'-' name),
      rstrip-NotAfter b'-' (lstrip_char b'-' name),
    )
