-- ===== src/Model/Versions/Decimal.antt =====
-- Reading the decimal text of a number.
use Prim.Native.Nat.{◌/◌, ◌%◌}
use Prim.Native.Char.{Char, code}
use gardenlinux.Prelude.{
  ℕ, zero, suc, ◌+◌, ◌*◌, ◌≡◌, ◌≢◌, ◌≤◌, ◌<◌, refl, ap, ◌∙◌, String, Bool, true, false, ◌&&◌,
  nat_beq, ltb, leb, if◌then◌else◌, Bool-cases, inl, inr, strip, lstrip, rstrip, is_space, has_char,
  arith,
}
use gardenlinux.Prelude.Result.{ok, ◌>>=◌}
use gardenlinux.Model.Versions.{plus, digit, decimal, digits_from, signed, int_of, text_of}

code-digit : (n : ℕ) → n < 10 → code (digit n) ≡ 48 + n
code-digit zero h = refl
code-digit (suc zero) h = refl
code-digit (suc (suc zero)) h = refl
code-digit (suc (suc (suc zero))) h = refl
code-digit (suc (suc (suc (suc zero)))) h = refl
code-digit (suc (suc (suc (suc (suc zero))))) h = refl
code-digit (suc (suc (suc (suc (suc (suc zero)))))) h = refl
code-digit (suc (suc (suc (suc (suc (suc (suc zero))))))) h = refl
code-digit (suc (suc (suc (suc (suc (suc (suc (suc zero)))))))) h = refl
code-digit (suc (suc (suc (suc (suc (suc (suc (suc (suc zero))))))))) h = refl
code-digit (suc (suc (suc (suc (suc (suc (suc (suc (suc (suc n)))))))))) h = absurd (omega arith)

leb-true : (a b : ℕ) → a ≤ b → leb a b ≡ true
leb-true a b h = ground arith

digit_lower : (n : ℕ) → n < 10 → 48 ≤ code (digit n)
digit_lower n h = let c = code-digit n h in omega (arith, c)

digit_upper : (n : ℕ) → n < 10 → code (digit n) ≤ 57
digit_upper n h = let c = code-digit n h in omega (arith, c)

-- A text of decimal digits.
abbrev pub IsDecimal : String → Type 0
IsDecimal String.[] = Unit
IsDecimal (String.◌∷◌ c s) = (48 ≤ code c) × (code c ≤ 57) × IsDecimal s

decimal-IsDecimal : (fuel n : ℕ) (s : String) → IsDecimal s → IsDecimal (decimal fuel n s)
unfolding decimal
decimal-IsDecimal zero n s h = h
decimal-IsDecimal (suc fuel) n s h = elim (Bool-cases (ltb n 10)) [
  | inl small ↦ rw small (digit_lower n (ground arith), digit_upper n (ground arith), h)
  | inr large ↦ rw large (
      decimal-IsDecimal fuel (n / 10) _
        (digit_lower (n % 10) (omega arith), digit_upper (n % 10) (omega arith), h))
]

read_digit :
    (acc : ℕ) (after : Bool) (n : ℕ) (s : String)
    → n < 10
    → digits_from acc after (String.◌∷◌ (digit n) s) ≡ digits_from (acc * 10 + n) true s
unfolding digits_from
read_digit acc after n s h =
    let c = code-digit n h in
    let low : leb 48 (code (digit n)) ≡ true = leb-true 48 (code (digit n)) (digit_lower n h) in
    let high : leb (code (digit n)) 57 ≡ true = leb-true (code (digit n)) 57 (digit_upper n h) in
    rw (low, high) (ap (λ m. digits_from (acc * 10 + m) true s) (omega (arith, c)))

-- With enough digits, the digits are read as the number.
digits_from-decimal :
    (fuel n : ℕ) (s : String)
    → n < fuel
    → digits_from 0 false (decimal fuel n s) ≡ digits_from n true s
unfolding decimal digits_from
digits_from-decimal zero n s h = absurd (omega arith)
digits_from-decimal (suc fuel) n s h = elim (Bool-cases (ltb n 10)) [
  | inl small ↦
      rw small
        (read_digit 0 false n s (ground arith) ∙ ap (λ m. digits_from m true s) (omega arith))
  | inr large ↦
      let lower : n / 10 < fuel = ground arith in
      let whole : n / 10 * 10 + n % 10 ≡ n = omega arith in
      rw large (
        digits_from-decimal fuel (n / 10) _ lower
        ∙ (read_digit (n / 10) true (n % 10) s (omega arith)
            ∙ ap (λ m. digits_from m true s) whole))
]

not_space : (c : ℕ) → 48 ≤ c → c ≤ 57 → is_space c ≡ false
unfolding is_space
not_space c h k = ground arith

lstrip-IsDecimal : (s : String) → IsDecimal s → lstrip s ≡ s
unfolding lstrip
lstrip-IsDecimal String.[] h = refl
lstrip-IsDecimal (String.◌∷◌ c s) (a, b, h) = rw (not_space (code c) a b) refl

and-false : (b : Bool) (x y : String) → (if b && false then x else y) ≡ y
and-false true x y = refl
and-false false x y = refl

rstrip-IsDecimal : (s : String) → IsDecimal s → rstrip s ≡ s
unfolding rstrip
rstrip-IsDecimal String.[] h = refl
rstrip-IsDecimal (String.◌∷◌ c s) (a, b, h) =
    rw (rstrip-IsDecimal s h, not_space (code c) a b) (and-false _ "" (String.◌∷◌ c s))

pub strip-IsDecimal : (s : String) → IsDecimal s → strip s ≡ s
unfolding strip
strip-IsDecimal s h = ap rstrip (lstrip-IsDecimal s h) ∙ rstrip-IsDecimal s h

pub has_char-IsDecimal : (c : ℕ) (s : String) → c < 48 → IsDecimal s → has_char c s ≡ false
unfolding has_char
has_char-IsDecimal c String.[] k h = refl
has_char-IsDecimal c (String.◌∷◌ d s) k (a, b, h) = ground (arith, has_char-IsDecimal c s k h)

nat_beq-false : (a b : ℕ) → a ≢ b → nat_beq a b ≡ false
nat_beq-false a b h = ground (arith, h)

signed-cons :
    (c : Char) (s : String)
    → 48 ≤ code c
    → code c ≤ 57
    → signed (String.◌∷◌ c s) ≡ (digits_from 0 false (String.◌∷◌ c s) >>= λ m. ok (plus m))
unfolding signed
signed-cons c s a b =
    rw (nat_beq-false (code c) 45 (omega arith), nat_beq-false (code c) 43 (omega arith)) refl

-- Digits with no sign are read as they are.
signed-IsDecimal :
    (s : String) (n : ℕ) → IsDecimal s → digits_from 0 false s ≡ ok n → signed s ≡ ok (plus n)
unfolding digits_from
signed-IsDecimal String.[] n h e = absurd (ground arith)
signed-IsDecimal (String.◌∷◌ c s) n (a, b, h) e =
    signed-cons c s a b ∙ ap (λ r. r >>= λ m. ok (plus m)) e

-- The text of a number is read as that number.
pub int_of-text_of : (n : ℕ) → int_of (text_of (plus n)) ≡ ok (plus n)
unfolding int_of text_of digits_from
int_of-text_of n =
    let digits = decimal-IsDecimal (suc n) n "" tt in
    ap signed (strip-IsDecimal (decimal (suc n) n "") digits)
    ∙ signed-IsDecimal (decimal (suc n) n "") n digits
        (digits_from-decimal (suc n) n "" (omega arith))

pub has_char-text_of : (c n : ℕ) → c < 48 → has_char c (text_of (plus n)) ≡ false
unfolding text_of
has_char-text_of c n h = has_char-IsDecimal c _ h (decimal-IsDecimal (suc n) n "" tt)
