-- ===== src/Strings/Numerals.antt =====
-- The number that a numeral stands for, and the digits that UIntToString and HexString choose.

pub mod Digits
pub mod Turned
pub mod Values
use staxus.Base.{
  ℕ, zero, suc, ◌+◌, ◌-◌, ◌*◌, ◌<◌, ◌≤◌, ◌≡◌, ◌⊎◌, inl, inr, Bool-cases, refl, ap, ◌∙◌, ltb,
  if◌then◌else◌, arith,
}
use staxus.Strings.Format.{digit_char}

-- The digit that a character stands for.
abbrev pub digit_of : ℕ → ℕ → ℕ
digit_of letter c = if ltb c 58 then c - b'0' else c - letter + 10

-- A character from '0' to '9' or from the letter on, whose digit is one of the radix.
abbrev pub IsDigit : ℕ → ℕ → ℕ → Type 0
IsDigit radix letter c = (((b'0' ≤ c) × (c < 58)) ⊎ (letter ≤ c)) × (digit_of letter c < radix)

-- The first `n` digits, read from the left.
abbrev pub value : ℕ → ℕ → (ℕ → ℕ) → ℕ
value radix zero digit = 0
value radix (suc n) digit = value radix n digit * radix + digit n

-- The same digits with the lowest in front.
abbrev pub low_value : ℕ → ℕ → (ℕ → ℕ) → ℕ
low_value radix zero digit = 0
low_value radix (suc n) digit = digit 0 + radix * low_value radix n (λ j. digit (suc j))

pub low_value_ext :
    (radix n : ℕ) (f g : ℕ → ℕ)
    → ((j : ℕ) → j < n → f j ≡ g j)
    → low_value radix n f ≡ low_value radix n g
low_value_ext radix zero f g same = refl
low_value_ext radix (suc n) f g same =
    let later =
      low_value_ext radix n (λ j. f (suc j)) (λ j. g (suc j))
        (λ j small. same (suc j) (omega arith)) in
    rw (same 0 (omega arith), later) refl

-- Digits turned round keep their value.
pub value_turned :
    (radix n : ℕ) (f g : ℕ → ℕ)
    → ((j : ℕ) → j < n → f j ≡ g (n - 1 - j))
    → value radix n f ≡ low_value radix n g
value_turned radix zero f g turned = refl
value_turned radix (suc n) f g turned =
    let shifted : (j : ℕ) → j < n → f j ≡ g (suc (n - 1 - j)) = λ j small.
      let same : suc n - 1 - j ≡ suc (n - 1 - j) = omega arith in
      turned j (omega arith) ∙ ap g same in
    let first : f n ≡ g 0 =
      let same : suc n - 1 - n ≡ 0 = omega arith in turned n (omega arith) ∙ ap g same in
    let later = value_turned radix n f (λ j. g (suc j)) shifted in rw (first, later) (omega arith)

pub digit_of-digit_char :
    (letter d : ℕ) → 58 ≤ letter → d < 36 → digit_of letter (digit_char letter d) ≡ d
digit_of-digit_char letter d high small = ground arith

pub digit_char-lt : (letter d : ℕ) → letter ≤ 97 → d < 36 → digit_char letter d < 256
digit_char-lt letter d low small = ground arith

pub IsDigit-digit_char :
    (radix letter d : ℕ)
    → 58 ≤ letter
    → d < radix
    → d < 36
    → IsDigit radix letter (digit_char letter d)
IsDigit-digit_char radix letter d high small most = (
  elim (Bool-cases (ltb d 10)) [
    | inl low ↦ inl (ground (arith, low), ground (arith, low))
    | inr letters ↦ inr (ground (arith, letters))
  ],
  omega (arith, digit_of-digit_char letter d high most, small),
)
