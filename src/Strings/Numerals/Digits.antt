-- ===== src/Strings/Numerals/Digits.antt =====
-- The digits that the loop of UIntToString leaves, lowest first.
use staxus.Base.{
  ℕ, zero, suc, ◌+◌, ◌*◌, ◌/◌, ◌%◌, ◌<◌, ◌≤◌, ◌≡◌, refl, sym, subst, ap, ◌∙◌, some, ◌==◌, inl, inr,
  arith, Bool-cases,
}
use native.Mathlib.Nat.{div-add-mod, div-lt_iff_lt-mul, mul-le-mul_left, mod-lt}
use staxus.Memory.Bytes.{Bytes, load8, load16_frame, load8-store16}
use staxus.Strings.Units.{wchar_self}
use staxus.Strings.Format.{get, put, digit_char, emit}
use staxus.Strings.Numerals.{
  IsDigit, IsDigit-digit_char, digit_of, low_value, low_value_ext, digit_of-digit_char,
  digit_char-lt,
}

-- 2 ^ f
abbrev pub pow2 : ℕ → ℕ
pow2 zero = 1
pow2 (suc f) = 2 * pow2 f

-- `n` digits of `num` stand from index `i` on, lowest first, and nothing in front of them has changed.
pub record Emitted (radix letter str i num n : ℕ) (m m' : Bytes) : Type 0 where
  pub number : low_value radix n (λ j. digit_of letter (get m' str (i + j))) ≡ num
  pub chars : (j : ℕ) → j < n → get m' str (i + j) < 256
  pub digits : (j : ℕ) → j < n → IsDigit radix letter (get m' str (i + j))
  pub some_digits : 0 < num → 0 < n
  pub none_of_zero : num ≡ 0 → n ≡ 0
  pub keeps : (a : ℕ) → a < str + 2 * i → load8 m' a ≡ load8 m a

pub get-keeps :
    (m m' : Bytes) (str i k : ℕ)
    → ((a : ℕ) → a < str + 2 * i → load8 m' a ≡ load8 m a)
    → k < i
    → get m' str k ≡ get m str k
get-keeps m m' str i k same small =
    load16_frame m' m (str + 2 * k) (same (str + 2 * k) (omega arith))
      (same (str + 2 * k + 1) (omega arith))

div-small : (num radix p : ℕ) → 2 ≤ radix → num < 2 * p → num / radix < p
div-small num radix p two small =
    (div-lt_iff_lt-mul (omega arith)).1 (omega (arith, small, mul-le-mul_left p two))

Emitted-none :
    (radix letter str i : ℕ) (m : Bytes) (num : ℕ) → num ≡ 0 → Emitted radix letter str i num 0 m m
Emitted-none radix letter str i m num none = record {
  number = sym none;
  chars = λ j small. absurd (omega arith);
  digits = λ j small. absurd (omega arith);
  some_digits = λ positive. absurd (omega arith);
  none_of_zero = λ e. refl;
  keeps = λ a low. refl;
}

Emitted-suc :
    (radix letter str i num n : ℕ) (m m' : Bytes)
    → 2 ≤ radix
    → radix ≤ 36
    → 58 ≤ letter
    → letter ≤ 97
    → 0 < num
    → Emitted radix letter str
        (i + 1)
        (num / radix)
        n
        (put m str i (digit_char letter (num % radix)))
        m'
    → Emitted radix letter str i num (suc n) m m'
Emitted-suc radix letter str i num n m m' two most high low positive e =
    let d = num % radix in
    let c = digit_char letter d in
    let m1 = put m str i c in
    let small : d < 36 = omega (arith, most, mod-lt num {m = radix} (omega arith)) in
    let byte = digit_char-lt letter d low small in
    let here : get m' str (i + 0) ≡ c =
      let same : i + 0 ≡ i = omega arith in
      ap (λ k. get m' str k) same
      ∙ get-keeps m1 m' str (i + 1) i e.keeps (omega arith)
      ∙ wchar_self m str i c (omega (arith, byte)) in
    let next : (j : ℕ) → get m' str (i + suc j) ≡ get m' str (i + 1 + j) =
      λ j. let same : i + suc j ≡ i + 1 + j = omega arith in ap (λ k. get m' str k) same in
    record {
      number =
          let later =
            low_value_ext radix n (λ j. digit_of letter (get m' str (i + suc j)))
              (λ j. digit_of letter (get m' str (i + 1 + j)))
              (λ j inside. ap (λ v. digit_of letter v) (next j)) in
          rw (later, e.number, here, digit_of-digit_char letter d high small)
            (omega (arith, div-add-mod num radix));
      chars = λ j. elim j as (λ k. k < suc n → get m' str (i + k) < 256) [
        | zero ↦ λ inside. omega (arith, here, byte)
        | suc k ↦ λ inside. omega (arith, next k, e.chars k (omega arith))
      ];
      digits = λ j. elim j as (λ k. k < suc n → IsDigit radix letter (get m' str (i + k))) [
        | zero ↦ λ inside.
            subst (λ v. IsDigit radix letter v) (sym here)
              (IsDigit-digit_char radix letter d high (mod-lt num {m = radix} (omega arith)) small)
        | suc k ↦ λ inside.
            subst (λ v. IsDigit radix letter v) (sym (next k)) (e.digits k (omega (arith, inside)))
      ];
      some_digits = λ p. omega arith;
      none_of_zero = λ z. absurd (omega arith);
      keeps = λ a before. e.keeps a (omega arith) ∙ load8-store16 m (str + 2 * i) c a (inl before);
    }

-- With `f` rounds for a number below 2 ^ f, the loop ends.
pub emit-Emitted :
    (f i num radix letter str : ℕ) (m : Bytes)
    → 2 ≤ radix
    → radix ≤ 36
    → 58 ≤ letter
    → letter ≤ 97
    → num < pow2 f
    → i + f < 256
    → (n : ℕ) × (m' : Bytes) × (emit (suc f) i num radix letter str m ≡ some (i + n, m'))
      × (n ≤ f)
      × Emitted radix letter str i num n m m'
unfolding emit
emit-Emitted zero i num radix letter str m two most high low small short =
    let none : num ≡ 0 = omega (arith, small) in
    let same : i ≡ i + 0 = omega arith in
    (
      0,
      m,
      rw none (ap (λ k. some (k, m)) same),
      omega arith,
      Emitted-none radix letter str i m num none,
    )
emit-Emitted (suc f) i num radix letter str m two most high low small short =
    elim (Bool-cases (num == 0)) [
      | inl none ↦
          let same : i ≡ i + 0 = omega arith in
          (
            0,
            m,
            rw none (ap (λ k. some (k, m)) same),
            omega arith,
            Emitted-none radix letter str i m num (ground arith),
          )
      | inr more ↦
          let positive : 0 < num = ground arith in
          let m1 = put m str i (digit_char letter (num % radix)) in
          let (n, m', ends, few, e) =
            emit-Emitted f (i + 1) (num / radix) radix letter str m1 two most high low
              (div-small num radix (pow2 f) two small) (omega arith) in
          let next : (i + 1) % 256 ≡ i + 1 = omega arith in
          let count : i + 1 + n ≡ i + suc n = omega arith in
          (
            suc n,
            m',
            rw more (rw next (ends ∙ ap (λ k. some (k, m')) count)),
            omega arith,
            Emitted-suc radix letter str i num n m m' two most high low positive e,
          )
    ]
