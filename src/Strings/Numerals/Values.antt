-- ===== src/Strings/Numerals/Values.antt =====
-- The numeral that UIntToString and HexString leave.
use staxus.Base.{
  ℕ, suc, ◌+◌, ◌-◌, ◌*◌, ◌/◌, ◌<◌, ◌≤◌, ◌≡◌, none, refl, sym, ap, subst, ◌∙◌, some, true, false,
  ◌==◌, if◌then◌else◌, Bool, inl, inr, arith, Bool-cases,
}
use native.Mathlib.Decide.{ℕ_discrete}
use staxus.Base.Int.{negsuc}
use staxus.Memory.Bytes.{Bytes, load8, load8-store16}
use staxus.Strings.Units.{wchar_self}
use staxus.Strings.Format.{
  get, put, swap_from, finish, number_string, uint_to_string, hex_string, int_to_string,
}
use staxus.Strings.Numerals.{IsDigit, digit_of, value, value_turned}
use staxus.Strings.Numerals.Digits.{get-keeps, pow2, Emitted, emit-Emitted}
use staxus.Strings.Numerals.Turned.{put-get, Turned, swap_from-Turned}

-- At `str` stands a numeral of `len` digits for `num`, none of them a terminator, and a terminator behind
-- it. What lies in front of it is as before.
pub record Numeral (radix letter str num len : ℕ) (m m' : Bytes) : Type 0 where
  pub number : value radix len (λ j. digit_of letter (get m' str j)) ≡ num
  pub some_digits : 0 < len
  pub digits : (j : ℕ) → j < len → IsDigit radix letter (get m' str j)
  pub stop : get m' str len ≡ 0
  pub keeps : (a : ℕ) → a < str → load8 m' a ≡ load8 m a

Numeral-zero :
    (radix letter str : ℕ) (m : Bytes)
    → 0 < radix
    → Numeral radix letter str 0 1 m (put (put m str 0 b'0') str 1 0)
Numeral-zero radix letter str m positive = record {
  number =
      let digit : get (put (put m str 0 b'0') str 1 0) str 0 ≡ b'0' =
        put-get _ str 1 0 0 (omega arith) ∙ wchar_self m str 0 b'0' (omega arith) in
      rw digit (omega arith);
  some_digits = omega arith;
  digits = λ j small.
      let only : j ≡ 0 = omega (arith, small) in
      let digit : get (put (put m str 0 b'0') str 1 0) str 0 ≡ b'0' =
        put-get _ str 1 0 0 (omega arith) ∙ wchar_self m str 0 b'0' (omega arith) in
      rw (only, digit) (inl (omega arith, omega arith), positive);
  stop = wchar_self _ str 1 0 (omega arith);
  keeps = λ a before.
      load8-store16 _ (str + 2 * 1) 0 a (inl (omega arith))
      ∙ load8-store16 m (str + 2 * 0) b'0' a (inl (omega arith));
}

Numeral-Turned :
    (radix letter str num n : ℕ) (m m1 m3 : Bytes)
    → 0 < n
    → Emitted radix letter str 0 num n m m1
    → Turned 0 n str (put m1 str n 0) m3
    → Numeral radix letter str num n m m3
Numeral-Turned radix letter str num n m m1 m3 some_digits e t =
    let m2 = put m1 str n 0 in
    record {
      number =
          value_turned radix n (λ j. digit_of letter (get m3 str j))
            (λ j. digit_of letter (get m1 str (0 + j)))
            (λ j small.
              let same : n - 1 - j ≡ 0 + (n - 1 - j) = omega arith in
              ap (λ v. digit_of letter v)
                (t.inside j (omega arith) (omega arith)
                  ∙ put-get m1 str n 0 (n - 1 - j) (omega arith)
                  ∙ ap (λ k. get m1 str k) same))
          ∙ e.number;
      some_digits = some_digits;
      digits = λ j small.
          let turned : get m3 str j ≡ get m1 str (0 + (n - 1 - j)) =
            let same : n - 1 - j ≡ 0 + (n - 1 - j) = omega arith in
            t.inside j (omega arith) (omega arith)
            ∙ put-get m1 str n 0 (n - 1 - j) (omega arith)
            ∙ ap (λ k. get m1 str k) same in
          subst (λ v. IsDigit radix letter v) (sym turned) (e.digits (n - 1 - j) (omega arith));
      stop = t.outside n (inr (omega arith)) ∙ wchar_self m1 str n 0 (omega arith);
      keeps = λ a before.
          t.keeps a before
          ∙ load8-store16 m1 (str + 2 * n) 0 a (inl (omega arith))
          ∙ e.keeps a (omega arith);
    }

Numeral-keeps :
    (radix letter str num len : ℕ) (m m1 m' : Bytes)
    → ((a : ℕ) → a < str → load8 m1 a ≡ load8 m a)
    → Numeral radix letter str num len m1 m'
    → Numeral radix letter str num len m m'
Numeral-keeps radix letter str num len m m1 m' same n = record {
  number = n.number;
  some_digits = n.some_digits;
  digits = n.digits;
  stop = n.stop;
  keeps = λ a before. n.keeps a before ∙ same a before;
}

finish-Numeral :
    (radix letter str num n : ℕ) (m m1 : Bytes)
    → 0 < radix
    → Emitted radix letter str 0 num n m m1
    → (len : ℕ) × (m' : Bytes) × (finish n str m1 ≡ (len, m'))
      × (len ≤ n + 1)
      × Numeral radix letter str num len m m'
unfolding finish
finish-Numeral radix letter str num n m m1 positive e = elim (Bool-cases (n == 0)) [
  | inl no_digits ↦
      let empty : n ≡ 0 = ground arith in
      let nothing : num ≡ 0 = elim (ℕ_discrete num 0) [
        | yes zero_num ↦ zero_num
        | no more ↦ absurd (omega (arith, empty, e.some_digits (omega (arith, more))))
      ] in
      (
        1,
        put (put m1 str 0 b'0') str 1 0,
        unfold swap_from in rw no_digits refl,
        omega arith,
        Numeral-keeps radix letter str num 1 m m1 _ (λ a before. e.keeps a (omega arith))
            (subst (λ x. Numeral radix letter str x 1 m1 (put (put m1 str 0 b'0') str 1 0))
              (sym nothing) (Numeral-zero radix letter str m1 positive)),
      )
  | inr more ↦
      let m2 = put m1 str n 0 in
      let bytes : (k : ℕ) → k < n → get m2 str k < 256 = λ k small.
        let same : 0 + k ≡ k = omega arith in
        omega (
          arith,
          put-get m1 str n 0 k (omega arith),
          e.chars k small,
          ap (λ x. get m1 str x) same,
        ) in
      (
        n,
        swap_from (n / 2) 0 n str m2,
        rw more refl,
        omega arith,
        Numeral-Turned radix letter str num n m m1 _ (ground arith) e
            (swap_from-Turned (n / 2) 0 n str m2 (omega arith) bytes),
      )
]

number_string-Numeral :
    (f num radix letter str : ℕ) (m : Bytes)
    → 2 ≤ radix
    → radix ≤ 36
    → 58 ≤ letter
    → letter ≤ 97
    → f ≤ 254
    → num < pow2 f
    → (len : ℕ) × (m' : Bytes) × (number_string (suc f) num radix letter str m ≡ some (len, m'))
      × (len ≤ f + 1)
      × Numeral radix letter str num len m m'
unfolding number_string
number_string-Numeral f num radix letter str m two most high low short small =
    let (n, m1, ends, few, e) =
      emit-Emitted f 0 num radix letter str m two most high low small (omega arith) in
    let (len, m', finished, bound, numeral) =
      finish-Numeral radix letter str num n m m1 (omega (arith, two)) e in
    let same : 0 + n ≡ n = omega arith in
    (
      len,
      m',
      ap (λ r. elim r [ none ↦ none | some (i, m2) ↦ some (finish i str m2) ]) ends
          ∙ ap (λ k. some (finish k str m1)) same
          ∙ ap some finished,
      omega arith,
      numeral,
    )

-- UIntToString of a number below 2 ^ f, with f up to 64, in a radix from 2 to 36, ends within f + 1
-- rounds. It returns the length of the string that it leaves: so many characters, at least one, each of
-- them a digit of the radix, stand in front of the terminator, and read from the left in the radix they
-- give the number. It changes nothing in front of the string.
pub uint_to_string-Numeral :
    (f num str radix : ℕ) (m : Bytes)
    → 2 ≤ radix
    → radix ≤ 36
    → f ≤ 64
    → num < pow2 f
    → (len : ℕ) × (m' : Bytes) × (uint_to_string (suc f) num str radix m ≡ some (len, m'))
      × (len ≤ f + 1)
      × Numeral radix b'A' str num len m m'
unfolding uint_to_string
uint_to_string-Numeral f num str radix m two most short small =
    number_string-Numeral f num radix b'A' str m two most (omega arith) (omega arith) (omega arith)
      small

-- The same of HexString in radix 16, whose letters are capitals or not.
hex_string-Numeral :
    (f hex buf : ℕ) (use_caps : Bool) (m : Bytes)
    → f ≤ 64
    → hex < pow2 f
    → (len : ℕ) × (m' : Bytes) × (hex_string (suc f) hex buf use_caps m ≡ some (len, m'))
      × (len ≤ f + 1)
      × Numeral 16 (if use_caps then b'A' else b'a') buf hex len m m'
unfolding hex_string
hex_string-Numeral f hex buf true m short small =
    number_string-Numeral f hex 16 b'A' buf m (omega arith) (omega arith) (omega arith)
      (omega arith) (omega arith) small
hex_string-Numeral f hex buf false m short small =
    number_string-Numeral f hex 16 b'a' buf m (omega arith) (omega arith) (omega arith)
      (omega arith) (omega arith) small

-- IntToString of the negative number -(n + 1) writes a '-' and, behind it, the numeral of n + 1; it
-- returns the length of both.
int_to_string-negative :
    (f n str radix : ℕ) (m : Bytes)
    → 2 ≤ radix
    → radix ≤ 36
    → f ≤ 64
    → n + 1 < pow2 f
    → (len : ℕ) × (m' : Bytes) × (int_to_string (suc f) (negsuc n) str radix m ≡ some (len + 1, m'))
      × (get m' str 0 ≡ b'-')
      × Numeral radix b'A' (str + 2) (n + 1) len (put m str 0 b'-') m'
unfolding int_to_string
int_to_string-negative f n str radix m two most short small =
    let m1 = put m str 0 b'-' in
    let (len, m', ends, bound, numeral) =
      uint_to_string-Numeral f (n + 1) (str + 2) radix m1 two most short small in
    (
      len,
      m',
      ap (λ r. elim r [ none ↦ none | some (k, m2) ↦ some (k + 1, m2) ]) ends,
      get-keeps m1 m' str 1 0 (λ a before. numeral.keeps a (omega arith)) (omega arith)
          ∙ wchar_self m str 0 b'-' (omega arith),
      numeral,
    )
