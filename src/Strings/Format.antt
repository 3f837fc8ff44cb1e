-- ===== src/Strings/Format.antt =====
-- string/format.c and HexString of video/print.c: numerals in a radix, written to a `wchar` buffer.
use staxus.Base.{
  ℕ, zero, suc, ◌+◌, ◌-◌, ◌*◌, ◌/◌, ◌%◌, Bool, Option, none, some, ◌==◌, ltb, if◌then◌else◌,
}
use staxus.Base.Int.{ℤ, pos, negsuc}
use staxus.Memory.Bytes.{Bytes, load16, store16}

-- `str[i]` of a `wString`
abbrev pub get : Bytes → ℕ → ℕ → ℕ
get m str i = load16 m (str + 2 * i)

abbrev pub put : Bytes → ℕ → ℕ → ℕ → Bytes
put m str i v = store16 m (str + 2 * i) v

-- `digit < 10 ? digit + '0' : digit - 10 + letter`
abbrev pub digit_char : ℕ → ℕ → ℕ
digit_char letter d = if ltb d 10 then d + b'0' else d - 10 + letter

-- The digits, lowest first. `i` is a byte. `none`: the fuel ran out.
unfoldable pub emit : ℕ → ℕ → ℕ → ℕ → ℕ → ℕ → Bytes → Option (ℕ × Bytes)
emit zero i num radix letter str m = none
emit (suc f) i num radix letter str m =
    let rest =
      emit f ((i + 1) % 256) (num / radix) radix letter str
        (put m str i (digit_char letter (num % radix))) in
    if num == 0 then some (i, m) else rest

-- `byte temp = str[j]; str[j] = str[i - j - 1]; str[i - j - 1] = temp;`
unfoldable pub swap : ℕ → ℕ → ℕ → Bytes → Bytes
swap j i str m =
    let temp = get m str j % 256 in
    let m1 = put m str j (get m str (i - j - 1)) in put m1 str (i - j - 1) temp

-- `n` rounds of the loop over `j`
unfoldable pub swap_from : ℕ → ℕ → ℕ → ℕ → Bytes → Bytes
swap_from zero j i str m = m
swap_from (suc n) j i str m = swap_from n (j + 1) i str (swap j i str m)

-- The terminator, with a zero digit where there is none, and the digits turned round.
unfoldable pub finish : ℕ → ℕ → Bytes → ℕ × Bytes
finish i str m =
    let n = if i == 0 then 1 else i in
    let m1 = if i == 0 then put m str 0 b'0' else m in
    let m2 = put m1 str n 0 in (n, swap_from (n / 2) 0 n str m2)

-- The length that the call returns, and the memory that it leaves.
unfoldable pub number_string : ℕ → ℕ → ℕ → ℕ → ℕ → Bytes → Option (ℕ × Bytes)
number_string fuel num radix letter str m = elim (emit fuel 0 num radix letter str m) [
  | none ↦ none
  | some (i, m1) ↦ some (finish i str m1)
]

unfoldable pub uint_to_string : ℕ → ℕ → ℕ → ℕ → Bytes → Option (ℕ × Bytes)
uint_to_string fuel num str radix m = number_string fuel num radix b'A' str m

-- `num = -num` on an `i64`, whose least value stays itself; as a `u64` it is the absolute value.
unfoldable pub int_to_string : ℕ → ℤ → ℕ → ℕ → Bytes → Option (ℕ × Bytes)
int_to_string fuel (pos n) str radix m = uint_to_string fuel n str radix m
int_to_string fuel (negsuc n) str radix m =
    elim (uint_to_string fuel (n + 1) (str + 2) radix (put m str 0 b'-')) [
      | none ↦ none
      | some (len, m1) ↦ some (len + 1, m1)
    ]

unfoldable pub hex_string : ℕ → ℕ → ℕ → Bool → Bytes → Option (ℕ × Bytes)
hex_string fuel hex buf use_caps m =
    number_string fuel hex 16 (if use_caps then b'A' else b'a') buf m
