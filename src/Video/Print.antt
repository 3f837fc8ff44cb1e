-- ===== src/Video/Print.antt =====
-- vslprintf, slprintf and vsprintf of video/print.c. The format and the buffer lie in the memory, and
-- `va_list` is the list of the arguments, each of 64 bits; an argument that was not passed is 0 here.
-- FloatToString, which computes on `f64`, is a parameter. `none`: the fuel ran out.
pub mod Plain
use staxus.Base.{
  ℕ, zero, suc, ◌+◌, ◌-◌, ◌*◌, ◌/◌, ◌%◌, ◌^◌, Bool, true, false, Option, none, some, List, [], ◌∷◌,
  ◌==◌, ltb, if◌then◌else◌, ◌>>=◌,
}
use staxus.Base.Int.{ℤ, pos, negsuc}
use staxus.Memory.Bytes.{Bytes, load8, store8, load16}
use staxus.Memory.Utils.{memset}
use staxus.Strings.Format.{put, digit_char, uint_to_string, int_to_string, hex_string}

-- What the loop changes: `fmt`, `idx`, the arguments that are left, and the memory.
pub record Printing : Type 0 where
  pub fmt : ℕ
  pub idx : ℕ
  pub args : List ℕ
  pub bytes : Bytes

-- `va_arg`
abbrev pub arg_of : List ℕ → ℕ
arg_of [] = 0
arg_of (a ∷ rest) = a

abbrev pub args_after : List ℕ → List ℕ
args_after [] = []
args_after (a ∷ rest) = rest

abbrev pub u32_of : ℕ → ℕ
u32_of a = a % 4294967296

-- An argument read as a signed number of 32 and of 64 bits.
abbrev pub i32_of : ℕ → ℤ
i32_of a = if ltb (u32_of a) 2147483648 then pos (u32_of a) else negsuc (4294967295 - u32_of a)

abbrev pub i64_of : ℕ → ℤ
i64_of a =
    let v = a % 18446744073709551616 in
    if ltb v 9223372036854775808 then pos v else negsuc (18446744073709551615 - v)

-- `*fmt`, and `*(fmt + 1)`
abbrev pub unit : Printing → ℕ
unit p = load16 p.bytes p.fmt

abbrev pub next_unit : Printing → ℕ
next_unit p = load16 p.bytes (p.fmt + 2)

abbrev pub skip : ℕ → Printing → Printing
skip n p = record p { fmt = p.fmt + 2 * n }

module _ (buf : ℕ) where
  -- `buf[idx++] = c`
  unfoldable pub emit_unit : ℕ → Printing → Printing
  emit_unit c p = record p { idx = p.idx + 1; bytes = put p.bytes buf p.idx c }

  -- The characters of a string, up to its terminator. A `char` is widened with its sign.
  unfoldable pub emit_chars : ℕ → ℕ → Printing → Option Printing
  unfolding emit_unit
  emit_chars zero str p = none
  emit_chars (suc f) str p =
      let c = load8 p.bytes str in
      let rest = emit_chars f (str + 1) (emit_unit (if ltb c 128 then c else c + 65280) p) in
      if c == 0 then some p else rest

  unfoldable pub emit_wide : ℕ → ℕ → Printing → Option Printing
  unfolding emit_unit
  emit_wide zero str p = none
  emit_wide (suc f) str p =
      let c = load16 p.bytes str in
      let rest = emit_wide f (str + 2) (emit_unit c p) in if c == 0 then some p else rest

  unfoldable pub emit_null : Printing → Printing
  unfolding emit_unit
  emit_null p =
      emit_unit b')'
        (emit_unit b'l' (emit_unit b'l' (emit_unit b'u' (emit_unit b'n' (emit_unit b'(' p)))))

  abbrev pub taken : Printing → Printing
  taken p = record p { args = args_after p.args }

  -- `idx += …`, once a numeral stands at `buf + idx`.
  abbrev pub numeral : Printing → Option (ℕ × Bytes) → Option Printing
  numeral p none = none
  numeral p (some (len, b)) = some (record p { idx = p.idx + len; bytes = b })

  abbrev pub at_idx : Printing → ℕ
  at_idx p = buf + 2 * p.idx

  unfoldable pub emit_u32 : ℕ → ℕ → Printing → Option Printing
  emit_u32 f radix p =
      numeral (taken p) (uint_to_string f (u32_of (arg_of p.args)) (at_idx p) radix p.bytes)

  unfoldable pub emit_u64 : ℕ → ℕ → Printing → Option Printing
  emit_u64 f radix p =
      numeral (taken p)
        (uint_to_string f (arg_of p.args % 18446744073709551616) (at_idx p) radix p.bytes)

  unfoldable pub emit_i32 : ℕ → Printing → Option Printing
  emit_i32 f p = numeral (taken p) (int_to_string f (i32_of (arg_of p.args)) (at_idx p) 10 p.bytes)

  unfoldable pub emit_i64 : ℕ → Printing → Option Printing
  emit_i64 f p = numeral (taken p) (int_to_string f (i64_of (arg_of p.args)) (at_idx p) 10 p.bytes)

  unfoldable pub emit_hex32 : ℕ → Bool → Printing → Option Printing
  emit_hex32 f caps p =
      numeral (taken p) (hex_string f (u32_of (arg_of p.args)) (at_idx p) caps p.bytes)

  unfoldable pub emit_hex64 : ℕ → Bool → Printing → Option Printing
  emit_hex64 f caps p =
      numeral (taken p)
        (hex_string f (arg_of p.args % 18446744073709551616) (at_idx p) caps p.bytes)

  -- The `n` lowest hexadecimal digits of a pointer, the highest first: `hex[(ptr & …) >> …]`.
  unfoldable pub emit_digits : ℕ → ℕ → Printing → Printing
  unfolding emit_unit
  emit_digits zero ptr p = p
  emit_digits (suc n) ptr p = emit_digits n ptr (emit_unit (digit_char b'a' (ptr / 16 ^ n % 16)) p)

  unfoldable pub emit_pointer : Printing → Printing
  unfolding emit_unit emit_digits
  emit_pointer p = emit_digits 16 (arg_of p.args) (emit_unit b'x' (emit_unit b'0' (taken p)))

  unfoldable pub emit_string : ℕ → Printing → Option Printing
  unfolding emit_chars emit_null
  emit_string f p =
      if arg_of p.args == 0
      then some (emit_null (taken p))
      else emit_chars f (arg_of p.args) (taken p)

  unfoldable pub emit_wide_string : ℕ → Printing → Option Printing
  unfolding emit_wide emit_null
  emit_wide_string f p =
      if arg_of p.args == 0
      then some (emit_null (taken p))
      else emit_wide f (arg_of p.args) (taken p)

  module _ (float_to_string : ℕ → ℕ → ℕ → ℕ → Bytes → ℕ × Bytes) where
    -- The number, the buffer, radix 10 and the precision.
    abbrev pub emit_float : ℕ → Printing → Option Printing
    emit_float precision p =
        numeral (taken p) (some (float_to_string (arg_of p.args) (at_idx p) 10 precision p.bytes))

    -- The case of 'u'. `fmt` stands on the last character of the conversion when a case ends.
    unfoldable pub print_unsigned : ℕ → Printing → Option Printing
    unfolding emit_u32 emit_u64
    print_unsigned f p =
        let p1 = skip 1 p in
        let p2 = skip 2 p in
        if unit p1 == b'l'
        then (if unit p2 == b'l' then emit_u64 f 10 p2 else emit_u32 f 10 p1)
        else emit_u32 f 10 p

    -- "%ll" and what follows. Where nothing of the four kinds does, the number is signed, and what
    -- follows is not part of the conversion.
    unfoldable pub print_long_long : ℕ → Printing → Option Printing
    unfolding emit_hex64 emit_u64 emit_i64
    print_long_long f p =
        let c = next_unit p in
        let q = skip 1 p in
        if c == b'X'
        then emit_hex64 f true q
        else if c == b'x'
        then emit_hex64 f false q
        else if c == b'u'
        then emit_u64 f 10 q
        else if c == b'b'
        then emit_u64 f 2 q
        else emit_i64 f p

    -- The case of 'l'. A character behind it that is not looked for is part of the conversion.
    unfoldable pub print_long : ℕ → Printing → Option Printing
    unfolding print_long_long emit_wide_string emit_i32
    print_long f p =
        let q = skip 1 p in
        if unit q == b'l'
        then print_long_long f q
        else if unit q == b'f'
        then emit_float 15 q
        else if unit q == b's'
        then emit_wide_string f q
        else emit_i32 f q

    -- The case of '.': `fmt--` where no 'f' follows the precision.
    unfoldable pub print_precision : Printing → Option Printing
    print_precision p =
        let q = skip 1 p in
        let r = skip 2 p in
        if unit r == b'f' then emit_float ((unit q + 65536 - b'0') % 256) r else some q

    -- The switch on the character behind a '%'. Other characters print nothing.
    unfoldable pub print_conversion : ℕ → Printing → Option Printing
    unfolding emit_string emit_unit print_unsigned emit_i32 print_long print_precision emit_pointer
        emit_hex32 emit_u32
    print_conversion f p =
        let c = unit p in
        if c == b's'
        then emit_string f p
        else if c == b'c'
        then some (emit_unit (arg_of p.args % 65536) (taken p))
        else if c == b'%'
        then some (emit_unit b'%' p)
        else if c == b'u'
        then print_unsigned f p
        else if c == b'd'
        then emit_i32 f p
        else if c == b'l'
        then print_long f p
        else if c == b'.'
        then print_precision p
        else if c == b'f'
        then emit_float 7 p
        else if c == b'p'
        then some (emit_pointer p)
        else if c == b'x'
        then emit_hex32 f false p
        else if c == b'X'
        then emit_hex32 f true p
        else if c == b'b'
        then emit_u32 f 2 p
        else some p

    -- The loop. The step behind a conversion is taken also where the format ends behind the '%', and
    -- then what lies behind the format is read on.
    unfoldable pub print_from : ℕ → Printing → Option Printing
    unfolding print_conversion emit_unit
    print_from zero p = none
    print_from (suc f) p =
        let plain = print_from f (skip 1 (emit_unit (unit p) p)) in
        if unit p == 0
        then some p
        else if unit p == b'%'
        then (do q ← print_conversion f (skip 1 p); print_from f (skip 1 q))
        else plain

    -- The length, and the memory that the call leaves.
    unfoldable pub vslprintf : ℕ → ℕ → List ℕ → Bytes → Option (ℕ × Bytes)
    unfolding print_from
    vslprintf f fmt args b = do
      p ← print_from f (record { fmt = fmt; idx = 0; args = args; bytes = b })
      some (p.idx, put p.bytes buf p.idx 0)

-- `while(fmt[p] != 0) {wfmt[p] = fmt[p]; p++;} wfmt[p] = 0;`, which no size bounds.
unfoldable pub widen_from : ℕ → ℕ → ℕ → ℕ → Bytes → Option Bytes
widen_from zero src dst i b = none
widen_from (suc f) src dst i b =
    let c = load8 b (src + i) in
    let rest = widen_from f src dst (i + 1) (put b dst i (if ltb c 128 then c else c + 65280)) in
    if c == 0 then some (put b dst i 0) else rest

-- `while(wbuf[p] != 0) {buf[p] = wbuf[p]; p++;} buf[p] = 0;`
unfoldable pub narrow_from : ℕ → ℕ → ℕ → ℕ → Bytes → Option Bytes
narrow_from zero src dst i b = none
narrow_from (suc f) src dst i b =
    let c = load16 b (src + 2 * i) in
    let rest = narrow_from f src dst (i + 1) (store8 b (dst + i) (c % 256)) in
    if c == 0 then some (store8 b (dst + i) 0) else rest

-- `wbuf` and `wfmt` are the static arrays of 1024 units each.
unfoldable pub vsprintf :
    (ℕ → ℕ → ℕ → ℕ → Bytes → ℕ × Bytes) → ℕ → ℕ → ℕ → ℕ → ℕ → List ℕ → Bytes → Option (ℕ × Bytes)
unfolding widen_from vslprintf narrow_from
vsprintf float_to_string f wbuf wfmt buf fmt args b = do
  b1 ← widen_from f fmt wfmt 0 (memset wfmt 0 2048 (memset wbuf 0 2048 b))
  (r, b2) ← vslprintf wbuf float_to_string f wfmt args b1
  b3 ← narrow_from f wbuf buf 0 b2
  some (r, b3)
