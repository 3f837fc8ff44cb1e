-- ===== src/Fat32/Names83.antt =====
-- get83Name of file-systems/fat32.c: the short name of 11 characters, padded with spaces, that goes with
-- a name and that no entry of the directory has. It is written to `buf`; nothing bounds the writes of the
-- name's characters by the array that stands there. `none`: the fuel ran out.
use staxus.Base.{
  ℕ, zero, suc, ◌+◌, ◌-◌, ◌/◌, ◌%◌, Bool, true, false, ◌&&◌, ◌||◌, Option, some, [], ◌∷◌, ◌==◌, leb,
  if◌then◌else◌, length, drop, take, ◌>>=◌,
}
use staxus.Base.Int.{pos, signed8, eq_ℤ}
use staxus.Memory.Bytes.{Bytes, store8}
use staxus.Memory.Utils.{memset}
use staxus.Strings.Utils.{isupper, toupper}
use staxus.Files.{Text, has_char}
use staxus.Fat32.{Machine, FatMount}
use staxus.Fat32.Entries.{dot_at}
use staxus.Fat32.Directory.{check_83_name_exists}

-- Writes the characters one behind the other, each in upper case if `up`.
unfoldable pub put_upper : Text → ℕ → Bytes → Bytes
put_upper [] p b = b
put_upper (c ∷ cs) p b = put_upper cs (p + 1) (store8 b p (toupper c))

unfoldable pub put_text : Text → ℕ → Bytes → Bytes
put_text [] p b = b
put_text (c ∷ cs) p b = put_text cs (p + 1) (store8 b p c)

-- The characters before the first dot, all `fnlen` of them, and the first three behind it.
abbrev pub stem : Text → Text
stem name = take (dot_at name) name

abbrev pub extension : Text → Text
extension name = take 3 (drop (dot_at name + 1) name)

-- `strchr("0123456789$%'-_@~`!(){}^#&", c) != NULL`
abbrev pub short_name_marks : Text
short_name_marks =
    b'0' ∷ b'1' ∷ b'2' ∷ b'3' ∷ b'4' ∷ b'5' ∷ b'6' ∷ b'7' ∷ b'8' ∷ b'9' ∷ b'$' ∷ b'%' ∷ 39 ∷ b'-'
    ∷ b'_' ∷ b'@' ∷ b'~' ∷ b'`' ∷ b'!' ∷ b'(' ∷ b')' ∷ b'{' ∷ b'}' ∷ b'^' ∷ b'#' ∷ b'&' ∷ []

-- Whether each character may stand in a short name.
abbrev pub all_short : Text → Bool
all_short [] = true
all_short (c ∷ cs) = (isupper c || has_char c short_name_marks) && all_short cs

-- `fits`, after its loop
abbrev pub fits_short : Text → Bool
fits_short name =
    (leb (dot_at name) 8 && leb (length name - dot_at name) 4) && all_short (stem name)

-- What `sprintf(nbuf, "%d", n)` writes, the lowest digit last.
unfoldable pub decimal_from : ℕ → ℕ → Text → Text
decimal_from zero n ds = ds
decimal_from (suc f) n ds =
    let rest = decimal_from f (n / 10) ((n % 10 + b'0') ∷ ds) in if n == 0 then ds else rest

unfoldable pub decimal : ℕ → Text
unfolding decimal_from
decimal n = decimal_from 7 n []

-- `copyLen`: how many characters of the name stand in front of the '~'.
abbrev pub copy_len : Text → ℕ → ℕ
copy_len name n =
    let room = 8 - length (decimal n) - 1 in if leb room (dot_at name) then room else dot_at name

abbrev pub blank_name : ℕ → Bytes → Bytes
blank_name buf b = memset buf b' ' 11 b

-- The name that fits, in upper case.
unfoldable pub put_short_name : Text → ℕ → Bytes → Bytes
unfolding put_upper
put_short_name name buf b =
    put_upper (extension name) (buf + 8) (put_upper (stem name) buf (blank_name buf b))

-- The name with a '~' and a number.
unfoldable pub put_numbered_name : Text → ℕ → ℕ → Bytes → Bytes
unfolding put_upper put_text decimal
put_numbered_name name n buf b =
    let b1 = put_upper (stem name) buf (blank_name buf b) in
    let b2 = put_text (decimal n) (buf + copy_len name n + 1) b1 in
    put_upper (extension name) (buf + 8) (store8 b2 (buf + copy_len name n) b'~')

module _ {W : Type 0} (m : Machine W) (t : FatMount W) where
  -- The loop over the numbers, `left` of them from `n` on.
  unfoldable pub number_from : ℕ → ℕ → ℕ → ℕ → Text → ℕ → W → Option (Bool × W)
  unfolding put_numbered_name check_83_name_exists
  number_from zero fuel n cluster name buf w = some (false, w)
  number_from (suc left) fuel n cluster name buf w = do
    (taken, w1) ←
        check_83_name_exists m t fuel cluster buf
          (m.set_bytes (put_numbered_name name n buf (m.memory.bytes w)) w)
    if taken then number_from left fuel (n + 1) cluster name buf w1 else some (true, w1)

  abbrev pub get_numbered_name : ℕ → ℕ → Text → ℕ → W → Option (Bool × W)
  get_numbered_name fuel cluster name buf w = number_from 999999 fuel 1 cluster name buf w

  -- The test for 0xE5 compares a signed `char` with 229.
  unfoldable pub get_83_name : ℕ → ℕ → Text → ℕ → W → Option (Bool × W)
  unfolding put_short_name check_83_name_exists number_from
  get_83_name fuel cluster [] buf w =
      some (true, m.set_bytes (store8 (blank_name buf (m.memory.bytes w)) buf 0) w)
  get_83_name fuel cluster (c ∷ cs) buf w =
      if eq_ℤ (signed8 c) (pos 0xE5)
      then some (true, m.set_bytes (store8 (blank_name buf (m.memory.bytes w)) buf c) w)
      else if fits_short (c ∷ cs)
      then (do
        (taken, w1) ←
            check_83_name_exists m t fuel cluster buf
              (m.set_bytes (put_short_name (c ∷ cs) buf (m.memory.bytes w)) w)
        if taken then get_numbered_name fuel cluster (c ∷ cs) buf w1 else some (true, w1))
      else get_numbered_name fuel cluster (c ∷ cs) buf w
