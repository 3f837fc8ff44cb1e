-- ===== src/Fat32/Parse.antt =====
-- parseFAT32Entry of file-systems/fat32.c: the 32 bytes at `raw`, and the long name that the entries in
-- front of it left at `lfn_buf`. `lfn` is the address of the flag that a whole long name stands there.
-- The string at an entry's name is the list of its characters. `none`: the fuel ran out.
use staxus.Base.{
  ℕ, zero, suc, ◌+◌, ◌-◌, ◌*◌, ◌/◌, ◌%◌, ◌||◌, Option, none, some, [], ◌∷◌, ◌==◌, if◌then◌else◌,
  length,
}
use staxus.Memory.Bytes.{Bytes, load8, store8}
use staxus.Files.{Text}
use staxus.Fat32.{Machine}
use staxus.Fat32.Entries.{FatEntry, parse_fields, short_name}

-- `for(int i = 0; i < n; i++) lfnBuf[pos++] = entry[off + i * 2];`
unfoldable pub take_chars : ℕ → ℕ → ℕ → Bytes → Bytes
take_chars zero p dst b = b
take_chars (suc n) p dst b = take_chars n (p + 2) (dst + 1) (store8 b dst (load8 b p))

-- Where the characters of an entry of a long name go: `lfnBuf + 13 * ((entry[0] & 0x1F) - 1)`. Nothing
-- bounds that by the 260 characters of the array.
abbrev pub long_name_place : ℕ → ℕ → Bytes → ℕ
long_name_place raw lfn_buf b = lfn_buf + 13 * (load8 b raw % 32) - 13

-- The 13 characters of an entry of a long name, and a terminator behind them.
unfoldable pub store_long_name : ℕ → ℕ → Bytes → Bytes
unfolding take_chars
store_long_name raw lfn_buf b =
    let d = long_name_place raw lfn_buf b in
    store8
      (take_chars 2 (raw + 28) (d + 11)
        (take_chars 6 (raw + 14) (d + 5) (take_chars 5 (raw + 1) d b)))
      (d + 13) 0

-- `if((entry[0] & 0x40) != 0) *lfn = true;`
abbrev pub mark_long_name : ℕ → ℕ → Bytes → Bytes
mark_long_name raw lfn b = if load8 b raw / 64 % 2 == 1 then store8 b lfn 1 else b

unfoldable pub parse_long : ℕ → ℕ → ℕ → Bytes → Bytes
unfolding store_long_name
parse_long raw lfn_buf lfn b = mark_long_name raw lfn (store_long_name raw lfn_buf b)

-- The string at `p`.
unfoldable pub text_from : ℕ → Bytes → ℕ → Option Text
text_from zero b p = none
text_from (suc f) b p =
    let rest = text_from f b (p + 1) in
    if load8 b p == 0 then some [] else elim rest [ none ↦ none | some cs ↦ some (load8 b p ∷ cs) ]

-- The name of an entry: the long name if `*lfn`, and the short one if not.
abbrev pub name_of : ℕ → ℕ → ℕ → ℕ → Bytes → Option Text
name_of fuel raw lfn_buf lfn b =
    if load8 b lfn == 0 then some (short_name b raw) else text_from fuel b lfn_buf

-- `sizeof(FAT32Entry)`
abbrev pub entry_size : ℕ
entry_size = 40

module _ {W : Type 0} (m : Machine W) where
  -- The entry with its name; `*lfn` is cleared where the long name was taken.
  abbrev pub parse_name_at : ℕ → ℕ → ℕ → Text → Option ℕ × W → Option FatEntry × W
  parse_name_at raw lfn at name (none, w) = (none, m.memory.free at w)
  parse_name_at raw lfn at name (some name_at, w) =
      let b = m.memory.bytes w in
      (
        some (parse_fields b raw at name_at name),
        if load8 b lfn == 0 then w else m.set_bytes (store8 b lfn 0) w,
      )

  abbrev pub parse_entry_at : ℕ → ℕ → ℕ → ℕ → Option ℕ × W → Option (Option FatEntry × W)
  parse_entry_at fuel raw lfn_buf lfn (none, w) = some (none, w)
  parse_entry_at fuel raw lfn_buf lfn (some at, w) =
      elim (name_of fuel raw lfn_buf lfn (m.memory.bytes w)) [
        | none ↦ none
        | some name ↦ some (parse_name_at raw lfn at name (m.memory.malloc (length name + 1) w))
      ]

  -- The inner `none` is the null pointer: no entry of a file, or no memory for one.
  unfoldable pub parse_fat32_entry : ℕ → ℕ → ℕ → ℕ → W → Option (Option FatEntry × W)
  unfolding parse_long
  parse_fat32_entry fuel raw lfn_buf lfn w =
      let b = m.memory.bytes w in
      if load8 b (raw + 11) == 0x0F
      then some (none, m.set_bytes (parse_long raw lfn_buf lfn b) w)
      else if load8 b raw == 0x00 || load8 b raw == 0xE5
      then some (none, w)
      else parse_entry_at fuel raw lfn_buf lfn (m.memory.malloc entry_size w)
