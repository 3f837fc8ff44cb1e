-- ===== src/Fat32/Entries.antt =====
-- file-systems/fat32.c: directory entries of 32 bytes, their names, and their places in a directory.
use staxus.Base.{
  ℕ, zero, suc, ◌+◌, ◌-◌, ◌*◌, ◌/◌, ◌%◌, Bool, false, not, ◌&&◌, ◌||◌, Option, none, some, [], ◌∷◌,
  ◌++◌, ◌==◌, ltb, leb, if◌then◌else◌, bit_and, length,
}
use staxus.Base.Int.{pos, signed8, eq_ℤ}
use staxus.Memory.Bytes.{Bytes, load8, load32}
use staxus.Strings.Utils.{islower, tolower}
use staxus.Files.{Text, has_char}
use staxus.Fat32.{Machine, FatMount, end_of_chain, read_cluster}
use staxus.Fat32.Chain.{get_next_cluster}

-- `FAT32Entry`, with its address and that of its name.
pub record FatEntry : Type 0 where
  pub at : ℕ
  pub name_at : ℕ
  pub name : Text
  pub parent_cluster : ℕ
  pub parent_entry_idx : ℕ
  pub cluster : ℕ
  pub attr : ℕ
  pub size : ℕ
  pub crt_time_tenth : ℕ
  pub crt_time : ℕ
  pub crt_date : ℕ
  pub acc_date : ℕ
  pub wrt_time : ℕ
  pub wrt_date : ℕ

-- `(u16) entry[hi] << 8 | entry[lo]`
abbrev pub pair_at : Bytes → ℕ → ℕ
pair_at b p = load8 b (p + 1) * 256 + load8 b p

-- The fields of the entry at `raw` that are numbers, as parseFAT32Entry reads them.
unfoldable pub parse_fields : Bytes → ℕ → ℕ → ℕ → Text → FatEntry
parse_fields b raw at name_at name = record {
  at = at;
  name_at = name_at;
  name = name;
  parent_cluster = 0;
  parent_entry_idx = 0;
  cluster = pair_at b (raw + 20) * 65536 + pair_at b (raw + 26);
  attr = load8 b (raw + 11);
  size = load32 b (raw + 28);
  crt_time_tenth = load8 b (raw + 17);
  crt_time = pair_at b (raw + 16);
  crt_date = pair_at b (raw + 18);
  acc_date = pair_at b (raw + 22);
  wrt_time = pair_at b (raw + 24);
  wrt_date = pair_at b (raw + 26);
}

-- `n` bytes from `p` on, in lower case if `low`.
abbrev pub chars_at : ℕ → Bool → Bytes → ℕ → Text
chars_at zero low b p = []
chars_at (suc n) low b p =
    (if low then tolower (load8 b p) else load8 b p) ∷ chars_at n low b (p + 1)

-- The loop that puts a terminator over each of the spaces at the end.
abbrev pub trim : Text → Text
trim [] = []
trim (c ∷ cs) =
    let rest = trim cs in
    elim rest [ [] ↦ if c == b' ' then [] else c ∷ [] | ◌∷◌ d ds ↦ c ∷ d ∷ ds ]

-- The characters before the first terminator.
abbrev pub until_nul : Text → Text
until_nul [] = []
until_nul (c ∷ cs) = let rest = until_nul cs in if c == 0 then [] else c ∷ rest

-- The name of an entry without a long name: eight characters, a dot and three, without the spaces at
-- the end of either part, and without the dot if nothing follows it.
unfoldable pub short_name : Bytes → ℕ → Text
short_name b raw =
    let nlow = not (bit_and (load8 b (raw + 12)) 0x08 == 0) in
    let elow = not (bit_and (load8 b (raw + 12)) 0x10 == 0) in
    let name = until_nul (trim (chars_at 8 nlow b raw)) in
    let ext = until_nul (trim (chars_at 3 elow b (raw + 8))) in
    elim ext [ [] ↦ name | ◌∷◌ c cs ↦ name ++ (b'.' ∷ c ∷ cs) ]

-- The index of the first '.', or the length: `fnlen`.
abbrev pub dot_at : Text → ℕ
dot_at [] = 0
dot_at (c ∷ cs) = let rest = dot_at cs in if c == b'.' then 0 else suc rest

abbrev pub any_lower : Text → Bool
any_lower [] = false
any_lower (c ∷ cs) = islower c || any_lower cs

abbrev pub fits_83 : Text → Bool
fits_83 name =
    leb (dot_at name) 8
    && (leb (length name - dot_at name) 4 && (not (has_char b' ' name) && not (has_char b'+' name)))

-- `(len + 12) / 13`, at most 20
abbrev pub long_entries : ℕ → ℕ
long_entries len = if ltb 20 ((len + 12) / 13) then 20 else (len + 12) / 13

-- How many entries a long name takes; none for a name that fits in eight and three characters and has
-- no lower-case letter. The test for 0xE5 compares a signed `char` with 229.
unfoldable pub required_lfn_entries : Text → ℕ
required_lfn_entries [] = 0
required_lfn_entries (c ∷ cs) =
    if eq_ℤ (signed8 c) (pos 0xE5)
    then 0
    else if fits_83 (c ∷ cs) && not (any_lower (c ∷ cs))
    then 0
    else long_entries (length (c ∷ cs))

-- One step of checksum83Name: a rotation to the right by one bit, and the next character. A `char` from
-- 128 on is negative; modulo 256 that makes no difference.
abbrev pub checksum_step : ℕ → ℕ → ℕ
checksum_step sum c = (sum % 2 * 128 + sum / 2 + c) % 256

unfoldable pub checksum_from : ℕ → ℕ → Bytes → ℕ → ℕ
checksum_from zero sum b p = sum
checksum_from (suc n) sum b p = checksum_from n (checksum_step sum (load8 b p)) b (p + 1)

unfoldable pub checksum_83_name : Bytes → ℕ → ℕ
unfolding checksum_from
checksum_83_name b name = checksum_from 11 0 b name

-- The entries of a directory up to the one looked at: the index of the first of the free ones that end
-- there, and their number.
abbrev pub is_free : ℕ → Bool
is_free first = first == 0xE5 || first == 0x00

-- One cluster of findFreeEntries: `inl` is a return, `inr` carries `start` and `found` on.
pub data Scan : Type 0 where
  found_at : ℕ → Scan
  going_on : ℕ → ℕ → Scan

unfoldable pub scan_cluster : ℕ → ℕ → ℕ → ℕ → ℕ → Bytes → ℕ → Scan
scan_cluster zero idx needed start found b raw = going_on start found
scan_cluster (suc n) idx needed start found b raw =
    let start' = if found == 0 then idx % 4294967296 else start in
    let more = scan_cluster n (idx + 1) needed start' (found + 1) b (raw + 32) in
    let reset = scan_cluster n (idx + 1) needed end_of_chain 0 b (raw + 32) in
    if is_free (load8 b raw) then (if found + 1 == needed then found_at start' else more) else reset

module _ {W : Type 0} (m : Machine W) (t : FatMount W) where
  abbrev pub entries_per_cluster : ℕ
  entries_per_cluster = t.bytes_per_cluster / 32 % 4294967296

  -- The loop of findFreeEntries over the clusters of the directory. `none`: the fuel ran out.
  unfoldable pub find_free_from : ℕ → ℕ → ℕ → ℕ → ℕ → ℕ → ℕ → W → Option (ℕ × W)
  unfolding read_cluster scan_cluster get_next_cluster
  find_free_from zero buf cluster clusters needed start found w = none
  find_free_from (suc f) buf cluster clusters needed start found w =
      let (ok, w1) = read_cluster t buf cluster w in
      let (next, w2) = get_next_cluster m t cluster w1 in
      if leb end_of_chain cluster
      then some (end_of_chain, m.memory.free buf w)
      else if not ok
      then some (end_of_chain, m.memory.free buf w1)
      else elim (scan_cluster entries_per_cluster (clusters * entries_per_cluster) needed start
          found (m.memory.bytes w1) buf) [
            | found_at i ↦ some (i, m.memory.free buf w1)
            | going_on start' found' ↦
                find_free_from f buf next ((clusters + 1) % 4294967296) needed start' found' w2
          ]

  abbrev pub find_free_in : ℕ → ℕ → ℕ → Option ℕ × W → Option (ℕ × W)
  find_free_in fuel cluster needed (none, w) = some (end_of_chain, w)
  find_free_in fuel cluster needed (some buf, w) =
      find_free_from fuel buf cluster 0 needed end_of_chain 0 w

  unfoldable pub find_free_entries : ℕ → ℕ → ℕ → W → Option (ℕ × W)
  unfolding find_free_from
  find_free_entries fuel cluster needed w =
      find_free_in fuel cluster needed (m.memory.aalloc t.bytes_per_cluster 128 w)

  unfoldable pub destroy_entry : FatEntry → W → W
  destroy_entry e w = m.memory.free e.at (m.memory.free e.name_at w)
