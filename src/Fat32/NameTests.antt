-- ===== src/Fat32/NameTests.antt =====
-- The theorems on the names and the search of FAT32 at small directories.
use staxus.Base.{
  subst, ◌*◌, ap, sym, ◌+◌, ◌≡◌, refl, some, none, Option, [], ◌∷◌, ltb, ◌==◌, leb, ◌&&◌,
  if◌then◌else◌, arith,
}
use staxus.Memory.Bytes.{load8, store8}
use staxus.Memory.Utils.{memset, memset_from}
use staxus.Files.{Text}
use staxus.Storage.{read_block_device}
use staxus.Fat32.Entries.{parse_fields, short_name, FatEntry, required_lfn_entries}
use staxus.Fat32.Directory.{Iterator}
use staxus.Fat32.Search.{next_entry, find_entry, bad_cluster}
use staxus.Fat32.Write.{put_slots}
use staxus.Fat32.LongNames.Entry.{IsFile, Mallocs, next_entry-name}
use staxus.Fat32.Resolve.Slash.{find_entry-leading_slash}
use staxus.Fat32.Tests.{World, machine, mount, blank}

-- "a b" takes one entry, at the third place of its cluster.
abbrev spaced : Text
spaced = b'a' ∷ b' ' ∷ b'b' ∷ []

one_slot : required_lfn_entries spaced ≡ 1
unfolding required_lfn_entries
one_slot = refl

abbrev at_slot : Iterator
at_slot = record {
  at = 65536;
  start_cluster = 2;
  cluster = 2;
  entry_idx = 2;
  local_idx = 2;
  cluster_buf = some 4096;
}

abbrev written : World
written = (put_slots 1 1 99 spaced 4096 16 2 (λ a. if a == 4192 then b'X' else 0), blank.1)

written-IsFile : IsFile written.0 4192
unfolding put_slots load8 store8 memset memset_from
written-IsFile = record {
  kind = λ e. ground (arith, e);
  used = λ e. ground (arith, e);
  kept = λ e. ground (arith, e);
}

machine-Mallocs : Mallocs machine 65560 261
machine-Mallocs size w = (65536, w, refl, (λ a lo hi. refl))

next_entry-name_example :
    (e : FatEntry) × (j : Iterator) × (after : World) × (next_entry machine mount
        (required_lfn_entries spaced + 5)
        at_slot
        written
      ≡ some (some e, j, after))
    × (e.name ≡ spaced)
next_entry-name_example =
    next_entry-name machine mount (λ b w. refl) spaced 4 99 4096 2 at_slot
      (λ a. if a == 4192 then b'X' else 0) written machine-Mallocs
      ((omega arith, omega arith), ((omega arith, omega arith), ((omega arith, omega arith), tt)))
      (omega arith) (omega (arith, one_slot)) (omega arith) (omega arith) refl
      (omega (arith, one_slot)) refl (omega (arith, one_slot))
      (subst (λ n. IsFile written.0 (4160 + n * 32)) (sym one_slot) written-IsFile)
      (ap (λ n. put_slots n n 99 spaced 4096 16 2 (λ a. if a == 4192 then b'X' else 0))
        (sym one_slot))

-- The disk with a directory "A" in the root, which begins at cluster 2 and sector 36.
abbrev with_directory : World
with_directory = (
  blank.0,
  λ a.
      if a == 18432
      then b'A'
      else if leb 18433 a && ltb a 18443
      then b' '
      else if a == 18443
      then 0x10
      else if a == 18458
      then 3
      else 0,
)

abbrev empty_entry : FatEntry
empty_entry = record {
  at = 0;
  name_at = 0;
  name = [];
  parent_cluster = 0;
  parent_entry_idx = 0;
  cluster = 0;
  attr = 0;
  size = 0;
  crt_time_tenth = 0;
  crt_time = 0;
  crt_date = 0;
  acc_date = 0;
  wrt_time = 0;
  wrt_date = 0;
}

abbrev entry_in : Option (Option FatEntry × World) → FatEntry
entry_in none = empty_entry
entry_in (some (none, w)) = empty_entry
entry_in (some (some e, w)) = e

abbrev world_of : Option (Option FatEntry × World) → World
world_of none = blank
world_of (some (o, w)) = w

unfoldable found_a : Option (Option FatEntry × World)
found_a = find_entry machine mount 6 (b'A' ∷ []) 2 with_directory

unfoldable found_slash : Option (Option FatEntry × World)
found_slash = find_entry machine mount 6 (b'/' ∷ b'A' ∷ []) 2 with_directory

found_slash-some : found_slash ≡ some (some (entry_in found_slash), world_of found_slash)
unfolding found_slash find_entry read_block_device load8 store8 parse_fields short_name
found_slash-some = refl

find_entry-leading_slash_example :
    ((entry_in found_slash).name ≡ [])
    × ((entry_in found_slash).attr ≡ 0x10)
    × ((entry_in found_slash).parent_cluster ≡ bad_cluster)
unfolding found_slash
find_entry-leading_slash_example =
    find_entry-leading_slash machine mount 6 (b'A' ∷ []) 2 with_directory (world_of found_slash)
      (entry_in found_slash) (omega arith, tt) found_slash-some
