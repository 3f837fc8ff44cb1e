-- ===== src/Fat32/Write.antt =====
-- writeFAT32Entry of file-systems/fat32.c: the entries of a long name and the entry itself, written to a
-- directory, in place or behind each other at a free place. `none`: the fuel ran out.
use staxus.Base.{
  ℕ, zero, suc, ◌+◌, ◌*◌, ◌/◌, ◌%◌, Bool, true, false, not, ◌||◌, Option, none, some, [], ◌∷◌, ◌==◌,
  ltb, leb, if◌then◌else◌, length, get_elem?, ◌>>=◌,
}
use staxus.Memory.Bytes.{Bytes, store8, store32}
use staxus.Memory.Utils.{memset, memcpy}
use staxus.Files.{Text}
use staxus.Fat32.{Machine, FatMount, end_of_chain, read_cluster, write_cluster}
use staxus.Fat32.Chain.{get_next_cluster, walk, extend_file}
use staxus.Fat32.Entries.{
  FatEntry, required_lfn_entries, checksum_83_name, find_free_entries, entries_per_cluster,
}
use staxus.Fat32.Names83.{get_83_name}

-- `pos < len ? entry -> name[pos] : 0xFFFF` as a `word`. A `char` from 128 on is widened with its sign,
-- and `len` counts the terminator.
abbrev pub unit_at : Text → ℕ → ℕ
unit_at name pos = elim (get_elem? name pos) [
  | none ↦ if pos == length name then 0 else 0xFFFF
  | some c ↦ if ltb c 128 then c else c + 65280
]

-- `n` units of the name from `pos` on, two bytes each.
unfoldable pub put_units : ℕ → Text → ℕ → ℕ → Bytes → Bytes
put_units zero name pos p b = b
put_units (suc n) name pos p b =
    put_units n name (pos + 1) (p + 2)
      (store8 (store8 b p (unit_at name pos % 256)) (p + 1) (unit_at name pos / 256))

-- The head of entry `k` of a long name: its number, with 64 added (`|= 0x40`) in the last one.
unfoldable pub put_slot_head : Bool → ℕ → ℕ → ℕ → Bytes → Bytes
put_slot_head last k sum raw b =
    let b1 = store8 (memset raw 0 32 b) raw (if last then k + 1 + 64 else k + 1) in
    let b2 = store8 (store8 (store8 b1 (raw + 11) 0x0F) (raw + 12) 0) (raw + 13) sum in
    store8 (store8 b2 (raw + 26) 0) (raw + 27) 0

-- Entry `k` of a long name, with the characters from 13 * k on.
unfoldable pub put_slot : Bool → ℕ → ℕ → Text → ℕ → Bytes → Bytes
unfolding put_slot_head put_units
put_slot last k sum name raw b =
    let b1 = put_units 5 name (13 * k) (raw + 1) (put_slot_head last k sum raw b) in
    put_units 2 name (13 * k + 11) (raw + 28) (put_units 6 name (13 * k + 5) (raw + 14) b1)

-- The place of entry `idx` of a directory in the buffer of its cluster.
abbrev pub slot_at : ℕ → ℕ → ℕ → ℕ
slot_at buf per_cluster idx = buf + idx % per_cluster * 32

-- The loop over the entries of a long name, from the last of the `n` to the first. All of them are
-- written to the one buffer, also where they lie in a cluster in front of it.
unfoldable pub put_slots : ℕ → ℕ → ℕ → Text → ℕ → ℕ → ℕ → Bytes → Bytes
unfolding put_slot
put_slots zero n sum name buf per_cluster start b = b
put_slots (suc k) n sum name buf per_cluster start b =
    put_slots k n sum name buf per_cluster start
      (put_slot (k + 1 == n) k sum name (slot_at buf per_cluster (start + k)) b)

-- The attributes, the cluster and the size.
unfoldable pub put_fields : FatEntry → ℕ → Bytes → Bytes
put_fields e raw b =
    let b1 = store8 b (raw + 11) e.attr in
    let b2 = store8 (store8 b1 (raw + 26) e.cluster) (raw + 27) (e.cluster / 256) in
    let b3 = store8 (store8 b2 (raw + 20) (e.cluster / 65536)) (raw + 21) (e.cluster / 16777216) in
    store32 b3 (raw + 28) e.size

-- `first == 0x00 || first == 0xE5`
abbrev pub unnamed : Text → Bool
unnamed [] = true
unnamed (c ∷ cs) = c == 0x00 || c == 0xE5

-- The entry at `raw`, with the short name at `n83` if it is new or deleted.
unfoldable pub put_entry : FatEntry → Bool → ℕ → ℕ → Bytes → Bytes
unfolding put_fields
put_entry e in_place n83 raw b =
    put_fields e raw (if not in_place || unnamed e.name then memcpy raw n83 11 b else b)

module _ {W : Type 0} (m : Machine W) (t : FatMount W) where
  -- The loop that counts the clusters of the directory.
  unfoldable pub count_from : ℕ → ℕ → ℕ → W → Option (ℕ × W)
  unfolding get_next_cluster
  count_from zero clusters last w = none
  count_from (suc f) clusters last w =
      let (next, w1) = get_next_cluster m t last w in
      let rest = count_from f ((clusters + 1) % 4294967296) next w1 in
      if leb end_of_chain last
      then some (clusters, w)
      else if leb end_of_chain next
      then some (clusters, w1)
      else rest

  -- The place where the entries go, in a directory that may have grown: `startEntry`, if there is one,
  -- and the entry.
  abbrev pub grow : ℕ → ℕ → FatEntry → W → Option (Option ℕ × FatEntry × W)
  grow fuel start e w = if ltb start end_of_chain then some (some start, e, w) else (do
    (clusters, w1) ← count_from fuel 1 e.parent_cluster w
    let (ok, parent, w2) = extend_file m t e.parent_cluster clusters (clusters + 1) w1
    let e' = record e { parent_cluster = parent }
    some (if ok then some ((clusters * entries_per_cluster m t) % 4294967296) else none, e', w2))

  -- The contents of the buffer, once there is a short name.
  abbrev pub filled : FatEntry → Bool → ℕ → ℕ → ℕ → ℕ → Bytes → Bytes
  filled e in_place slots start buf n83 b =
      let epc = entries_per_cluster m t in
      put_entry e in_place n83 (slot_at buf epc e.parent_entry_idx)
        (put_slots slots slots (checksum_83_name b n83) e.name buf epc start b)

  -- The cluster with the entry is at `buf`, and its place is known: the rest of the call. `n83` is the
  -- array for the short name.
  abbrev pub write_in_cluster :
      ℕ → FatEntry → Bool → ℕ → ℕ → ℕ → ℕ → ℕ → Bool × W → Option (Bool × W)
  write_in_cluster fuel e in_place slots start buf n83 cluster (false, w) =
      some (false, m.memory.free buf w)
  write_in_cluster fuel e in_place slots start buf n83 cluster (true, w) = do
    (named, w1) ← get_83_name m t fuel e.parent_cluster e.name n83 w
    let w2 = m.set_bytes (filled e in_place slots start buf n83 (m.memory.bytes w1)) w1
    let (written, w3) = write_cluster t buf cluster w2
    some (if named then (written, m.memory.free buf w3) else (false, m.memory.free buf w1))

  -- `entry -> parentEntryIdx * ENTRY_SIZE / mount -> bytesPerCluster`
  abbrev pub cluster_off : ℕ → ℕ
  cluster_off idx = (idx * 32) % 4294967296 / t.bytes_per_cluster

  abbrev pub write_at :
      ℕ → Bool → ℕ → ℕ → ℕ → Option ℕ × FatEntry × W → Option (Bool × FatEntry × W)
  write_at fuel in_place slots buf n83 (none, e, w) = some (false, e, m.memory.free buf w)
  write_at fuel in_place slots buf n83 (some start, e, w) = do
    let e' = record e { parent_entry_idx = (start + slots) % 4294967296 }
    let (cluster, w1) = walk (cluster_off e'.parent_entry_idx) m t e.parent_cluster w
    (ok, w2) ←
        write_in_cluster fuel e' in_place slots start buf n83 cluster
          (read_cluster t buf cluster w1)
    some (ok, e', w2)

  abbrev pub entry_in_buffer :
      ℕ → FatEntry → Bool → ℕ → ℕ → ℕ → Option ℕ × W → Option (Bool × FatEntry × W)
  entry_in_buffer fuel e in_place slots start n83 (none, w) = some (false, e, w)
  entry_in_buffer fuel e in_place slots start n83 (some buf, w) = do
    (place, e', w1) ← grow fuel start e w
    write_at fuel in_place slots buf n83 (place, e', w1)

  -- The result, the entry with its new place, and the world.
  unfoldable pub write_entry : ℕ → ℕ → FatEntry → Bool → W → Option (Bool × FatEntry × W)
  unfolding find_free_entries count_from extend_file put_slots put_entry get_83_name walk
      read_cluster write_cluster
  write_entry fuel n83 e in_place w = do
    let slots = if in_place then 0 else required_lfn_entries e.name
    (start, w1) ←
        if in_place
        then some (e.parent_entry_idx, w)
        else find_free_entries m t fuel e.parent_cluster (slots + 1) w
    entry_in_buffer fuel e in_place slots start n83 (m.memory.aalloc t.bytes_per_cluster 128 w1)
