-- ===== src/Fat32/Chain.antt =====
-- file-systems/fat32.c: the file allocation table. An entry's low 28 bits are the next cluster of a
-- chain. A walk along a chain takes fuel; `none` means that the fuel ran out.
use staxus.Base.{
  ℕ, zero, suc, ◌+◌, ◌-◌, ◌*◌, ◌/◌, ◌%◌, Bool, true, false, ◌&&◌, Option, none, some, ◌==◌, ltb,
  leb, if◌then◌else◌,
}
use staxus.Memory.Bytes.{Bytes, load32, store32}
use staxus.Memory.Utils.{memset}
use staxus.Storage.{info, read_block_device, write_block_device}
use staxus.Fat32.{Machine, FatMount, end_of_chain, sector_size, write_cluster}

-- `(old & 0xF0000000) | (value & 0x0FFFFFFF)`
abbrev pub link : ℕ → ℕ → ℕ
link old value = old / 268435456 * 268435456 + value % 268435456

-- `next & 0x0FFFFFFF`
abbrev pub link_of : ℕ → ℕ
link_of entry = entry % 268435456

-- The first free entry among `n` from `i` on, in a copy of the table at `buf`.
unfoldable pub first_free : ℕ → ℕ → Bytes → ℕ → Option ℕ
first_free zero i b buf = none
first_free (suc n) i b buf =
    let rest = first_free n (i + 1) b buf in
    if link_of (load32 b (buf + (i * 4) % 4294967296)) == 0 then some i else rest

module _ {W : Type 0} where
  -- Where a cluster's entry lies: its sector, and the offset in it.
  abbrev pub fat_sector : FatMount W → ℕ → ℕ
  fat_sector t cluster = (t.fat_start + (cluster * 4) % 4294967296 / sector_size t) % 4294967296

  abbrev pub entry_offset : FatMount W → ℕ → ℕ
  entry_offset t cluster = (cluster * 4) % 4294967296 % sector_size t

  abbrev pub next_in_sector : Machine W → ℕ → ℕ → Bool × W → ℕ × W
  next_in_sector m off buf (false, w) = (end_of_chain, m.memory.free buf w)
  next_in_sector m off buf (true, w) =
      (link_of (load32 (m.memory.bytes w) (buf + off)), m.memory.free buf w)

  abbrev pub next_in_buffer : Machine W → FatMount W → ℕ → Option ℕ × W → ℕ × W
  next_in_buffer m t cluster (none, w) = (end_of_chain, w)
  next_in_buffer m t cluster (some buf, w) =
      next_in_sector m (entry_offset t cluster) buf
        (read_block_device t.device buf (fat_sector t cluster) 1 w)

  unfoldable pub get_next_cluster : Machine W → FatMount W → ℕ → W → ℕ × W
  get_next_cluster m t cluster w =
      next_in_buffer m t cluster (m.memory.aalloc (sector_size t) 128 w)

  -- Two sectors where the entry crosses the end of its sector.
  abbrev pub link_sectors : FatMount W → ℕ → ℕ
  link_sectors t cluster =
      if ltb ((sector_size t + 4294967292) % 4294967296) (entry_offset t cluster) then 2 else 1

  -- Both copies of the table are written, also when the first write fails.
  abbrev pub link_write : Machine W → FatMount W → ℕ → ℕ → ℕ → W → Bool × W
  link_write m t cluster n buf w =
      let (ok1, w1) = write_block_device t.device buf (fat_sector t cluster) n w in
      let (ok2, w2) =
        write_block_device t.device buf ((fat_sector t cluster + t.sectors_per_fat) % 4294967296) n
          w1 in
      (ok1 && ok2, m.memory.free buf w2)

  abbrev pub link_in_sectors : Machine W → FatMount W → ℕ → ℕ → ℕ → ℕ → Bool × W → Bool × W
  link_in_sectors m t cluster value n buf (false, w) = (false, m.memory.free buf w)
  link_in_sectors m t cluster value n buf (true, w) =
      let b = m.memory.bytes w in
      let p = buf + entry_offset t cluster in
      link_write m t cluster n buf (m.set_bytes (store32 b p (link (load32 b p) value)) w)

  abbrev pub link_in_buffer : Machine W → FatMount W → ℕ → ℕ → ℕ → Option ℕ × W → Bool × W
  link_in_buffer m t cluster value n (none, w) = (false, w)
  link_in_buffer m t cluster value n (some buf, w) =
      link_in_sectors m t cluster value n buf
        (read_block_device t.device buf (fat_sector t cluster) n w)

  unfoldable pub set_next_cluster : Machine W → FatMount W → ℕ → ℕ → W → Bool × W
  set_next_cluster m t cluster value w =
      let n = link_sectors t cluster in
      link_in_buffer m t cluster value n (m.memory.aalloc (sector_size t * n) 128 w)

  -- `i < loopLimit`
  abbrev pub loop_limit : FatMount W → ℕ
  loop_limit t =
      let total = (info t.device).sector_count / t.sectors_per_cluster % 4294967296 in
      let most = (t.sectors_per_fat * sector_size t) % 4294967296 / 4 in
      if ltb total most then total else most

  abbrev pub zeroed : Machine W → ℕ → ℕ → Bool × W → ℕ × W
  zeroed m i cluster_buf (false, w) = (end_of_chain, m.memory.free cluster_buf w)
  zeroed m i cluster_buf (true, w) = (i, m.memory.free cluster_buf w)

  -- The new cluster is filled with zeros.
  abbrev pub zero_cluster : Machine W → FatMount W → ℕ → Option ℕ × W → ℕ × W
  zero_cluster m t i (none, w) = (end_of_chain, w)
  zero_cluster m t i (some cluster_buf, w) = zeroed m i cluster_buf (
      write_cluster t cluster_buf i
        (m.set_bytes (memset cluster_buf 0 t.bytes_per_cluster (m.memory.bytes w)) w))

  abbrev pub backup_written : Machine W → FatMount W → ℕ → ℕ → Bool × W → ℕ × W
  backup_written m t i buf (false, w) = (end_of_chain, m.memory.free buf w)
  backup_written m t i buf (true, w) =
      zero_cluster m t i (m.memory.aalloc t.bytes_per_cluster 128 (m.memory.free buf w))

  -- The sector of the entry, in the copy at `buf`.
  abbrev pub copy_of_sector : FatMount W → ℕ → ℕ → ℕ
  copy_of_sector t i buf =
      buf
      + (((fat_sector t i + 4294967296 - t.fat_start) % 4294967296) * sector_size t) % 4294967296

  abbrev pub table_written : Machine W → FatMount W → ℕ → ℕ → Bool × W → ℕ × W
  table_written m t i buf (false, w) = (end_of_chain, m.memory.free buf w)
  table_written m t i buf (true, w) = backup_written m t i buf (
      write_block_device t.device (copy_of_sector t i buf)
        ((fat_sector t i + t.sectors_per_fat) % 4294967296) 1 w)

  abbrev pub take_free : Machine W → FatMount W → ℕ → W → Option ℕ → ℕ × W
  take_free m t buf w none = (end_of_chain, m.memory.free buf w)
  take_free m t buf w (some i) = table_written m t i buf (
      write_block_device t.device (copy_of_sector t i buf) (fat_sector t i) 1
        (m.set_bytes (store32 (m.memory.bytes w) (buf + (i * 4) % 4294967296) end_of_chain) w))

  abbrev pub alloc_in_table : Machine W → FatMount W → ℕ → Bool × W → ℕ × W
  alloc_in_table m t buf (false, w) = (end_of_chain, m.memory.free buf w)
  alloc_in_table m t buf (true, w) =
      take_free m t buf w (first_free (loop_limit t - 2) 2 (m.memory.bytes w) buf)

  abbrev pub alloc_in_buffer : Machine W → FatMount W → Option ℕ × W → ℕ × W
  alloc_in_buffer m t (none, w) = (end_of_chain, w)
  alloc_in_buffer m t (some buf, w) =
      alloc_in_table m t buf (read_block_device t.device buf t.fat_start t.sectors_per_fat w)

  unfoldable pub alloc_cluster : Machine W → FatMount W → W → ℕ × W
  alloc_cluster m t w =
      alloc_in_buffer m t (m.memory.aalloc ((sector_size t * t.sectors_per_fat) % 4294967296) 128 w)

  -- `n` steps along a chain: the cluster that is reached.
  unfoldable pub walk : ℕ → Machine W → FatMount W → ℕ → W → ℕ × W
  unfolding get_next_cluster
  walk zero m t cluster w = (cluster, w)
  walk (suc n) m t cluster w = let (next, w1) = get_next_cluster m t cluster w in walk n m t next w1

  -- The loop of resetFAT32ClusterChain, which marks each cluster of the chain free.
  unfoldable pub clear_chain : ℕ → Machine W → FatMount W → ℕ → W → Option (Bool × W)
  unfolding get_next_cluster set_next_cluster
  clear_chain zero m t cluster w = none
  clear_chain (suc f) m t cluster w =
      let (next, w1) = get_next_cluster m t cluster w in
      let (ok, w2) = set_next_cluster m t cluster 0 w1 in
      let rest = clear_chain f m t next w2 in
      if ltb cluster end_of_chain then (if ok then rest else some (false, w2)) else some (true, w)

  unfoldable pub reset_cluster_chain : ℕ → Machine W → FatMount W → ℕ → W → Option (Bool × W)
  unfolding clear_chain
  reset_cluster_chain fuel m t start w = elim (clear_chain fuel m t start w) [
    | none ↦ none
    | some (ok, w1) ↦ some (if ok then set_next_cluster m t start end_of_chain w1 else (false, w1))
  ]

  -- The loop of extendFAT32File over the clusters to add: whether all were added, `*startCluster` and
  -- `lastCluster`. The first new cluster of an empty file becomes its start.
  unfoldable pub extend_from : ℕ → Machine W → FatMount W → Bool → ℕ → ℕ → W → Bool × ℕ × ℕ × W
  unfolding alloc_cluster set_next_cluster
  extend_from zero m t is_first start last w = (true, start, last, w)
  extend_from (suc n) m t is_first start last w =
      let (new, w1) = alloc_cluster m t w in
      let w2 = if is_first then w1 else (set_next_cluster m t last new w1).1 in
      let rest = extend_from n m t false (if is_first then new else start) new w2 in
      if leb end_of_chain new then (false, start, last, w1) else rest

  -- The result, `*startCluster` and the world.
  unfoldable pub extend_file : Machine W → FatMount W → ℕ → ℕ → ℕ → W → Bool × ℕ × W
  unfolding extend_from walk set_next_cluster
  extend_file m t start existing needed w =
      if leb needed existing
      then (true, start, w)
      else (let (last, w1) = walk (existing - 1) m t start w in
          let (added, start', last', w2) =
            extend_from (needed - existing) m t (existing == 0) start last w1 in
          let (ok, w3) = set_next_cluster m t last' end_of_chain w2 in
          if added then (ok, start', w3) else (false, start', w2))
