-- ===== src/Fat32/Transfer.antt =====
-- file-systems/fat32.c: reading and writing the bytes of a file, cluster by cluster. The loops take
-- fuel; `none` means that it ran out.
pub mod Reads
use staxus.Base.{ℕ, zero, suc, ◌+◌, ◌-◌, ◌/◌, ◌%◌, Option, none, some, ◌==◌, ltb, if◌then◌else◌}
use staxus.Memory.Utils.{memcpy}
use staxus.Memory.Identity.{add64, sub64}
use staxus.Fat32.{Machine, FatMount, read_cluster, write_cluster}
use staxus.Fat32.Chain.{get_next_cluster, walk}

-- `if(offset + length > entry -> size) length = entry -> size - offset`
unfoldable pub clamp_length : ℕ → ℕ → ℕ → ℕ
clamp_length size off len = if ltb size (add64 off len) then sub64 size off else len

-- The part of a cluster from `off` on that a transfer of `left` bytes takes.
unfoldable pub part_of : ℕ → ℕ → ℕ → ℕ
part_of per_cluster off left = if ltb (per_cluster - off) left then per_cluster - off else left

module _ {W : Type 0} (m : Machine W) (t : FatMount W) where
  -- One round after its read: the cluster's part is copied to `dst + total`.
  abbrev pub read_part : ℕ → ℕ → ℕ → ℕ → ℕ → W → W
  read_part buf dst off left total w =
      m.set_bytes
        (memcpy (dst + total) (buf + off) (part_of t.bytes_per_cluster off left) (m.memory.bytes w))
        w

  -- The loop of readFAT32File. The result is the returned number of bytes.
  unfoldable pub read_from : ℕ → ℕ → ℕ → ℕ → ℕ → ℕ → ℕ → W → Option (ℕ × W)
  unfolding read_cluster part_of get_next_cluster
  read_from zero buf dst cluster off left total w = none
  read_from (suc f) buf dst cluster off left total w =
      let (ok, w1) = read_cluster t buf cluster w in
      let n = part_of t.bytes_per_cluster off left in
      let (next, w2) = get_next_cluster m t cluster (read_part buf dst off left total w1) in
      let rest = read_from f buf dst next 0 (left - n) (total + n) w2 in
      if left == 0
      then some (total, m.memory.free buf w)
      else if ok
      then rest
      else some (0, m.memory.free buf w1)

  abbrev pub read_in_buffer : ℕ → ℕ → ℕ → ℕ → ℕ → Option ℕ × W → Option (ℕ × W)
  read_in_buffer fuel dst cluster off len (none, w) = some (0, w)
  read_in_buffer fuel dst cluster off len (some buf, w) = read_from fuel buf dst cluster off len 0 w

  -- The file's size and first cluster are those of its entry.
  unfoldable pub read_file : ℕ → ℕ → ℕ → ℕ → ℕ → ℕ → W → Option (ℕ × W)
  unfolding clamp_length walk read_from
  read_file fuel size first dst off len w =
      let (cluster, w1) = walk (off / t.bytes_per_cluster) m t first w in
      read_in_buffer fuel dst cluster (off % t.bytes_per_cluster) (clamp_length size off len)
        (m.memory.aalloc t.bytes_per_cluster 128 w1)

  -- One round of the loop of writeFAT32File after its read.
  abbrev pub write_part : ℕ → ℕ → ℕ → ℕ → ℕ → W → W
  write_part buf src off left total w =
      m.set_bytes
        (memcpy (buf + off) (src + total) (part_of t.bytes_per_cluster off left) (m.memory.bytes w))
        w

  unfoldable pub write_from : ℕ → ℕ → ℕ → ℕ → ℕ → ℕ → ℕ → W → Option (ℕ × W)
  unfolding read_cluster write_cluster part_of get_next_cluster
  write_from zero buf src cluster off left total w = none
  write_from (suc f) buf src cluster off left total w =
      let (ok, w1) = read_cluster t buf cluster w in
      let n = part_of t.bytes_per_cluster off left in
      let (written, w2) = write_cluster t buf cluster (write_part buf src off left total w1) in
      let (next, w3) = get_next_cluster m t cluster w2 in
      let rest = write_from f buf src next 0 (left - n) (total + n) w3 in
      if left == 0
      then some (total, m.memory.free buf w)
      else if ok
      then (if written then rest else some (total, m.memory.free buf w2))
      else some (0, m.memory.free buf w1)

  abbrev pub write_in_buffer : ℕ → ℕ → ℕ → ℕ → ℕ → Option ℕ × W → Option (ℕ × W)
  write_in_buffer fuel src cluster off len (none, w) = some (0, w)
  write_in_buffer fuel src cluster off len (some buf, w) =
      write_from fuel buf src cluster off len 0 w
