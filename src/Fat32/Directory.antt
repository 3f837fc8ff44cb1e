-- ===== src/Fat32/Directory.antt =====
-- file-systems/fat32.c: the search of a directory for a short name, and the iterator over a directory's
-- entries as it is made and taken apart. `none` means that the fuel ran out.
use staxus.Base.{
  ℕ, zero, suc, ◌+◌, ◌/◌, Bool, true, false, not, ◌||◌, Option, none, some, leb, if◌then◌else◌,
}
use staxus.Base.Int.{pos, eq_ℤ}
use staxus.Memory.Bytes.{Bytes, store8}
use staxus.Memory.Utils.{memcmp}
use staxus.Fat32.{Machine, FatMount, end_of_chain, read_cluster}
use staxus.Fat32.Chain.{get_next_cluster}

-- Whether one of the `n` entries from `raw` on begins with the 11 characters at `name`.
unfoldable pub any_name : ℕ → ℕ → ℕ → Bytes → Bool
any_name zero name raw b = false
any_name (suc n) name raw b = eq_ℤ (memcmp name raw 11 b) (pos 0) || any_name n name (raw + 32) b

-- `FAT32Iterator`, with its address. `lfnBuf` and `lfn` lie in the memory, so that a write behind the
-- array reaches what stands there.
pub record Iterator : Type 0 where
  pub at : ℕ
  pub start_cluster : ℕ
  pub cluster : ℕ
  pub entry_idx : ℕ
  pub local_idx : ℕ
  pub cluster_buf : Option ℕ

-- `sizeof(FAT32Iterator)`
abbrev pub iterator_size : ℕ
iterator_size = 288

-- `iter -> lfnBuf`, and `&iter -> lfn`
abbrev pub lfn_buf : Iterator → ℕ
lfn_buf i = i.at + 24

abbrev pub lfn : Iterator → ℕ
lfn i = lfn_buf i + 260

module _ {W : Type 0} (m : Machine W) (t : FatMount W) where
  -- The loop of check83NameExists. It leaves the buffer allocated when it finds the name, and at the
  -- end of the chain.
  unfoldable pub check_from : ℕ → ℕ → ℕ → ℕ → W → Option (Bool × W)
  unfolding read_cluster get_next_cluster any_name
  check_from zero name buf cluster w = none
  check_from (suc f) name buf cluster w =
      let (ok, w1) = read_cluster t buf cluster w in
      let (next, w2) = get_next_cluster m t cluster w1 in
      let rest = check_from f name buf next w2 in
      if leb end_of_chain cluster
      then some (false, w)
      else if not ok
      then some (false, m.memory.free buf w1)
      else if any_name ((t.bytes_per_cluster + 31) / 32) name buf (m.memory.bytes w1)
      then some (true, w1)
      else rest

  abbrev pub check_in_buffer : ℕ → ℕ → ℕ → Option ℕ × W → Option (Bool × W)
  check_in_buffer fuel name cluster (none, w) = some (false, w)
  check_in_buffer fuel name cluster (some buf, w) = check_from fuel name buf cluster w

  unfoldable pub check_83_name_exists : ℕ → ℕ → ℕ → W → Option (Bool × W)
  unfolding check_from
  check_83_name_exists fuel cluster name w =
      check_in_buffer fuel name cluster (m.memory.aalloc t.bytes_per_cluster 128 w)

  abbrev pub iterator : ℕ → ℕ → Option ℕ → Iterator
  iterator at start buf = record {
    at = at;
    start_cluster = start;
    cluster = start;
    entry_idx = 0;
    local_idx = 0;
    cluster_buf = buf;
  }

  -- The iterator once its first cluster has been read.
  abbrev pub iterator_read : ℕ → ℕ → ℕ → Bool × W → Option Iterator × W
  iterator_read at start buf (false, w) = (none, m.memory.free at (m.memory.free buf w))
  iterator_read at start buf (true, w) = (some (iterator at start (some buf)), w)

  abbrev pub iterator_buffer : ℕ → ℕ → Option ℕ × W → Option Iterator × W
  iterator_buffer at start (none, w) = (none, m.memory.free at w)
  iterator_buffer at start (some buf, w) = iterator_read at start buf (read_cluster t buf start w)

  -- `iter -> lfn = false`
  abbrev pub no_long_name : ℕ → W → W
  no_long_name at w = m.set_bytes (store8 (m.memory.bytes w) (at + 24 + 260) 0) w

  abbrev pub iterator_at : ℕ → Option ℕ × W → Option Iterator × W
  iterator_at start (none, w) = (none, w)
  iterator_at start (some at, w) =
      if leb end_of_chain start
      then (some (iterator at start none), no_long_name at w)
      else iterator_buffer at start (m.memory.aalloc t.bytes_per_cluster 128 (no_long_name at w))

  unfoldable pub create_cluster_iterator : ℕ → W → Option Iterator × W
  unfolding read_cluster
  create_cluster_iterator start w = iterator_at start (m.memory.malloc iterator_size w)

  abbrev pub free_buffer : Option ℕ → W → W
  free_buffer none w = w
  free_buffer (some buf) w = m.memory.free buf w

  unfoldable pub destroy_iterator : Iterator → W → W
  destroy_iterator i w = m.memory.free i.at (free_buffer i.cluster_buf w)
