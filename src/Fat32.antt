-- ===== src/Fat32.antt =====
-- file-systems/fat32.c: the mount, and the transfer of whole clusters. The device is a block device of
-- Storage. `% 4294967296` is the wrap of a `u32`.
pub mod Chain
pub mod Disk
pub mod Links
pub mod Next
pub mod Transfer
pub mod Entries
pub mod Directory
pub mod Parse
pub mod Search
pub mod Names83
pub mod Write
pub mod Create
pub mod Calls
pub mod Listed
pub mod Resolve
pub mod LongNames
pub mod Names
pub mod Free
pub mod Tests
pub mod NameTests
use staxus.Base.{ℕ, ◌+◌, ◌*◌, ◌%◌, Bool, true, false, not, ◌&&◌, Option, none, some, ◌==◌}
use staxus.Memory.Bytes.{Bytes, load8, load16, load32}
use staxus.Storage.{BlockDevice, Memory, info, read_block_device, write_block_device}

-- The allocator, and writes to the memory that the world holds.
pub record Machine (W : Type 0) : Type 0 where
  pub memory : Memory W
  pub set_bytes : Bytes → W → W

-- `FAT32Mount`, with its address.
pub record FatMount (W : Type 0) : Type 0 where
  pub device : BlockDevice W
  pub fat_start : ℕ
  pub data_start : ℕ
  pub root_cluster : ℕ
  pub sectors_per_fat : ℕ
  pub bytes_per_cluster : ℕ
  pub sectors_per_cluster : ℕ
  pub at : ℕ

abbrev pub end_of_chain : ℕ
end_of_chain = 0x0FFFFFF8

-- `sizeof(FAT32Mount)`
abbrev pub fat_mount_size : ℕ
fat_mount_size = 40

module _ {W : Type 0} where
  abbrev pub sector_size : FatMount W → ℕ
  sector_size t = (info t.device).sector_size

  -- The first sector is at `buf`, if it could be read.
  abbrev pub probe_sector : Machine W → ℕ → Bool × W → Bool × W
  probe_sector m buf (false, w) = (false, m.memory.free buf w)
  probe_sector m buf (true, w) =
      let b = m.memory.bytes w in
      (
        load8 b (buf + 510) == 0x55
            && (load8 b (buf + 511) == 0xAA && not (load32 b (buf + 36) == 0)),
        m.memory.free buf w,
      )

  abbrev pub probe_buffer : Machine W → BlockDevice W → Option ℕ × W → Bool × W
  probe_buffer m d (none, w) = (false, w)
  probe_buffer m d (some buf, w) = probe_sector m buf (read_block_device d buf 0 1 w)

  unfoldable pub probe_fat32_file_system : Machine W → BlockDevice W → W → Bool × W
  probe_fat32_file_system m d w = probe_buffer m d (m.memory.aalloc (info d).sector_size 128 w)

  -- The mount that the first sector describes.
  abbrev pub mount_of_sector : BlockDevice W → Bytes → ℕ → ℕ → FatMount W
  mount_of_sector d b buf at = record {
    device = d;
    fat_start = load16 b (buf + 14);
    data_start = (load16 b (buf + 14) + load8 b (buf + 16) * load32 b (buf + 36)) % 4294967296;
    root_cluster = load32 b (buf + 44);
    sectors_per_fat = load32 b (buf + 36);
    bytes_per_cluster = load8 b (buf + 13) * (info d).sector_size;
    sectors_per_cluster = load8 b (buf + 13);
    at = at;
  }

  abbrev pub mount_sector : Machine W → BlockDevice W → ℕ → ℕ → Bool × W → Option (FatMount W) × W
  mount_sector m d at buf (false, w) = (none, m.memory.free at (m.memory.free buf w))
  mount_sector m d at buf (true, w) =
      (some (mount_of_sector d (m.memory.bytes w) buf at), m.memory.free buf w)

  abbrev pub mount_buffer : Machine W → BlockDevice W → ℕ → Option ℕ × W → Option (FatMount W) × W
  mount_buffer m d at (none, w) = (none, m.memory.free at w)
  mount_buffer m d at (some buf, w) = mount_sector m d at buf (read_block_device d buf 0 1 w)

  abbrev pub mount_struct : Machine W → BlockDevice W → Option ℕ × W → Option (FatMount W) × W
  mount_struct m d (none, w) = (none, w)
  mount_struct m d (some at, w) = mount_buffer m d at (m.memory.aalloc (info d).sector_size 128 w)

  unfoldable pub mount_fat32_file_system : Machine W → BlockDevice W → W → Option (FatMount W) × W
  mount_fat32_file_system m d w = mount_struct m d (m.memory.malloc fat_mount_size w)

  unfoldable pub unmount_fat32_file_system : Machine W → FatMount W → W → W
  unmount_fat32_file_system m t w = m.memory.free t.at w

  -- `dataStart + (cluster - 2) * sectorsPerCluster`
  unfoldable pub first_sector : FatMount W → ℕ → ℕ
  first_sector t cluster =
      (t.data_start + ((cluster + 4294967294) % 4294967296) * t.sectors_per_cluster) % 4294967296

  unfoldable pub read_cluster : FatMount W → ℕ → ℕ → W → Bool × W
  unfolding first_sector
  read_cluster t buffer cluster w =
      read_block_device t.device buffer (first_sector t cluster) t.sectors_per_cluster w

  unfoldable pub write_cluster : FatMount W → ℕ → ℕ → W → Bool × W
  unfolding first_sector
  write_cluster t buffer cluster w =
      write_block_device t.device buffer (first_sector t cluster) t.sectors_per_cluster w
