-- ===== src/Storage.antt =====
-- storage/block.c and storage/partition/partition.c: the table of block devices, the table of
-- partitions, and the devices that stand for a partition of another device. `W` is all that the
-- physical drivers and the allocator change.
pub mod Access
pub mod Mbr
pub mod Gpt
pub mod Ledger
pub mod Leak
pub mod Tests
use staxus.Base.{
  ℕ, Bool, true, false, Option, none, some, List, [], ◌∷◌, ◌++◌, ltb, leb, if◌then◌else◌, length,
  bit_and,
}
use staxus.Memory.Bytes.{Bytes}
use staxus.Memory.Identity.{add64}

-- The fields of a `BlockDevice` that do not depend on its driver.
pub record Info : Type 0 where
  pub flags : ℕ
  pub model : List ℕ
  pub sector_count : ℕ
  pub sector_size : ℕ

-- `Partition` without its two devices.
pub record Extent : Type 0 where
  pub lba_start : ℕ
  pub lba_end : ℕ
  pub kind : ℕ

module _ (W : Type 0) where
  -- A driver's `read` or `write`: buffer, sector and count.
  abbrev pub Transfer : Type 0
  Transfer = ℕ → ℕ → ℕ → W → Bool × W

  -- `BlockDevice`: one of a driver, whose function pointers may be NULL, or one of a partition, whose
  -- `read` and `write` are readPartition and writePartition and whose `internal` is the partition.
  pub data BlockDevice : Type 0 where
    physical : Info → Option Transfer → Option Transfer → BlockDevice
    partition : Info → Extent → BlockDevice → BlockDevice

  -- The static tables, and the rest of the system.
  pub record Storage : Type 0 where
    pub block_devices : List BlockDevice
    pub partitions : List BlockDevice
    pub world : W

  -- memory/alloc.c, and the memory as the world holds it.
  pub record Memory : Type 0 where
    pub aalloc : ℕ → ℕ → W → Option ℕ × W
    pub malloc : ℕ → W → Option ℕ × W
    pub free : ℕ → W → W
    pub bytes : W → Bytes

abbrev pub max_block_devices : ℕ
max_block_devices = 256

abbrev pub max_partitions : ℕ
max_partitions = 1024

abbrev pub max_partition_controllers : ℕ
max_partition_controllers = 16

-- `sizeof(BlockDevice)` and `sizeof(Partition)`
abbrev pub block_device_size : ℕ
block_device_size = 56

abbrev pub partition_size : ℕ
partition_size = 40

module _ {W : Type 0} where
  abbrev pub info : BlockDevice W → Info
  info (physical i read write) = i
  info (partition i e parent) = i

  unfoldable pub read_block_device : BlockDevice W → Transfer W
  read_block_device (physical i none write) buffer sector count w = (false, w)
  read_block_device (physical i (some read) write) buffer sector count w =
      read buffer sector count w
  read_block_device (partition i e parent) buffer sector count w =
      let rest = read_block_device parent buffer (add64 sector e.lba_start) count w in
      if ltb i.sector_count (add64 sector count) then (false, w) else rest

  unfoldable pub write_block_device : BlockDevice W → Transfer W
  write_block_device (physical i read none) buffer sector count w = (false, w)
  write_block_device (physical i read (some write)) buffer sector count w =
      write buffer sector count w
  write_block_device (partition i e parent) buffer sector count w =
      let rest = write_block_device parent buffer (add64 sector e.lba_start) count w in
      if ltb i.sector_count (add64 sector count) then (false, w) else rest

  unfoldable pub register_block_device : BlockDevice W → Storage W → Bool × Storage W
  register_block_device d s =
      if leb max_block_devices (length s.block_devices)
      then (false, s)
      else (true, record s { block_devices = s.block_devices ++ (d ∷ []) })

  unfoldable pub register_partition : BlockDevice W → Storage W → Bool × Storage W
  register_partition d s =
      if leb max_partitions (length s.partitions)
      then (false, s)
      else (true, record s { partitions = s.partitions ++ (d ∷ []) })

  -- ApplyGenericPartitionData on a device with the given partition, model and length.
  abbrev pub partition_device : BlockDevice W → Extent → List ℕ → ℕ → BlockDevice W
  partition_device parent e model sectors =
      partition
        (record {
          flags = bit_and (info parent).flags 0xfe;
          model = model;
          sector_count = sectors;
          sector_size = (info parent).sector_size;
        })
        e parent

-- `PartitionController`, once it is in the table.
pub record Controller (W : Type 0) : Type 0 where
  pub probe : BlockDevice W → Storage W → Bool × Storage W
  pub register_blocks : BlockDevice W → Storage W → ℕ × Storage W

module _ {W : Type 0} where
  -- The arguments are the two fields of the controller; a null pointer is `none`.
  unfoldable pub register_partition_controller :
      Option (BlockDevice W → Storage W → Bool × Storage W)
      → Option (BlockDevice W → Storage W → ℕ × Storage W)
      → List (Controller W)
      → Bool × List (Controller W)
  register_partition_controller probe register cs =
      if leb max_partition_controllers (length cs) then (false, cs) else elim probe [
        | none ↦ (false, cs)
        | some p ↦ elim register [
          | none ↦ (false, cs)
          | some r ↦ (true, cs ++ (record { probe = p; register_blocks = r } ∷ []))
        ]
      ]

  -- The first controller that claims the device registers its partitions; -1 as a `u32` if none does.
  unfoldable pub register_partition_blocks :
      List (Controller W) → BlockDevice W → Storage W → ℕ × Storage W
  register_partition_blocks [] d s = (4294967295, s)
  register_partition_blocks (c ∷ cs) d s =
      let later = register_partition_blocks cs d (c.probe d s).1 in
      if (c.probe d s).0 then c.register_blocks d (c.probe d s).1 else later
