-- ===== src/Storage/Tests.antt =====
-- The theorems on storage at a disk of 1000 sectors with a partition of 100.
use staxus.Base.{ℕ, ◌+◌, ◌-◌, ◌*◌, ◌≤◌, ◌≡◌, refl, true, none, some, [], arith, ◌==◌, if◌then◌else◌}
use staxus.Storage.{
  Info, Extent, BlockDevice, physical, partition, Storage, Memory, read_block_device,
  write_block_device,
}
use staxus.Storage.Access.{root_read, root_write, Landed, transfer-Landed}
use staxus.Storage.Mbr.{register_mbr_partition_blocks}
use staxus.Storage.Gpt.{register_gpt_partition_blocks}
use staxus.Storage.Ledger.{Ledger, Listed, register_mbr-Listed}
use staxus.Storage.Leak.{register_gpt-leak}

abbrev disk_info : Info
disk_info = record { flags = 1; model = []; sector_count = 1000; sector_size = 512 }

abbrev part_info : Info
part_info = record { flags = 0; model = []; sector_count = 100; sector_size = 512 }

abbrev extent : Extent
extent = record { lba_start = 50; lba_end = 149; kind = 12 }

-- The world is the number of live allocations. The disk cannot be written.
abbrev disk : BlockDevice ℕ
disk = physical disk_info (some (λ buffer sector count w. (true, w))) none

-- An allocator that never fails.
abbrev counting : Memory ℕ
counting = record {
  aalloc = λ n align w. (some 4096, w + 1);
  malloc = λ n w. (some 8192, w + 1);
  free = λ p w. w - 1;
  bytes = λ w a. if a == 4546 then 12 else if a == 510 then 0x55 else 0;
}

abbrev live : ℕ → ℕ
live w = w

counting-Ledger : Ledger counting live
counting-Ledger = record {
  malloc_some = λ n p w w' e. ground (arith, e);
  malloc_none = λ n w w' e. absurd (ground (arith, e));
  aalloc_some = λ n k p w w' e. ground (arith, e);
  aalloc_none = λ n k w w' e. absurd (ground (arith, e));
  free = λ p w. omega arith;
}

abbrev empty : Storage ℕ
empty = record { block_devices = []; partitions = []; world = 0 }

pure_read :
    (buffer sector count w : ℕ) → live (read_block_device disk buffer sector count w).1 ≡ live w
unfolding read_block_device
pure_read buffer sector count w = refl

transfer-Landed_example :
    Landed
      (partition part_info extent disk)
      (root_read disk)
      0
      90
      10
      0
      (read_block_device (partition part_info extent disk) 0 90 10 0)
    × Landed
        (partition part_info extent disk)
        (root_write disk)
        0
        90
        10
        0
        (write_block_device (partition part_info extent disk) 0 90 10 0)
transfer-Landed_example =
    transfer-Landed part_info extent disk 0 90 10 0 (omega arith, omega arith) (omega arith)

register_mbr-Listed_example : Listed live empty (register_mbr_partition_blocks counting disk empty)
register_mbr-Listed_example = register_mbr-Listed counting live counting-Ledger disk pure_read empty

register_gpt-leak_example :
    0 + 1 + 4 * (register_gpt_partition_blocks counting disk empty).0
    ≤ (register_gpt_partition_blocks counting disk empty).1.world
register_gpt-leak_example =
    register_gpt-leak counting live counting-Ledger disk pure_read empty 4096 refl
