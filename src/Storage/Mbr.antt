-- ===== src/Storage/Mbr.antt =====
-- storage/partition/mbr.c: the four entries of a master boot record become block devices.
use staxus.Base.{
  ℕ, zero, suc, ◌+◌, ◌*◌, Bool, true, false, ◌&&◌, Option, none, some, List, [], ◌∷◌, ◌++◌, ◌==◌,
  if◌then◌else◌, length,
}
use staxus.Memory.Bytes.{Bytes, load8, load32}
use staxus.Memory.Identity.{add64, sub64}
use staxus.Storage.{
  Extent, BlockDevice, Storage, Memory, block_device_size, partition_size, info, read_block_device,
  register_block_device, register_partition, partition_device,
}

-- L" - partition.mbr."
abbrev pub mbr_suffix : List ℕ
mbr_suffix =
    b' ' ∷ b'-' ∷ b' ' ∷ b'p' ∷ b'a' ∷ b'r' ∷ b't' ∷ b'i' ∷ b't' ∷ b'i' ∷ b'o' ∷ b'n' ∷ b'.' ∷ b'm'
    ∷ b'b' ∷ b'r' ∷ b'.' ∷ []

-- The extent that an entry names.
unfoldable pub mbr_extent : Bytes → ℕ → Extent
mbr_extent m entry = record {
  lba_start = load32 m (entry + 8);
  lba_end = sub64 (add64 (load32 m (entry + 8)) (load32 m (entry + 12))) 1;
  kind = load8 m (entry + 4);
}

module _ {W : Type 0} where
  -- Three allocations, each of which undoes those before it when it fails: the device, the partition
  -- and the name. A helper takes the result of the call that it follows.
  abbrev pub take_model : Memory W → ℕ → ℕ → Option ℕ × W → Option (ℕ × ℕ × ℕ) × W
  take_model a dev part (none, w) = (none, a.free dev (a.free part w))
  take_model a dev part (some model, w) = (some (dev, part, model), w)

  abbrev pub take_part : Memory W → ℕ → ℕ → Option ℕ × W → Option (ℕ × ℕ × ℕ) × W
  take_part a name_size dev (none, w) = (none, a.free dev w)
  take_part a name_size dev (some part, w) = take_model a dev part (a.malloc name_size w)

  abbrev pub take_dev : Memory W → ℕ → Option ℕ × W → Option (ℕ × ℕ × ℕ) × W
  take_dev a name_size (none, w) = (none, w)
  take_dev a name_size (some dev, w) = take_part a name_size dev (a.malloc partition_size w)

  unfoldable pub alloc_partition : Memory W → ℕ → W → Option (ℕ × ℕ × ℕ) × W
  alloc_partition a name_size w = take_dev a name_size (a.malloc block_device_size w)

  -- `!RegisterBlockDevice(dev) || !RegisterPartition(part)`, negated
  unfoldable pub register_both : BlockDevice W → Storage W → Bool × Storage W
  register_both d s =
      let (ok, s1) = register_block_device d s in
      if ok then register_partition d s1 else (false, s1)

  -- When a table is full, the three allocations are given back and the count stays.
  abbrev pub enlisted : Memory W → ℕ × ℕ × ℕ → ℕ → Bool × Storage W → ℕ × Storage W
  enlisted a (dev, part, model) count (true, s) = (count + 1, s)
  enlisted a (dev, part, model) count (false, s) =
      (count, record s { world = a.free dev (a.free part (a.free model s.world)) })

  unfoldable pub enlist : Memory W → ℕ × ℕ × ℕ → BlockDevice W → ℕ × Storage W → ℕ × Storage W
  unfolding register_both
  enlist a ptrs d (count, s) = enlisted a ptrs count (register_both d s)

  unfoldable pub probe_mbr_partition : Memory W → BlockDevice W → Storage W → Bool × Storage W
  probe_mbr_partition a d s =
      let (o, w1) = a.aalloc (info d).sector_size 128 s.world in
      elim o [
        | none ↦ (false, record s { world = w1 })
        | some buf ↦
            let (ok, w2) = read_block_device d buf 0 1 w1 in
            let m = a.bytes w2 in
            (
              ok && (load8 m (buf + 510) == 0x55 && load8 m (buf + 511) == 0xAA),
              record s { world = a.free buf w2 },
            )
      ]

  -- The device of entry `i`, which lies at `entry`.
  abbrev pub mbr_device : BlockDevice W → Bytes → ℕ → ℕ → BlockDevice W
  mbr_device d m entry i =
      partition_device d (mbr_extent m entry) ((info d).model ++ (mbr_suffix ++ ((b'0' + i) ∷ [])))
        (load32 m (entry + 12))

  -- An entry in use, once its blocks have been asked for.
  abbrev pub mbr_entry :
      Memory W → BlockDevice W → ℕ → ℕ → ℕ → Storage W → Option (ℕ × ℕ × ℕ) × W → ℕ × Storage W
  mbr_entry a d entry i count s (none, w) = (count, record s { world = w })
  mbr_entry a d entry i count s (some ptrs, w) =
      enlist a ptrs (mbr_device d (a.bytes w) entry i) (count, record s { world = w })

  -- The body of the loop over the entries.
  unfoldable pub mbr_step : Memory W → BlockDevice W → ℕ → ℕ → ℕ × Storage W → ℕ × Storage W
  unfolding alloc_partition enlist
  mbr_step a d buf i (count, s) =
      let entry = buf + 0x1BE + i * 16 in
      if load8 (a.bytes s.world) (entry + 4) == 0
      then (count, s)
      else mbr_entry a d entry i count s
          (alloc_partition a (2 * (length (info d).model + 18 + 1)) s.world)

  unfoldable pub mbr_from : ℕ → Memory W → BlockDevice W → ℕ → ℕ → ℕ × Storage W → ℕ × Storage W
  unfolding mbr_step
  mbr_from zero a d buf i r = r
  mbr_from (suc n) a d buf i r = mbr_from n a d buf (i + 1) (mbr_step a d buf i r)

  abbrev pub give_back : Memory W → ℕ → ℕ × Storage W → ℕ × Storage W
  give_back a buf (count, s) = (count, record s { world = a.free buf s.world })

  abbrev pub mbr_table : Memory W → BlockDevice W → Storage W → Option ℕ × W → ℕ × Storage W
  mbr_table a d s (none, w) = (0, record s { world = w })
  mbr_table a d s (some buf, w) =
      give_back a buf
        (mbr_from 4 a d buf 0 (0, record s { world = (read_block_device d buf 0 1 w).1 }))

  unfoldable pub register_mbr_partition_blocks :
      Memory W → BlockDevice W → Storage W → ℕ × Storage W
  unfolding mbr_from
  register_mbr_partition_blocks a d s = mbr_table a d s (a.aalloc (info d).sector_size 128 s.world)
