-- ===== src/Storage/Gpt.antt =====
-- storage/partition/gpt.c: the entries of a GUID partition table become block devices. The header is
-- read once; nothing writes the buffer it lies in while the loop runs.
use staxus.Base.{
  ℕ, zero, suc, ◌+◌, ◌*◌, ◌/◌, ◌%◌, Bool, true, false, ◌&&◌, Option, none, some, List, [], ◌∷◌,
  ◌++◌, ◌==◌, if◌then◌else◌, length,
}
use staxus.Memory.Bytes.{Bytes, load8, load32, load64}
use staxus.Memory.Identity.{add64, sub64}
use staxus.Storage.{Extent, BlockDevice, Storage, Memory, info, read_block_device, partition_device}
use staxus.Storage.Mbr.{alloc_partition, register_both}

-- L" - partition.gpt."
abbrev pub gpt_suffix : List ℕ
gpt_suffix =
    b' ' ∷ b'-' ∷ b' ' ∷ b'p' ∷ b'a' ∷ b'r' ∷ b't' ∷ b'i' ∷ b't' ∷ b'i' ∷ b'o' ∷ b'n' ∷ b'.' ∷ b'g'
    ∷ b'p' ∷ b't' ∷ b'.' ∷ []

-- "EFI PART", as memcmp compares it.
abbrev pub gpt_signature : ℕ
gpt_signature = 6075990659671082565

-- `%d` of an index below 2 ^ 31: ten digits at most.
abbrev pub decimal_from : ℕ → ℕ → List ℕ → List ℕ
decimal_from zero n rest = rest
decimal_from (suc f) n rest =
    let more = decimal_from f (n / 10) ((b'0' + n % 10) ∷ rest) in
    if n / 10 == 0 then (b'0' + n % 10) ∷ rest else more

abbrev pub decimal : ℕ → List ℕ
decimal n = decimal_from 10 n []

-- `GPTPartitionHeader`, the fields that the code reads.
pub record GptPartitionHeader : Type 0 where
  pub part_entry_lba : ℕ
  pub num_part_entries : ℕ
  pub size_of_part_entry : ℕ

unfoldable pub read_header : Bytes → ℕ → GptPartitionHeader
read_header m p = record {
  part_entry_lba = load64 m (p + 72);
  num_part_entries = load32 m (p + 80);
  size_of_part_entry = load32 m (p + 84);
}

-- Whether the type GUID, 16 bytes, is zero.
unfoldable pub empty_entry : ℕ → Bytes → ℕ → Bool
empty_entry zero m p = true
empty_entry (suc n) m p = load8 m p == 0 && empty_entry n m (p + 1)

unfoldable pub gpt_extent : Bytes → ℕ → Extent
gpt_extent m entry = record {
  lba_start = load64 m (entry + 32);
  lba_end = load64 m (entry + 40);
  kind = 0;
}

module _ {W : Type 0} where
  unfoldable pub probe_gpt_partition : Memory W → BlockDevice W → Storage W → Bool × Storage W
  probe_gpt_partition a d s =
      let (o, w1) = a.aalloc (info d).sector_size 128 s.world in
      elim o [
        | none ↦ (false, record s { world = w1 })
        | some buf ↦
            let (ok, w2) = read_block_device d buf 1 1 w1 in
            (ok && load64 (a.bytes w2) buf == gpt_signature, record s { world = a.free buf w2 })
      ]

  -- What enlist does for this table, where a device that cannot be registered gives back the sector
  -- as well.
  abbrev pub gpt_enlisted : Memory W → ℕ → ℕ × ℕ × ℕ → ℕ → Bool × Storage W → ℕ × Storage W
  gpt_enlisted a sector ptrs count (true, s) = (count + 1, s)
  gpt_enlisted a sector (dev, part, model) count (false, s) =
      (count, record s { world = a.free sector (a.free dev (a.free part (a.free model s.world))) })

  -- The device of entry `i`, which lies at `entry`.
  abbrev pub gpt_device : BlockDevice W → Bytes → ℕ → ℕ → BlockDevice W
  gpt_device d m entry i =
      let e = gpt_extent m entry in
      partition_device d e ((info d).model ++ (gpt_suffix ++ decimal i))
        (add64 (sub64 e.lba_end e.lba_start) 1)

  -- An entry in use, once its three blocks have been asked for.
  abbrev pub gpt_entry :
      Memory W → BlockDevice W → ℕ → ℕ → ℕ → ℕ → Storage W → Option (ℕ × ℕ × ℕ) × W → ℕ × Storage W
  gpt_entry a d sector entry i count s (none, w) = (count, record s { world = a.free sector w })
  gpt_entry a d sector entry i count s (some ptrs, w) =
      gpt_enlisted a sector ptrs count
        (register_both (gpt_device d (a.bytes w) entry i) (record s { world = w }))

  -- An entry once its sector has been asked for.
  abbrev pub gpt_sector :
      Memory W → BlockDevice W → ℕ → ℕ → ℕ → ℕ → Storage W → Option ℕ × W → ℕ × Storage W
  gpt_sector a d lba off i count s (none, w) = (count, record s { world = w })
  gpt_sector a d lba off i count s (some sector, w) =
      let w2 = (read_block_device d sector lba 1 w).1 in
      if empty_entry 16 (a.bytes w2) (sector + off)
      then (count, record s { world = w2 })
      else gpt_entry a d sector (sector + off) i count s
          (alloc_partition a (2 * (length (info d).model + 17 + length (decimal i) + 1)) w2)

  -- The body of the loop over the entries.
  unfoldable pub gpt_step :
      Memory W → BlockDevice W → GptPartitionHeader → ℕ → ℕ × Storage W → ℕ × Storage W
  unfolding alloc_partition empty_entry register_both
  gpt_step a d h i (count, s) =
      let per_sector = (info d).sector_size / h.size_of_part_entry in
      let lba = add64 h.part_entry_lba (i / per_sector) in
      let off = ((i % per_sector) * h.size_of_part_entry) % 4294967296 in
      gpt_sector a d lba off i count s (a.aalloc (info d).sector_size 128 s.world)

  unfoldable pub gpt_from :
      ℕ → Memory W → BlockDevice W → GptPartitionHeader → ℕ → ℕ × Storage W → ℕ × Storage W
  unfolding gpt_step
  gpt_from zero a d h i r = r
  gpt_from (suc n) a d h i r = gpt_from n a d h (i + 1) (gpt_step a d h i r)

  abbrev pub gpt_table : Memory W → BlockDevice W → Storage W → Option ℕ × W → ℕ × Storage W
  gpt_table a d s (none, w) = (0, record s { world = w })
  gpt_table a d s (some buf, w) =
      let w2 = (read_block_device d buf 1 1 w).1 in
      let h = read_header (a.bytes w2) buf in
      gpt_from h.num_part_entries a d h 0 (0, record s { world = w2 })

  unfoldable pub register_gpt_partition_blocks :
      Memory W → BlockDevice W → Storage W → ℕ × Storage W
  unfolding gpt_from
  register_gpt_partition_blocks a d s = gpt_table a d s (a.aalloc (info d).sector_size 128 s.world)
