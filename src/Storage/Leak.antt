-- ===== src/Storage/Leak.antt =====
-- registerGPTPartitionBlocks does not give back the buffer of the header, nor the sector of an entry
-- that it registers.
use staxus.Base.{
  ℕ, zero, suc, ◌+◌, ◌*◌, ◌/◌, ◌%◌, ◌≤◌, ◌≡◌, refl, inl, inr, ap, ◌∙◌, Bool, true, false, Option,
  none, some, arith, Bool-cases, length,
}
use staxus.Memory.Identity.{add64}
use staxus.Storage.{BlockDevice, Storage, Memory, info, read_block_device}
use staxus.Storage.Gpt.{
  GptPartitionHeader, read_header, empty_entry, decimal, gpt_device, gpt_enlisted, gpt_entry,
  gpt_sector, gpt_step, gpt_from, gpt_table, register_gpt_partition_blocks,
}
use staxus.Storage.Ledger.{
  Ledger, Triple, alloc_partition-Triple, Registered, register_both-Registered,
}

module _ {W : Type 0} (a : Memory W) (live : W → ℕ) (l : Ledger a live) where
  -- Four blocks more for each device counted.
  abbrev Grown : ℕ → ℕ → ℕ × Storage W → Type 0
  Grown base count (count', s') = (base + 4 * count' ≤ live s'.world + 4 * count) × (count ≤ count')

  gpt_enlisted-Grown :
      (p : ℕ × ℕ × ℕ) (sector base count : ℕ) (s : Storage W) (r : Bool × Storage W)
      → live s.world ≡ base + 4
      → Registered a live l s r
      → Grown base count (gpt_enlisted a sector p count r)
  gpt_enlisted-Grown (dev, part, model) sector base count s (true, s') h (same, parts, blocks) =
      let kept : live s'.world ≡ base + 4 = ap live same ∙ h in (omega arith, omega arith)
  gpt_enlisted-Grown (dev, part, model) sector base count s (false, s') h (same, parts, blocks) =
      let kept : live s'.world ≡ base + 4 = ap live same ∙ h in
      let w1 = a.free model s'.world in
      let w2 = a.free part w1 in
      let w3 = a.free dev w2 in
      (
        omega (arith, l.free model s'.world, l.free part w1, l.free dev w2, l.free sector w3),
        omega arith,
      )

  module _ (d : BlockDevice W)
      (pure_read : (buffer sector count : ℕ) (w : W)
        → live (read_block_device d buffer sector count w).1 ≡ live w) where
    gpt_entry-Grown :
        (sector entry i base count : ℕ) (s : Storage W) (w : W) (r : Option (ℕ × ℕ × ℕ) × W)
        → live w ≡ base + 1
        → Triple a live l w r
        → Grown base count (gpt_entry a d sector entry i count s r)
    gpt_entry-Grown sector entry i base count s w0 (none, w) h t =
        (omega (arith, h, l.free sector w), omega arith)
    gpt_entry-Grown sector entry i base count s w0 (some p, w) h t =
        let s1 = record s { world = w } in
        gpt_enlisted-Grown p sector base count s1 _ (omega (arith, h, t))
          (register_both-Registered a live l (gpt_device d (a.bytes w) entry i) s1)

    gpt_sector-Grown :
        (lba off i count : ℕ) (s : Storage W) (r : Option ℕ × W)
        → a.aalloc (info d).sector_size 128 s.world ≡ r
        → Grown (live s.world) count (gpt_sector a d lba off i count s r)
    gpt_sector-Grown lba off i count s (none, w) e =
        (omega (arith, l.aalloc_none (info d).sector_size 128 s.world w e), omega arith)
    gpt_sector-Grown lba off i count s (some sector, w) e =
        let w2 = (read_block_device d sector lba 1 w).1 in
        let got = l.aalloc_some (info d).sector_size 128 sector s.world w e in
        let now : live w2 ≡ live s.world + 1 = omega (arith, got, pure_read sector lba 1 w) in
        elim (Bool-cases (empty_entry 16 (a.bytes w2) (sector + off))) [
          | inl empty ↦ rw empty (omega (arith, now), omega arith)
          | inr used ↦ rw used (
              gpt_entry-Grown sector (sector + off) i (live s.world) count s w2 _ now (
                alloc_partition-Triple a live l
                  (2 * (length (info d).model + 17 + length (decimal i) + 1)) w2))
        ]

    gpt_from-Grown :
        (n : ℕ) (h : GptPartitionHeader) (i count : ℕ) (s : Storage W)
        → Grown (live s.world) count (gpt_from n a d h i (count, s))
    unfolding gpt_from
    gpt_from-Grown zero h i count s = (omega arith, omega arith)
    gpt_from-Grown (suc n) h i count s =
        let per_sector = (info d).sector_size / h.size_of_part_entry in
        let (count1, s1) = gpt_step a d h i (count, s) in
        let (e1, e2) : Grown (live s.world) count (gpt_step a d h i (count, s)) =
          unfold gpt_step in
          gpt_sector-Grown (add64 h.part_entry_lba (i / per_sector))
            (((i % per_sector) * h.size_of_part_entry) % 4294967296) i count s _ refl in
        let (h1, h2) = gpt_from-Grown n h (i + 1) count1 s1 in
        (omega (arith, e1, h1), omega (arith, e2, h2))

    gpt_table-leak :
        (s : Storage W) (r : Option ℕ × W) (buf : ℕ)
        → a.aalloc (info d).sector_size 128 s.world ≡ r
        → r.0 ≡ some buf
        → live s.world + 1 + 4 * (gpt_table a d s r).0 ≤ live (gpt_table a d s r).1.world
    gpt_table-leak s (none, w) buf e got = absurd (ground arith)
    gpt_table-leak s (some buf', w) buf e got =
        let w2 = (read_block_device d buf' 1 1 w).1 in
        let one = l.aalloc_some (info d).sector_size 128 buf' s.world w e in
        let h = read_header (a.bytes w2) buf' in
        omega (
          arith,
          one,
          pure_read buf' 1 1 w,
          gpt_from-Grown h.num_part_entries h 0 0 (record s { world = w2 }),
        )

    -- Where the allocator keeps a ledger, reads of the device allocate nothing, and the buffer for the
    -- header is granted: after registerGPTPartitionBlocks at least four blocks for each device counted,
    -- and one more, stay allocated. (A device needs three of them.)
    pub register_gpt-leak :
        (s : Storage W) (buf : ℕ)
        → (a.aalloc (info d).sector_size 128 s.world).0 ≡ some buf
        → live s.world + 1 + 4 * (register_gpt_partition_blocks a d s).0
          ≤ live (register_gpt_partition_blocks a d s).1.world
    unfolding register_gpt_partition_blocks
    register_gpt-leak s buf got =
        gpt_table-leak s (a.aalloc (info d).sector_size 128 s.world) buf refl got
