-- ===== src/Storage/Ledger.antt =====
-- What the partition tables' readers allocate and give back.
use staxus.Base.{
  ℕ, zero, suc, ◌+◌, ◌-◌, ◌*◌, ◌≤◌, ◌≡◌, refl, inl, inr, ap, ◌∙◌, Bool, true, false, Option, none,
  some, [], ◌∷◌, arith, leb, ◌==◌, if◌then◌else◌, Bool-cases, length, length-append,
}
use staxus.Memory.Bytes.{load8}
use staxus.Storage.{
  BlockDevice, Storage, Memory, info, read_block_device, register_block_device, register_partition,
  block_device_size, partition_size, max_block_devices, max_partitions,
}
use staxus.Storage.Mbr.{
  take_model, take_part, take_dev, alloc_partition, register_both, enlisted, enlist, mbr_entry,
  give_back, mbr_table, mbr_step, mbr_from, register_mbr_partition_blocks,
}

-- `live` counts the allocations that have not been given back.
pub record Ledger {W : Type 0} (a : Memory W) (live : W → ℕ) : Type 0 where
  pub malloc_some : (n p : ℕ) (w w' : W) → a.malloc n w ≡ (some p, w') → live w' ≡ live w + 1
  pub malloc_none : (n : ℕ) (w w' : W) → a.malloc n w ≡ (none, w') → live w' ≡ live w
  pub aalloc_some : (n k p : ℕ) (w w' : W) → a.aalloc n k w ≡ (some p, w') → live w' ≡ live w + 1
  pub aalloc_none : (n k : ℕ) (w w' : W) → a.aalloc n k w ≡ (none, w') → live w' ≡ live w
  pub free : (p : ℕ) (w : W) → live (a.free p w) ≡ live w - 1

-- The promise of the table's reader: at most four devices, in the tables as often as counted, and three
-- blocks kept for each of them and no other.
pub record Listed {W : Type 0} (live : W → ℕ) (s : Storage W) (r : ℕ × Storage W) : Type 0 where
  pub most : r.0 ≤ 4
  pub kept : live r.1.world ≡ live s.world + 3 * r.0
  pub in_partitions : length r.1.partitions ≡ length s.partitions + r.0
  pub in_devices : length s.block_devices + r.0 ≤ length r.1.block_devices

module _ {W : Type 0} (a : Memory W) (live : W → ℕ) (l : Ledger a live) where
  -- All three blocks, or none.
  abbrev pub Triple : W → Option (ℕ × ℕ × ℕ) × W → Type 0
  Triple w (none, w') = live w' ≡ live w
  Triple w (some p, w') = live w' ≡ live w + 3

  take_model-Triple :
      (n dev part : ℕ) (w0 w2 : W) (r : Option ℕ × W)
      → live w2 ≡ live w0 + 2
      → a.malloc n w2 ≡ r
      → Triple w0 (take_model a dev part r)
  take_model-Triple n dev part w0 w2 (none, w3) h e =
      omega (arith, h, l.malloc_none n w2 w3 e, l.free dev (a.free part w3), l.free part w3)
  take_model-Triple n dev part w0 w2 (some model, w3) h e =
      omega (arith, h, l.malloc_some n model w2 w3 e)

  take_part-Triple :
      (n dev : ℕ) (w0 w1 : W) (r : Option ℕ × W)
      → live w1 ≡ live w0 + 1
      → a.malloc partition_size w1 ≡ r
      → Triple w0 (take_part a n dev r)
  take_part-Triple n dev w0 w1 (none, w2) h e =
      omega (arith, h, l.malloc_none partition_size w1 w2 e, l.free dev w2)
  take_part-Triple n dev w0 w1 (some part, w2) h e =
      take_model-Triple n dev part w0 w2 (a.malloc n w2)
        (omega (arith, h, l.malloc_some partition_size part w1 w2 e)) refl

  take_dev-Triple :
      (n : ℕ) (w0 : W) (r : Option ℕ × W)
      → a.malloc block_device_size w0 ≡ r
      → Triple w0 (take_dev a n r)
  take_dev-Triple n w0 (none, w1) e = l.malloc_none block_device_size w0 w1 e
  take_dev-Triple n w0 (some dev, w1) e =
      take_part-Triple n dev w0 w1 (a.malloc partition_size w1)
        (l.malloc_some block_device_size dev w0 w1 e) refl

  pub alloc_partition-Triple : (n : ℕ) (w : W) → Triple w (alloc_partition a n w)
  unfolding alloc_partition
  alloc_partition-Triple n w = take_dev-Triple n w (a.malloc block_device_size w) refl

  -- Both tables have one entry more, or a table was full; `world` is as before.
  abbrev pub Registered : Storage W → Bool × Storage W → Type 0
  Registered s (ok, s') =
      (s'.world ≡ s.world)
      × (length s'.partitions ≡ length s.partitions + (if ok then 1 else 0))
      × (length s.block_devices + (if ok then 1 else 0) ≤ length s'.block_devices)

  pub register_both-Registered :
      (d : BlockDevice W) (s : Storage W) → Registered s (register_both d s)
  unfolding register_both register_block_device register_partition
  register_both-Registered d s =
      elim (Bool-cases (leb max_block_devices (length s.block_devices))) [
        | inl full ↦ rw full (refl, omega arith, omega arith)
        | inr room ↦ elim (Bool-cases (leb max_partitions (length s.partitions))) [
          | inl full ↦
              rw (room, full)
                (refl, omega arith, omega (arith, length-append s.block_devices (d ∷ [])))
          | inr both ↦
              rw (room, both)
                (
                  refl,
                  omega (arith, length-append s.partitions (d ∷ [])),
                  omega (arith, length-append s.block_devices (d ∷ [])),
                )
        ]
      ]

  -- The device is in both tables and counted, and three blocks stay allocated; or nothing is counted,
  -- and the three blocks are given back.
  abbrev Enlisted : ℕ → ℕ → Storage W → ℕ × Storage W → Type 0
  Enlisted base count s (count', s') =
      (live s'.world + 3 * count ≡ base + 3 * count')
      × (count ≤ count')
      × (count' ≤ count + 1)
      × (length s'.partitions + count ≡ length s.partitions + count')
      × (length s.block_devices + count' ≤ length s'.block_devices + count)

  enlisted-Enlisted :
      (p : ℕ × ℕ × ℕ) (base count : ℕ) (s : Storage W) (r : Bool × Storage W)
      → live s.world ≡ base + 3
      → Registered s r
      → Enlisted base count s (enlisted a p count r)
  enlisted-Enlisted (dev, part, model) base count s (true, s') h (same, parts, blocks) =
      let kept : live s'.world ≡ base + 3 = ap live same ∙ h in
      (omega arith, omega arith, omega arith, omega arith, omega arith)
  enlisted-Enlisted (dev, part, model) base count s (false, s') h (same, parts, blocks) =
      let kept : live s'.world ≡ base + 3 = ap live same ∙ h in
      let freed : live (a.free dev (a.free part (a.free model s'.world))) ≡ base = omega (
        arith,
        l.free model s'.world,
        l.free part (a.free model s'.world),
        l.free dev (a.free part (a.free model s'.world)),
      ) in
      (omega arith, omega arith, omega arith, omega arith, omega arith)

  pub enlist-Enlisted :
      (p : ℕ × ℕ × ℕ) (d : BlockDevice W) (base count : ℕ) (s : Storage W)
      → live s.world ≡ base + 3
      → Enlisted base count s (enlist a p d (count, s))
  unfolding enlist
  enlist-Enlisted p d base count s h =
      enlisted-Enlisted p base count s (register_both d s) h (register_both-Registered d s)

  module _ (d : BlockDevice W)
      (pure_read : (buffer sector count : ℕ) (w : W)
        → live (read_block_device d buffer sector count w).1 ≡ live w) where
    mbr_entry-Enlisted :
        (entry i count : ℕ) (s : Storage W) (r : Option (ℕ × ℕ × ℕ) × W)
        → Triple s.world r
        → Enlisted (live s.world) count s (mbr_entry a d entry i count s r)
    mbr_entry-Enlisted entry i count s (none, w) h =
        (omega arith, omega arith, omega arith, omega arith, omega arith)
    mbr_entry-Enlisted entry i count s (some p, w) h =
        enlist-Enlisted p _ (live s.world) count (record s { world = w }) h

    mbr_step-Enlisted :
        (buf i count : ℕ) (s : Storage W)
        → Enlisted (live s.world) count s (mbr_step a d buf i (count, s))
    unfolding mbr_step
    mbr_step-Enlisted buf i count s =
        elim (Bool-cases (load8 (a.bytes s.world) (buf + 0x1BE + i * 16 + 4) == 0)) [
          | inl unused ↦ rw unused (omega arith, omega arith, omega arith, omega arith, omega arith)
          | inr used ↦ rw used (
              mbr_entry-Enlisted (buf + 0x1BE + i * 16) i count s _
                (alloc_partition-Triple (2 * (length (info d).model + 18 + 1)) s.world))
        ]

    -- After `n` rounds: three blocks for each device counted, and a partition and a device in the
    -- tables for each.
    abbrev Counted : ℕ → ℕ → Storage W → ℕ × Storage W → Type 0
    Counted n count s (count', s') =
        (live s'.world + 3 * count ≡ live s.world + 3 * count')
        × (count ≤ count')
        × (count' ≤ count + n)
        × (length s'.partitions + count ≡ length s.partitions + count')
        × (length s.block_devices + count' ≤ length s'.block_devices + count)

    mbr_from-Counted :
        (n buf i count : ℕ) (s : Storage W) → Counted n count s (mbr_from n a d buf i (count, s))
    unfolding mbr_from
    mbr_from-Counted zero buf i count s =
        (omega arith, omega arith, omega arith, omega arith, omega arith)
    mbr_from-Counted (suc n) buf i count s =
        let (count1, s1) = mbr_step a d buf i (count, s) in
        let (e1, e2, e3, e4, e5) = mbr_step-Enlisted buf i count s in
        let (h1, h2, h3, h4, h5) = mbr_from-Counted n buf (i + 1) count1 s1 in
        (
          omega (arith, e1, h1),
          omega (arith, e2, h2),
          omega (arith, e3, h3),
          omega (arith, e4, h4),
          omega (arith, e5, h5),
        )

    give_back-Listed :
        (buf : ℕ) (s s0 : Storage W) (r : ℕ × Storage W)
        → live s0.world ≡ live s.world + 1
        → s0.partitions ≡ s.partitions
        → s0.block_devices ≡ s.block_devices
        → Counted 4 0 s0 r
        → Listed live s (give_back a buf r)
    give_back-Listed buf s s0 (count, s') h p b (h1, h2, h3, h4, h5) = record {
      most = omega arith;
      kept = omega (arith, l.free buf s'.world);
      in_partitions = omega (arith, ap length p);
      in_devices = omega (arith, ap length b);
    }

    mbr_table-Listed :
        (s : Storage W) (r : Option ℕ × W)
        → a.aalloc (info d).sector_size 128 s.world ≡ r
        → Listed live s (mbr_table a d s r)
    mbr_table-Listed s (none, w) e =
        let kept = l.aalloc_none (info d).sector_size 128 s.world w e in
        record {
          most = omega arith;
          kept = omega (arith, kept);
          in_partitions = omega arith;
          in_devices = omega arith;
        }
    mbr_table-Listed s (some buf, w) e =
        let w2 = (read_block_device d buf 0 1 w).1 in
        let got = l.aalloc_some (info d).sector_size 128 buf s.world w e in
        let s0 = record s { world = w2 } in
        give_back-Listed buf s s0 _ (omega (arith, got, pure_read buf 0 1 w)) refl refl
          (mbr_from-Counted 4 buf 0 0 s0)

    -- Where the allocator keeps a ledger and reads of the device allocate nothing, whichever
    -- allocations fail: registerMBRPartitionBlocks counts at most four devices, both tables have an
    -- entry for each, and just three blocks for each stay allocated.
    pub register_mbr-Listed : (s : Storage W) → Listed live s (register_mbr_partition_blocks a d s)
    unfolding register_mbr_partition_blocks
    register_mbr-Listed s = mbr_table-Listed s (a.aalloc (info d).sector_size 128 s.world) refl
