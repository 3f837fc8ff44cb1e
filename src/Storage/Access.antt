-- ===== src/Storage/Access.antt =====
-- Reads and writes through partitions stay inside them, and the tables stay inside their arrays.
use staxus.Base.{
  ℕ, ◌+◌, ◌<◌, ◌≤◌, ◌≡◌, refl, ◌⊎◌, inl, inr, sym, ap, ◌∙◌, subst, Bool, true, false, Option, none,
  some, [], ◌∷◌, arith, ltb, Bool-cases, length, length-append,
}
use staxus.Memory.Identity.{u64_mod, add64}
use staxus.Storage.{
  Info, Extent, BlockDevice, physical, partition, Transfer, Storage, info, read_block_device,
  write_block_device, register_block_device, register_partition, max_block_devices, max_partitions,
}

module _ {W : Type 0} where
  -- Where a device's first sector lies on the physical device below it, and that device's size.
  abbrev pub offset : BlockDevice W → ℕ
  offset (physical i read write) = 0
  offset (partition i e parent) = e.lba_start + offset parent

  abbrev pub root_count : BlockDevice W → ℕ
  root_count (physical i read write) = i.sector_count
  root_count (partition i e parent) = root_count parent

  abbrev pub root_read : BlockDevice W → Option (Transfer W)
  root_read (physical i read write) = read
  root_read (partition i e parent) = root_read parent

  abbrev pub root_write : BlockDevice W → Option (Transfer W)
  root_write (physical i read write) = write
  root_write (partition i e parent) = root_write parent

  -- Each partition lies inside its parent, whose sectors are counted in 64 bits.
  abbrev pub Nested : BlockDevice W → Type 0
  Nested (physical i read write) = i.sector_count < u64_mod
  Nested (partition i e parent) =
      (e.lba_start + i.sector_count ≤ (info parent).sector_count) × Nested parent

  -- The outcome of a transfer: it is refused, or the physical driver serves it inside the device.
  abbrev pub Landed : BlockDevice W → Option (Transfer W) → ℕ → ℕ → ℕ → W → Bool × W → Type 0
  Landed d op buffer sector count w r =
      (r ≡ (false, w))
      ⊎ ((t : Transfer W) × (op ≡ some t)
          × (r ≡ t buffer (sector + offset d) count w)
          × (offset d ≤ sector + offset d)
          × (sector + offset d + count ≤ offset d + (info d).sector_count)
          × (offset d + (info d).sector_count ≤ root_count d))

  Nested-bound :
      (d : BlockDevice W)
      → Nested d
      → (offset d + (info d).sector_count ≤ root_count d) × ((info d).sector_count < u64_mod)
  Nested-bound (physical i read write) h = (omega arith, h)
  Nested-bound (partition i e parent) h =
      let (inside, small) = Nested-bound parent h.1 in (omega (arith, h.0), omega (arith, h.0))

  Landed-down :
      (i : Info) (e : Extent) (parent : BlockDevice W) (op : Option (Transfer W))
      (buffer sector count : ℕ) (w : W) (r : Bool × W)
      → Nested (partition i e parent)
      → sector + count ≤ i.sector_count
      → Landed parent op buffer (sector + e.lba_start) count w r
      → Landed (partition i e parent) op buffer sector count w r
  Landed-down i e parent op buffer sector count w r h inside (inl refused) = inl refused
  Landed-down i e parent op buffer sector count w r h inside (inr (t, q, served, lo, hi, top)) =
      let moved : sector + e.lba_start + offset parent ≡ sector + (e.lba_start + offset parent) =
        omega arith in
      inr (
        t,
        q,
        served ∙ ap (λ k. t buffer k count w) moved,
        omega arith,
        omega (arith, inside),
        (Nested-bound (partition i e parent) h).0,
      )

  read-Landed_inside :
      (d : BlockDevice W) (buffer sector count : ℕ) (w : W)
      → Nested d
      → sector + count ≤ (info d).sector_count
      → Landed d (root_read d) buffer sector count w (read_block_device d buffer sector count w)
  read-Landed_inside (physical i none write) buffer sector count w h inside =
      unfold read_block_device in inl refl
  read-Landed_inside (physical i (some t) write) buffer sector count w h inside =
      let here : sector ≡ sector + 0 = omega arith in
      unfold read_block_device in
      inr (
        t,
        refl,
        ap (λ k. t buffer k count w) here,
        omega arith,
        omega (arith, inside),
        omega arith,
      )
  read-Landed_inside (partition i e parent) buffer sector count w h inside =
      let (top, small) = Nested-bound parent h.1 in
      let whole : add64 sector e.lba_start ≡ sector + e.lba_start = omega (arith, inside, h.0) in
      let fits : ltb i.sector_count (add64 sector count) ≡ false = ground (arith, inside, h.0) in
      let step : read_block_device (partition i e parent) buffer sector count w
          ≡ read_block_device parent buffer (sector + e.lba_start) count w =
        unfold read_block_device in rw (fits, whole) refl in
      subst (Landed (partition i e parent) (root_read parent) buffer sector count w) (sym step) (
        Landed-down i e parent (root_read parent) buffer sector count w _ h inside (
          read-Landed_inside parent buffer (sector + e.lba_start) count w h.1
            (omega (arith, inside, h.0))))

  write-Landed_inside :
      (d : BlockDevice W) (buffer sector count : ℕ) (w : W)
      → Nested d
      → sector + count ≤ (info d).sector_count
      → Landed d (root_write d) buffer sector count w (write_block_device d buffer sector count w)
  write-Landed_inside (physical i read none) buffer sector count w h inside =
      unfold write_block_device in inl refl
  write-Landed_inside (physical i read (some t)) buffer sector count w h inside =
      let here : sector ≡ sector + 0 = omega arith in
      unfold write_block_device in
      inr (
        t,
        refl,
        ap (λ k. t buffer k count w) here,
        omega arith,
        omega (arith, inside),
        omega arith,
      )
  write-Landed_inside (partition i e parent) buffer sector count w h inside =
      let (top, small) = Nested-bound parent h.1 in
      let whole : add64 sector e.lba_start ≡ sector + e.lba_start = omega (arith, inside, h.0) in
      let fits : ltb i.sector_count (add64 sector count) ≡ false = ground (arith, inside, h.0) in
      let step : write_block_device (partition i e parent) buffer sector count w
          ≡ write_block_device parent buffer (sector + e.lba_start) count w =
        unfold write_block_device in rw (fits, whole) refl in
      subst (Landed (partition i e parent) (root_write parent) buffer sector count w) (sym step) (
        Landed-down i e parent (root_write parent) buffer sector count w _ h inside (
          write-Landed_inside parent buffer (sector + e.lba_start) count w h.1
            (omega (arith, inside, h.0))))

  module _ (i : Info) (e : Extent) (parent : BlockDevice W) (buffer sector count : ℕ) (w : W) where
    read_refused :
        ltb i.sector_count (add64 sector count) ≡ true
        → read_block_device (partition i e parent) buffer sector count w ≡ (false, w)
    unfolding read_block_device
    read_refused out = rw out refl

    write_refused :
        ltb i.sector_count (add64 sector count) ≡ true
        → write_block_device (partition i e parent) buffer sector count w ≡ (false, w)
    unfolding write_block_device
    write_refused out = rw out refl

    -- Let a partition, and each partition that it lies in, keep inside its parent, down to a physical
    -- device with fewer than 2 ^ 64 sectors (the extents come from the disk, and registration does not
    -- check this), and let the end of a request not reach 2 ^ 64. Then a read and a write through the
    -- partition are refused and change nothing, or the physical driver serves the same count of sectors,
    -- and these lie inside the partition's part of the physical device.
    pub transfer-Landed :
        Nested (partition i e parent)
        → sector + count < u64_mod
        → Landed
            (partition i e parent)
            (root_read parent)
            buffer
            sector
            count
            w
            (read_block_device (partition i e parent) buffer sector count w)
          × Landed
              (partition i e parent)
              (root_write parent)
              buffer
              sector
              count
              w
              (write_block_device (partition i e parent) buffer sector count w)
    transfer-Landed h small = elim (Bool-cases (ltb i.sector_count (add64 sector count))) [
      | inl out ↦ (inl (read_refused out), inl (write_refused out))
      | inr fits ↦
          let inside : sector + count ≤ i.sector_count = ground arith in
          (
            read-Landed_inside (partition i e parent) buffer sector count w h inside,
            write-Landed_inside (partition i e parent) buffer sector count w h inside,
          )
    ]

  -- RegisterBlockDevice and RegisterPartition keep their tables inside their arrays.
  register-fits :
      (d : BlockDevice W) (s : Storage W)
      → length s.block_devices ≤ max_block_devices
      → length s.partitions ≤ max_partitions
      → (length (register_block_device d s).1.block_devices ≤ max_block_devices)
        × (length (register_partition d s).1.partitions ≤ max_partitions)
  unfolding register_block_device register_partition
  register-fits d s h k = (
    ground (arith, length-append s.block_devices (d ∷ []), h),
    ground (arith, length-append s.partitions (d ∷ []), k),
  )
