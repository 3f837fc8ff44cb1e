-- ===== src/Fat32/Links.antt =====
-- setNextCluster and the entries of the table on the disk.
use staxus.Base.{
  ℕ, ◌+◌, ◌-◌, ◌*◌, ◌%◌, ◌<◌, ◌≤◌, ◌≡◌, refl, ◌≢◌, ◌⊎◌, inl, inr, sym, ap, ◌∙◌, subst, Bool, true,
  false, ◌&&◌, Option, none, some, ◌==◌, ltb, if◌then◌else◌, arith, Bool-cases, ==_iff, ne_of_==,
}
use staxus.Memory.Bytes.{Bytes, load8, load32, store32, load8-store32, load32-store32}
use staxus.Memory.Utils.Fill.{within}
use staxus.Storage.{read_block_device, write_block_device}
use staxus.Fat32.{Machine, FatMount, sector_size}
use staxus.Fat32.Chain.{
  link, link_of, fat_sector, entry_offset, link_write, link_in_sectors, link_in_buffer,
  set_next_cluster,
}
use staxus.Fat32.Disk.{
  Disk, Geometry, entry_on, at, table, place, table_whole, ltb-leb, within_true, within_bounds,
  load32-moved,
}

module _ {W : Type 0} (m : Machine W) (t : FatMount W) (disk : W → Bytes)
    (laws : Disk m t disk) where
  module _ (c quarter : ℕ) (g : Geometry t c quarter) where
    module _ (value buf : ℕ) (w : W) where
      abbrev sector_copy : Bytes
      sector_copy = m.memory.bytes w

      -- The world once the entry has been changed in the copy of its sector.
      abbrev changed : W
      changed =
          m.set_bytes
            (store32 sector_copy (buf + entry_offset t c)
              (link (load32 sector_copy (buf + entry_offset t c)) value))
            w

      abbrev first_write : Bool × W
      first_write = write_block_device t.device buf (fat_sector t c) 1 changed

      abbrev second_write : Bool × W
      second_write =
          write_block_device t.device buf ((fat_sector t c + t.sectors_per_fat) % 4294967296) 1
            first_write.1

      -- What the table holds after both writes.
      written_at :
          (x : ℕ)
          → first_write.0 ≡ true
          → second_write.0 ≡ true
          → x < (table m t disk laws c quarter g) + t.sectors_per_fat * sector_size t
          → load8 (disk second_write.1) x ≡ (
              if within (at m t disk laws c quarter g) (1 * sector_size t) x
              then load8
                  (store32 sector_copy
                    (buf + entry_offset t c)
                    (link (load32 sector_copy (buf + entry_offset t c)) value))
                  (buf + (x - (at m t disk laws c quarter g)))
              else load8 (disk w) x)
      written_at x ok1 ok2 in_table =
          let p = (place m t disk laws c quarter g) in
          let ss = sector_size t in
          let backup = (fat_sector t c + t.sectors_per_fat) % 4294967296 in
          let backup_at : backup * ss ≡ (at m t disk laws c quarter g) + t.sectors_per_fat * ss =
            ap (λ s. s * ss) p.backup_is ∙ p.backup_at in
          let second = laws.write_copies buf backup 1 x first_write.1 ok2 in
          let apart : within (backup * ss) (1 * ss) x ≡ false =
            ap (λ b. b && ltb x (backup * ss + 1 * ss))
              (ltb-leb x (backup * ss) (omega (arith, backup_at, in_table, p.above))) in
          let first = laws.write_copies buf (fat_sector t c) 1 x changed ok1 in
          let kept : load8 (disk second_write.1) x ≡ load8 (disk first_write.1) x =
            second
            ∙ ap
                (λ b.
                  if b
                  then load8 (m.memory.bytes first_write.1) (buf + (x - backup * ss))
                  else load8 (disk first_write.1) x)
                apart in
          kept
          ∙ first
          ∙ ap
              (λ s.
                if within s (1 * ss) x
                then load8 (m.memory.bytes changed) (buf + (x - s))
                else load8 (disk changed) x)
              (ap (λ s. s * ss) p.sector_is)
          ∙ ap
              (λ b.
                if within (at m t disk laws c quarter g) (1 * ss) x
                then load8 b (buf + (x - (at m t disk laws c quarter g)))
                else load8 (disk changed) x)
              (laws.set_bytes_holds _ w)
          ∙ ap
              (λ d.
                if within (at m t disk laws c quarter g) (1 * ss) x
                then load8
                    (store32 sector_copy (buf + entry_offset t c)
                      (link (load32 sector_copy (buf + entry_offset t c)) value))
                    (buf + (x - (at m t disk laws c quarter g)))
                else load8 d x)
              (laws.set_keeps _ w)

      -- The copy of the sector is that of the disk.
      abbrev Faithful : Type 0
      Faithful =
          (k : ℕ)
          → k < sector_size t
          → load8 sector_copy (buf + k) ≡ load8 (disk w) ((at m t disk laws c quarter g) + k)

      module _ (faithful : Faithful) (ok1 : first_write.0 ≡ true)
          (ok2 : second_write.0 ≡ true) where
        -- The entry itself.
        entry_written :
            link_of (load32 (disk second_write.1) ((table m t disk laws c quarter g) + c * 4))
            ≡ value % 268435456
        entry_written =
            let p = (place m t disk laws c quarter g) in
            let off = entry_offset t c in
            let b = store32 sector_copy (buf + off) (link (load32 sector_copy (buf + off)) value) in
            let moved : load32 (disk second_write.1) ((table m t disk laws c quarter g) + c * 4)
                ≡ load32 b (buf + off) =
              load32-moved (disk second_write.1) b ((table m t disk laws c quarter g) + c * 4)
                (buf + off)
                (λ k small.
                  let x = (table m t disk laws c quarter g) + c * 4 + k in
                  let inside : within (at m t disk laws c quarter g) (1 * sector_size t) x ≡ true =
                    within_true (at m t disk laws c quarter g) (1 * sector_size t) x
                      (omega (arith, p.entry_at)) (omega (arith, p.entry_at, p.fits)) in
                  written_at x ok1 ok2
                    (omega (arith, (table_whole m t disk laws c quarter g), g.inside))
                  ∙ ap
                      (λ i.
                        if i
                        then load8 b (buf + (x - (at m t disk laws c quarter g)))
                        else load8 (disk w) x)
                      inside
                  ∙ ap (λ a. load8 b a) (omega (arith, p.entry_at))) in
            omega (
              arith,
              moved,
              load32-store32 sector_copy (buf + off) (link (load32 sector_copy (buf + off)) value),
            )

        -- Every other byte of the table.
        byte_kept :
            (x : ℕ)
            → x < (table m t disk laws c quarter g) + t.sectors_per_fat * sector_size t
            → (x < (table m t disk laws c quarter g) + c * 4)
              ⊎ ((table m t disk laws c quarter g) + c * 4 + 4 ≤ x)
            → load8 (disk second_write.1) x ≡ load8 (disk w) x
        byte_kept x in_table apart =
            let p = (place m t disk laws c quarter g) in
            elim (Bool-cases (within (at m t disk laws c quarter g) (1 * sector_size t) x)) [
              | inl inside ↦
                  let (lo, hi) =
                    within_bounds (at m t disk laws c quarter g) (1 * sector_size t) x inside in
                  let off = entry_offset t c in
                  let val = link (load32 sector_copy (buf + off)) value in
                  written_at x ok1 ok2 in_table
                  ∙ ap
                      (λ i.
                        if i
                        then load8 (store32 sector_copy (buf + off) val)
                            (buf + (x - (at m t disk laws c quarter g)))
                        else load8 (disk w) x)
                      inside
                  ∙ load8-store32 sector_copy (buf + off) val
                      (buf + (x - (at m t disk laws c quarter g))) (omega (arith, p.entry_at, lo))
                  ∙ faithful (x - (at m t disk laws c quarter g)) (omega (arith, lo, hi))
                  ∙ ap (λ a. load8 (disk w) a) (omega (arith, lo))
              | inr outside ↦
                  let off = entry_offset t c in
                  let val = link (load32 sector_copy (buf + off)) value in
                  written_at x ok1 ok2 in_table
                  ∙ ap
                      (λ i.
                        if i
                        then load8 (store32 sector_copy (buf + off) val)
                            (buf + (x - (at m t disk laws c quarter g)))
                        else load8 (disk w) x)
                      outside
            ]

        -- Every other entry of the table.
        entry_kept :
            (d : ℕ)
            → d * 4 < t.sectors_per_fat * sector_size t
            → d ≢ c
            → load32 (disk second_write.1) ((table m t disk laws c quarter g) + d * 4)
              ≡ load32 (disk w) ((table m t disk laws c quarter g) + d * 4)
        entry_kept d in_table other =
            load32-moved (disk second_write.1) (disk w) ((table m t disk laws c quarter g) + d * 4)
              ((table m t disk laws c quarter g) + d * 4)
              (λ k small.
                byte_kept ((table m t disk laws c quarter g) + d * 4 + k)
                  (omega (arith, (table_whole m t disk laws c quarter g), in_table))
                  (ground (arith, other)))

    -- What a call that returned true has done to the first copy of the table.
    abbrev Linked : ℕ → W → Bool × W → Type 0
    Linked value w r =
        r.0 ≡ true
        → (d : ℕ) → d * 4 < t.sectors_per_fat * sector_size t
        → link_of (entry_on m t disk laws r.1 d)
          ≡ (if d == c then value % 268435456 else link_of (entry_on m t disk laws w d))

    link_write-Linked :
        (value buf : ℕ) (w w0 : W)
        → Faithful value buf w
        → disk w ≡ disk w0
        → Linked value w0 (link_write m t c 1 buf (changed value buf w))
    link_write-Linked value buf w w0 faithful same ok d in_table =
        let w2 = (second_write value buf w).1 in
        let freed : disk (m.memory.free buf w2) ≡ disk w2 = laws.free_keeps buf w2 in
        let ok1 : (first_write value buf w).0 ≡ true = ground arith in
        let ok2 : (second_write value buf w).0 ≡ true = ground arith in
        elim (Bool-cases (d == c)) [
          | inl here ↦ rw here (
              ap (λ b. link_of (load32 b ((table m t disk laws c quarter g) + d * 4))) freed
              ∙ ap (λ k. link_of (load32 (disk w2) ((table m t disk laws c quarter g) + k * 4)))
                  ((==_iff d c).0 here)
              ∙ entry_written value buf w faithful ok1 ok2)
          | inr other ↦ rw other (
              ap (λ b. link_of (load32 b ((table m t disk laws c quarter g) + d * 4))) freed
              ∙ ap link_of (entry_kept value buf w faithful ok1 ok2 d in_table (ne_of_== d c other))
              ∙ ap (λ b. link_of (load32 b ((table m t disk laws c quarter g) + d * 4))) same)
        ]

    link_in_sectors-Linked :
        (value buf : ℕ) (w w0 : W) (r : Bool × W)
        → read_block_device t.device buf (fat_sector t c) 1 w ≡ r
        → disk w ≡ disk w0
        → Linked value w0 (link_in_sectors m t c value 1 buf r)
    link_in_sectors-Linked value buf w w0 (false, w1) e same = λ ok. absurd (ground (arith, ok))
    link_in_sectors-Linked value buf w w0 (true, w1) e same =
        let ss = sector_size t in
        let kept : disk w1 ≡ disk w =
          sym (ap (λ r. disk r.1) e) ∙ laws.read_keeps buf (fat_sector t c) 1 w in
        let faithful : Faithful value buf w1 = λ k small.
          ap (λ r. load8 (m.memory.bytes r.1) (buf + k)) (sym e)
          ∙ laws.read_copies buf (fat_sector t c) 1 k w (ap (λ r. r.0) e) (omega (arith, small))
          ∙ ap (λ s. load8 (disk w) (s * ss + k)) (place m t disk laws c quarter g).sector_is
          ∙ ap (λ b. load8 b ((at m t disk laws c quarter g) + k)) (sym kept) in
        link_write-Linked value buf w1 w0 faithful (kept ∙ same)

    link_in_buffer-Linked :
        (value : ℕ) (w w0 : W) (r : Option ℕ × W)
        → disk r.1 ≡ disk w0
        → Linked value w0 (link_in_buffer m t c value 1 r)
    link_in_buffer-Linked value w w0 (none, w1) same = λ ok. absurd (ground (arith, ok))
    link_in_buffer-Linked value w w0 (some buf, w1) same =
        link_in_sectors-Linked value buf w1 w0 _ refl same

    set_next_cluster-Linked : (value : ℕ) (w : W) → Linked value w (set_next_cluster m t c value w)
    unfolding set_next_cluster
    set_next_cluster-Linked value w =
        let call : ℕ → Bool × W =
          λ n. link_in_buffer m t c value n (m.memory.aalloc (sector_size t * n) 128 w) in
        subst (λ n. Linked value w (call n)) (sym (place m t disk laws c quarter g).one)
          (link_in_buffer-Linked value w w (m.memory.aalloc (sector_size t * 1) 128 w)
            (laws.aalloc_keeps (sector_size t * 1) 128 w))

    -- Where the disk keeps its laws and the entry of cluster c lies in the table: after a call of
    -- setNextCluster for c that returned true, the entry of c in the first copy of the table is the
    -- value, and every other entry is as before (each in its low 28 bits).
    pub set_next_cluster-entry :
        (value d : ℕ) (w : W)
        → (set_next_cluster m t c value w).0 ≡ true
        → d * 4 < t.sectors_per_fat * sector_size t
        → link_of (entry_on m t disk laws (set_next_cluster m t c value w).1 d)
          ≡ (if d == c then value % 268435456 else link_of (entry_on m t disk laws w d))
    set_next_cluster-entry value d w ok in_table = set_next_cluster-Linked value w ok d in_table
