-- ===== src/Fat32/Next.antt =====
-- getNextCluster and the entries of the table on the disk.
use staxus.Base.{
  ℕ, ◌+◌, ◌*◌, ◌≡◌, refl, sym, ap, ◌∙◌, subst, Bool, true, false, Option, none, some, arith,
}
use staxus.Memory.Bytes.{Bytes, load8, load32}
use staxus.Storage.{read_block_device}
use staxus.Fat32.{Machine, FatMount, sector_size}
use staxus.Fat32.Chain.{
  link_of, fat_sector, entry_offset, next_in_sector, next_in_buffer, get_next_cluster,
}
use staxus.Fat32.Disk.{Disk, Geometry, entry_on, table, place, load32-moved}

module _ {W : Type 0} (m : Machine W) (t : FatMount W) (disk : W → Bytes)
    (laws : Disk m t disk) where
  module _ (c quarter : ℕ) (g : Geometry t c quarter) where
    next_in_sector-entry :
        (buf : ℕ) (w : W) (r : Bool × W)
        → read_block_device t.device buf (fat_sector t c) 1 w ≡ r
        → (r.0 ≡ true)
        → (next_in_sector m (entry_offset t c) buf r).0 ≡ link_of (entry_on m t disk laws w c)
    next_in_sector-entry buf w (false, w1) e ok = absurd (ground (arith, ok))
    next_in_sector-entry buf w (true, w1) e ok =
        let ss = sector_size t in
        let p = (place m t disk laws c quarter g) in
        ap link_of (
          load32-moved (m.memory.bytes w1) (disk w) (buf + entry_offset t c)
            ((table m t disk laws c quarter g) + c * 4)
            (λ k small.
              ap (λ r. load8 (m.memory.bytes r.1) (buf + entry_offset t c + k)) (sym e)
              ∙ ap
                  (λ a.
                    load8 (m.memory.bytes (read_block_device t.device buf (fat_sector t c) 1 w).1)
                      a)
                  (omega arith)
              ∙ laws.read_copies buf (fat_sector t c) 1 (entry_offset t c + k) w (ap (λ r. r.0) e)
                  (omega (arith, p.fits))
              ∙ ap (λ s. load8 (disk w) (s * ss + (entry_offset t c + k))) p.sector_is
              ∙ ap (λ a. load8 (disk w) a) (omega (arith, p.entry_at))))

    next_in_buffer-entry :
        (w w0 : W) (r : Option ℕ × W) (buf : ℕ)
        → r.0 ≡ some buf
        → (read_block_device t.device buf (fat_sector t c) 1 r.1).0 ≡ true
        → disk r.1 ≡ disk w0
        → (next_in_buffer m t c r).0 ≡ link_of (entry_on m t disk laws w0 c)
    next_in_buffer-entry w w0 (none, w1) buf got ok same = absurd (ground (arith, got))
    next_in_buffer-entry w w0 (some buf', w1) buf got ok same =
        let one : buf' ≡ buf = cc in
        next_in_sector-entry buf' w1 _ refl
          (subst (λ p. (read_block_device t.device p (fat_sector t c) 1 w1).0 ≡ true) (sym one) ok)
        ∙ ap (λ b. link_of (load32 b ((table m t disk laws c quarter g) + c * 4))) same

    -- Where the disk keeps its laws and the entry of cluster c lies in the table: getNextCluster, if
    -- it gets a buffer and the sector can be read, returns the entry's low 28 bits.
    pub get_next_cluster-entry :
        (buf : ℕ) (w : W)
        → (m.memory.aalloc (sector_size t) 128 w).0 ≡ some buf
        → (read_block_device t.device buf
            (fat_sector t c)
            1
            (m.memory.aalloc (sector_size t) 128 w).1).0
          ≡ true
        → (get_next_cluster m t c w).0 ≡ link_of (entry_on m t disk laws w c)
    unfolding get_next_cluster
    get_next_cluster-entry buf w got ok =
        next_in_buffer-entry w w (m.memory.aalloc (sector_size t) 128 w) buf got ok
          (laws.aalloc_keeps (sector_size t) 128 w)
