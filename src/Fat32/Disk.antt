-- ===== src/Fat32/Disk.antt =====
-- What the theorems on FAT32 ask of the disk, and where a cluster's entry lies on it.
use staxus.Base.{
  ℕ, ◌+◌, ◌-◌, ◌*◌, ◌/◌, ◌%◌, ◌<◌, ◌≤◌, ◌≡◌, ap, ◌∙◌, true, false, ltb, leb, if◌then◌else◌, arith,
  le→ltb,
}
use native.Mathlib.Nat.{div-add-mod', mod-lt, add-mul, mul_left_comm, div-lt_iff_lt-mul}
use staxus.Memory.Bytes.{Bytes, load8, load16, load32}
use staxus.Memory.Utils.Fill.{within}
use staxus.Storage.{read_block_device, write_block_device}
use staxus.Fat32.{Machine, FatMount, sector_size}
use staxus.Fat32.Chain.{fat_sector, entry_offset, link_sectors}

-- The disk as the world holds it: reads copy from it, writes copy to it, and the other calls leave it.
pub record Disk {W : Type 0} (m : Machine W) (t : FatMount W) (disk : W → Bytes) : Type 0 where
  pub aalloc_keeps : (n k : ℕ) (w : W) → disk (m.memory.aalloc n k w).1 ≡ disk w
  pub free_keeps : (p : ℕ) (w : W) → disk (m.memory.free p w) ≡ disk w
  pub set_keeps : (b : Bytes) (w : W) → disk (m.set_bytes b w) ≡ disk w
  pub set_bytes_holds : (b : Bytes) (w : W) → m.memory.bytes (m.set_bytes b w) ≡ b
  pub read_keeps :
      (buf sector n : ℕ) (w : W) → disk (read_block_device t.device buf sector n w).1 ≡ disk w
  pub read_copies :
      (buf sector n k : ℕ) (w : W)
      → (read_block_device t.device buf sector n w).0 ≡ true
      → k < n * sector_size t
      → load8 (m.memory.bytes (read_block_device t.device buf sector n w).1) (buf + k)
        ≡ load8 (disk w) (sector * sector_size t + k)
  pub write_keeps :
      (buf sector n : ℕ) (w : W)
      → m.memory.bytes (write_block_device t.device buf sector n w).1 ≡ m.memory.bytes w
  pub write_copies :
      (buf sector n x : ℕ) (w : W)
      → (write_block_device t.device buf sector n w).0 ≡ true
      → load8 (disk (write_block_device t.device buf sector n w).1) x ≡ (
          if within (sector * sector_size t) (n * sector_size t) x
          then load8 (m.memory.bytes w) (buf + (x - sector * sector_size t))
          else load8 (disk w) x)

-- The entry of `cluster` lies in the table, whose two copies lie below sector 2 ^ 32, and sectors hold
-- whole entries.
pub record Geometry {W : Type 0} (t : FatMount W) (cluster quarter : ℕ) : Type 0 where
  pub whole : sector_size t ≡ 4 * quarter
  pub positive : 0 < quarter
  pub short : sector_size t < 65536
  pub numbered : cluster * 4 < 4294967296
  pub inside : cluster * 4 < t.sectors_per_fat * sector_size t
  pub low : t.fat_start + (t.sectors_per_fat + t.sectors_per_fat) < 4294967296

pub ltb-leb : (x a : ℕ) → x < a → leb a x ≡ false
ltb-leb x a h = ground arith

pub within_true : (lo n a : ℕ) → lo ≤ a → a < lo + n → within lo n a ≡ true
within_true lo n a h k = ground arith

pub within_bounds : (lo n a : ℕ) → within lo n a ≡ true → (lo ≤ a) × (a < lo + n)
within_bounds lo n a h = (ground arith, ground arith)

add_zero : (a : ℕ) → a + 0 ≡ a
add_zero a = omega arith

add_three : (a : ℕ) → a + 3 ≡ a + 2 + 1
add_three a = omega arith

pub load32-moved :
    (m n : Bytes) (a b : ℕ)
    → ((k : ℕ) → k < 4 → load8 m (a + k) ≡ load8 n (b + k))
    → load32 m a ≡ load32 n b
unfolding load32 load16
load32-moved m n a b h = omega (
  arith,
  h 0 (omega arith),
  h 1 (omega arith),
  h 2 (omega arith),
  h 3 (omega arith),
  add_zero a,
  add_zero b,
  ap (λ p. load8 m p) (add_zero a),
  ap (λ p. load8 n p) (add_zero b),
  ap (λ p. load8 m p) (add_three a),
  ap (λ p. load8 n p) (add_three b),
)

module _ {W : Type 0} (m : Machine W) (t : FatMount W) (disk : W → Bytes)
    (laws : Disk m t disk) where
  -- The entry of a cluster in the first copy of the table.
  abbrev pub entry_on : W → ℕ → ℕ
  entry_on w cluster = load32 (disk w) (t.fat_start * sector_size t + cluster * 4)

  module _ (c quarter : ℕ) (g : Geometry t c quarter) where
    abbrev pub at : ℕ
    at = (t.fat_start + c * 4 / sector_size t) * sector_size t

    abbrev pub table : ℕ
    table = t.fat_start * sector_size t

    -- The sector's place in the table, and the entry's place in the sector.
    pub record Place : Type 0 where
      pub sector_is : fat_sector t c ≡ t.fat_start + c * 4 / sector_size t
      pub backup_is :
          (fat_sector t c + t.sectors_per_fat) % 4294967296
          ≡ t.fat_start + c * 4 / sector_size t + t.sectors_per_fat
      pub backup_at :
          (t.fat_start + c * 4 / sector_size t + t.sectors_per_fat) * sector_size t
          ≡ at + t.sectors_per_fat * sector_size t
      pub above : table ≤ at
      pub entry_at : at + entry_offset t c ≡ table + c * 4
      pub fits : entry_offset t c + 4 ≤ sector_size t
      pub one : link_sectors t c ≡ 1

    pub place : Place
    place =
        let ss = sector_size t in
        let q = c * 4 / ss in
        let spf = t.sectors_per_fat in
        let ss_pos : 0 < ss = omega (arith, g.whole, g.positive) in
        let same : (c * 4) % 4294967296 ≡ c * 4 = omega (arith, g.numbered) in
        let split = div-add-mod' (c * 4) ss in
        let below : q < spf = (div-lt_iff_lt-mul ss_pos).1 g.inside in
        let up = add-mul t.fat_start q ss in
        let up2 = add-mul (t.fat_start + q) spf ss in
        let fours : q * ss ≡ 4 * (q * quarter) =
          ap (λ x. q * x) g.whole ∙ mul_left_comm q 4 quarter in
        let off_is : entry_offset t c ≡ c * 4 % ss = ap (λ x. x % ss) same in
        let sector : fat_sector t c ≡ t.fat_start + q =
          ap (λ x. (t.fat_start + x / ss) % 4294967296) same ∙ omega (arith, g.low, below) in
        let room : entry_offset t c + 4 ≤ ss =
          omega (arith, off_is, split, fours, g.whole, mod-lt (c * 4) ss_pos) in
        let narrow : ltb ((ss + 4294967292) % 4294967296) (entry_offset t c) ≡ false =
          le→ltb _ _ (omega (arith, room, g.short)) in
        record {
          sector_is = sector;
          backup_is = omega (arith, sector, g.low, below);
          backup_at = up2;
          above = omega (arith, up);
          entry_at = omega (arith, up, off_is, split);
          fits = room;
          one = ap (λ b. if b then 2 else 1) narrow;
        }

    -- The table holds whole entries.
    pub table_whole : t.sectors_per_fat * sector_size t ≡ 4 * (t.sectors_per_fat * quarter)
    table_whole =
        ap (λ x. t.sectors_per_fat * x) g.whole ∙ mul_left_comm t.sectors_per_fat 4 quarter
