-- ===== src/Fat32/Tests.antt =====
-- The theorems on FAT32 at a disk of 1024 sectors of 512 bytes, whose table has two sectors and begins at
-- sector 32. The world is the memory and the disk.
use staxus.Base.{
  ℕ, ◌+◌, ◌-◌, ◌*◌, ◌%◌, ◌<◌, ◌≤◌, ◌≡◌, ◌≢◌, ◌⊎◌, ◌↔◌, inl, refl, true, some, List, [], ◌∷◌, ◌==◌,
  if◌then◌else◌, arith, length,
}
use staxus.Memory.Bytes.{Bytes, load8}
use staxus.Memory.Utils.Fill.{within}
use staxus.Storage.{Info, BlockDevice, physical, read_block_device, write_block_device}
use staxus.Fat32.{Machine, FatMount}
use staxus.Fat32.Chain.{link_of, fat_sector, set_next_cluster, get_next_cluster}
use staxus.Fat32.Disk.{Disk, Geometry, entry_on}
use staxus.Fat32.Links.{set_next_cluster-entry}
use staxus.Fat32.Next.{get_next_cluster-entry}
use staxus.Fat32.Entries.{required_lfn_entries, checksum_83_name, scan_cluster}
use staxus.Fat32.Names.{IsShortName, checksum_83_name-differs, required_lfn_entries-bounds}
use staxus.Fat32.Free.{Scanned, scan_cluster-Scanned}

abbrev pub World : Type 0
World = Bytes × Bytes

-- `n` bytes of `from` at `q`, put at `p` of `into`.
abbrev transfer : ℕ → ℕ → ℕ → Bytes → Bytes → Bytes
transfer p q n from into x = if within p n x then load8 from (q + (x - p)) else into x

abbrev info_of : Info
info_of = record { flags = 1; model = []; sector_count = 1024; sector_size = 512 }

abbrev drive : BlockDevice World
drive =
    physical info_of
      (some (λ buf sector n w. (true, (transfer buf (sector * 512) (n * 512) w.1 w.0, w.1))))
      (some (λ buf sector n w. (true, (w.0, transfer (sector * 512) buf (n * 512) w.0 w.1))))

abbrev pub machine : Machine World
machine = record {
  memory = record {
    aalloc = λ n align w. (some 4096, w);
    malloc = λ n w. (some 65536, w);
    free = λ p w. w;
    bytes = λ w. w.0;
  };
  set_bytes = λ b w. (b, w.1);
}

abbrev pub mount : FatMount World
mount = record {
  device = drive;
  fat_start = 32;
  data_start = 36;
  root_cluster = 2;
  sectors_per_fat = 2;
  bytes_per_cluster = 512;
  sectors_per_cluster = 1;
  at = 65536;
}

abbrev disk : World → Bytes
disk w = w.1

transfer-inside :
    (p q n k : ℕ) (from into : Bytes)
    → k < n
    → load8 (transfer p q n from into) (p + k) ≡ load8 from (q + k)
unfolding load8
transfer-inside p q n k from into h =
    let same : q + (p + k - p) ≡ q + k = omega arith in ground (arith, ap_mod from same)
  where
    ap_mod : (b : Bytes) {x y : ℕ} → x ≡ y → b x % 256 ≡ b y % 256
    ap_mod b e = cc

transfer-at :
    (p q n x : ℕ) (from into : Bytes)
    → load8 (transfer p q n from into) x
      ≡ (if within p n x then load8 from (q + (x - p)) else load8 into x)
unfolding load8
transfer-at p q n x from into = ground arith

disk_Disk : Disk machine mount disk
unfolding read_block_device write_block_device
disk_Disk = record {
  aalloc_keeps = λ n k w. refl;
  free_keeps = λ p w. refl;
  set_keeps = λ b w. refl;
  set_bytes_holds = λ b w. refl;
  read_keeps = λ buf sector n w. refl;
  read_copies =
      λ buf sector n k w ok small. transfer-inside buf (sector * 512) (n * 512) k w.1 w.0 small;
  write_keeps = λ buf sector n w. refl;
  write_copies = λ buf sector n x w ok. transfer-at (sector * 512) buf (n * 512) x w.0 w.1;
}

geometry : Geometry mount 5 128
geometry = record {
  whole = refl;
  positive = omega arith;
  short = omega arith;
  numbered = omega arith;
  inside = omega arith;
  low = omega arith;
}

abbrev pub blank : World
blank = ((λ a. 0), (λ a. 0))

sets : (set_next_cluster machine mount 5 7 blank).0 ≡ true
unfolding set_next_cluster read_block_device write_block_device
sets = refl

set_next_cluster-entry_example :
    link_of (entry_on machine mount disk disk_Disk (set_next_cluster machine mount 5 7 blank).1 5)
    ≡ (if 5 == 5 then 7 % 268435456 else link_of (entry_on machine mount disk disk_Disk blank 5))
set_next_cluster-entry_example =
    set_next_cluster-entry machine mount disk disk_Disk 5 128 geometry 7 5 blank sets (omega arith)

reads : (read_block_device drive 4096 (fat_sector mount 5) 1 blank).0 ≡ true
unfolding read_block_device
reads = refl

get_next_cluster-entry_example :
    (get_next_cluster machine mount 5 blank).0
    ≡ link_of (entry_on machine mount disk disk_Disk blank 5)
get_next_cluster-entry_example =
    get_next_cluster-entry machine mount disk disk_Disk 5 128 geometry 4096 blank refl reads

-- Two names of zeros, save for the first character of the second.
abbrev names : Bytes
names a = if a == 100 then b'A' else 0

same_later : (k : ℕ) → k < 11 → k ≢ 0 → load8 names (0 + k) ≡ load8 names (100 + k)
unfolding load8
same_later k h ne = ground (arith, ne)

other_first : load8 names (0 + 0) ≢ load8 names (100 + 0)
unfolding load8
other_first = ground arith

checksum_83_name-differs_example : checksum_83_name names 0 ≢ checksum_83_name names 100
checksum_83_name-differs_example =
    checksum_83_name-differs names 0 100 0 (omega arith) same_later other_first

abbrev name : List ℕ
name = b'a' ∷ b'b' ∷ []

required_lfn_entries-bounds_example :
    ((required_lfn_entries name ≡ 0) ↔ IsShortName name)
    × (required_lfn_entries name ≤ 20)
    × ((required_lfn_entries name ≡ 0)
        ⊎ ((required_lfn_entries name ≡ 20) × (260 < length name))
        ⊎ ((length name ≤ 13 * required_lfn_entries name)
            × (13 * required_lfn_entries name < length name + 13)))
required_lfn_entries-bounds_example = required_lfn_entries-bounds b'a' (b'b' ∷ [])

scan_cluster-Scanned_example : Scanned 0 16 16 3 names 0 (scan_cluster 16 16 3 0 0 names 0)
scan_cluster-Scanned_example =
    scan_cluster-Scanned 16 16 3 0 0 names 0 (inl refl) (omega arith) (omega arith)
