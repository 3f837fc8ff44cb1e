-- ===== src/Memory/Identity.antt =====
-- memory/managers/identity.c: the first-fit allocator over a chain of block headers that lie in
-- the memory they manage. A null pointer is 0. A walk along the chain takes fuel; `none` means that
-- the fuel ran out, which `Malloc` and `Free` exclude for every well-formed chain.
pub mod Header
pub mod Blocks
pub mod Split
pub mod Join
pub mod Fit
pub mod Malloc
pub mod Release
pub mod Free
pub mod Kept
pub mod Previous
pub mod Counters
pub mod Gap
pub mod Aligned
use staxus.Base.{
  ℕ, zero, suc, ◌+◌, ◌-◌, ◌*◌, ◌/◌, ◌%◌, Bool, not, ◌||◌, Option, none, some, ◌==◌, ltb,
  if◌then◌else◌, bit_and, bit_or,
}
use staxus.Memory.Bytes.{Bytes, load8, load32, load64, store8, store64}

-- `sizeof(BlockHeader)`: two qwords and a byte, aligned to 8
abbrev pub header_size : ℕ
header_size = 24

abbrev pub min_addr : ℕ
min_addr = 4194304

abbrev pub u64_mod : ℕ
u64_mod = 18446744073709551616

abbrev pub add64 : ℕ → ℕ → ℕ
add64 a b = (a + b) % u64_mod

abbrev pub sub64 : ℕ → ℕ → ℕ
sub64 a b = (a + u64_mod - b) % u64_mod

abbrev pub mul64 : ℕ → ℕ → ℕ
mul64 a b = (a * b) % u64_mod

-- The fields of the header at an address.
unfoldable pub size_of : Bytes → ℕ → ℕ
size_of m p = load64 m p

unfoldable pub next_of : Bytes → ℕ → ℕ
next_of m p = load64 m (p + 8)

unfoldable pub flags_of : Bytes → ℕ → ℕ
flags_of m p = load8 m (p + 16)

unfoldable pub set_size : Bytes → ℕ → ℕ → Bytes
set_size m p v = store64 m p v

unfoldable pub set_next : Bytes → ℕ → ℕ → Bytes
set_next m p v = store64 m (p + 8) v

unfoldable pub set_flags : Bytes → ℕ → ℕ → Bytes
set_flags m p v = store8 m (p + 16) v

-- `MemInUse`
unfoldable pub in_use : Bytes → ℕ → Bool
in_use m p = not (bit_and (flags_of m p) 1 == 0)

-- The static variables, and the memory.
pub record Heap : Type 0 where
  pub first_block : ℕ
  pub total_useable : ℕ
  pub mem : Bytes

-- `MemoryMap`, with the address of its descriptors.
pub record MemoryMap : Type 0 where
  pub map : ℕ
  pub descriptor_size : ℕ
  pub map_size : ℕ

pub record MemoryDescriptor : Type 0 where
  pub kind : ℕ
  pub phys_addr : ℕ
  pub num_pages : ℕ

unfoldable pub read_descriptor : Bytes → ℕ → MemoryDescriptor
read_descriptor m p = record {
  kind = load32 m p;
  phys_addr = load64 m (p + 8);
  num_pages = load64 m (p + 24);
}

-- The part of a region that lies at or above `min_addr`: its address and its pages.
unfoldable pub clip : ℕ → ℕ → Option (ℕ × ℕ)
clip addr pages =
    if ltb addr min_addr
    then (if ltb (add64 addr (mul64 pages 4096)) min_addr
        then none
        else some (min_addr, sub64 pages ((min_addr - addr) / 4096)))
    else some (addr, pages)

-- One usable region becomes the last block of the chain; the pair is `lastBlock` and the heap.
unfoldable pub add_region : ℕ → ℕ → ℕ × Heap → ℕ × Heap
add_region addr pages (last, h) =
    let m = set_size h.mem addr (mul64 pages 4096) in
    let total = add64 h.total_useable (size_of m addr) in
    let m = set_flags (set_next m addr 0) addr 0 in
    let m = if last == 0 then m else set_next m last addr in
    let first = if h.first_block == 0 then addr else h.first_block in
    (addr, record { first_block = first; total_useable = total; mem = m })

-- The body of the loop over the descriptors.
unfoldable pub init_step : MemoryMap → ℕ → ℕ × Heap → ℕ × Heap
unfolding read_descriptor clip add_region
init_step map i (last, h) =
    let block = read_descriptor h.mem (map.map + i * map.descriptor_size) in
    if block.kind == 7
    then elim (clip block.phys_addr block.num_pages) [
      | none ↦ (last, h)
      | some (addr, pages) ↦ add_region addr pages (last, h)
    ]
    else (last, h)

init_from : ℕ → ℕ → MemoryMap → ℕ × Heap → ℕ × Heap
init_from zero i map s = s
init_from (suc n) i map s = init_from n (i + 1) map (init_step map i s)

unfoldable pub idalloc_init : MemoryMap → Bytes → Heap
unfolding init_from init_step
idalloc_init map m =
    (init_from (map.map_size / map.descriptor_size) 0 map
      (0, record { first_block = 0; total_useable = 0; mem = m })).1

-- Cuts a free block to `size` bytes if the rest holds a header and at least one byte.
unfoldable pub split_block : ℕ → ℕ → Bytes → Bytes
split_block cur size m =
    if ltb (add64 size header_size) (size_of m cur)
    then (let new = cur + header_size + size in
        let m1 = set_next m new (next_of m cur) in
        let m2 = set_size m1 new (sub64 (sub64 (size_of m1 cur) size) header_size) in
        let m3 = set_flags m2 new 0 in let m4 = set_next m3 cur new in set_size m4 cur size)
    else m

unfoldable pub mark_used : ℕ → Bytes → Bytes
mark_used cur m = set_flags m cur (bit_or (flags_of m cur) 1)

malloc_from : ℕ → ℕ → ℕ → Bytes → Option (ℕ × Bytes)
malloc_from zero size cur m = none
malloc_from (suc f) size cur m =
    let rest = malloc_from f size (next_of m cur) m in
    if cur == 0
    then some (0, m)
    else if ltb (size_of m cur) size || in_use m cur
    then rest
    else some (cur + header_size, mark_used cur (split_block cur size m))

-- The pointer that the call returns, and the heap that it leaves.
unfoldable pub idalloc_malloc : ℕ → ℕ → Heap → Option (ℕ × Heap)
unfolding malloc_from
idalloc_malloc fuel size h =
    if size == 0 then some (0, h) else elim (malloc_from fuel size h.first_block h.mem) [
      | none ↦ none
      | some (p, m) ↦ some (p, record h { mem = m })
    ]
