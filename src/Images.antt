-- ===== src/Images.antt =====
-- file-formats/pe.c: the parts of the loader of PE images that work on memory: the sections, the
-- relocations, and the functions of a library by the hash of their names. `none`: the fuel ran out.
pub mod Relocations
pub mod Lookup
pub mod Exports
pub mod Tests
use staxus.Base.{
  ℕ, zero, suc, ◌+◌, ◌-◌, ◌*◌, ◌/◌, ◌%◌, Bool, true, false, not, ◌||◌, Option, none, some, List, [],
  ◌∷◌, ◌++◌, ◌==◌, ltb, if◌then◌else◌, ◌>>=◌,
}
use staxus.Memory.Bytes.{Bytes, load16, load32, load64, store32, store64}
use staxus.Memory.Utils.{memcpy, memset, memhsh}
use staxus.Memory.Identity.{add64, sub64}
use staxus.Strings.Utils.{strlen}
use staxus.Storage.{Memory}

-- `PEModule`: the image, and the fields of its optional header that are read here.
pub record PeModule : Type 0 where
  pub image : ℕ
  pub image_base : ℕ
  pub entry_point : ℕ
  pub reloc_address : ℕ
  pub reloc_size : ℕ

-- `block -> PageRVA` and `block -> BlockSize` of the block at `cur`, and `sizeof(PERelocationTable)`.
abbrev pub page_rva : Bytes → ℕ → ℕ
page_rva b cur = load32 b cur

abbrev pub block_size : Bytes → ℕ → ℕ
block_size b cur = load32 b (cur + 4)

abbrev pub block_head : ℕ
block_head = 8

-- One entry of the block at `cur`: false where its type is unknown.
unfoldable pub relocate_entry : ℕ → ℕ → ℕ → ℕ → Bytes → Bool × Bytes
relocate_entry image delta cur entry b =
    let place = image + page_rva b cur + entry % 4096 in
    let kind = entry / 4096 in
    if kind == 0
    then (true, b)
    else if kind == 10
    then (true, store64 b place (add64 (load64 b place) delta))
    else if kind == 3
    then (true, store32 b place ((load32 b place + delta) % 4294967296))
    else (false, b)

-- `n` entries of 16 bits from `p` on, up to one that is refused.
unfoldable pub relocate_entries : ℕ → ℕ → ℕ → ℕ → ℕ → Bytes → Bool × Bytes
unfolding relocate_entry
relocate_entries zero image delta cur p b = (true, b)
relocate_entries (suc n) image delta cur p b =
    let (ok, b1) = relocate_entry image delta cur (load16 b p) b in
    let rest = relocate_entries n image delta cur (p + 2) b1 in if ok then rest else (false, b1)

abbrev pub block_count : Bytes → ℕ → ℕ
block_count b cur = (block_size b cur - block_head) / 2

-- The loop over the blocks. The size of a block is read again once its entries have been applied.
unfoldable pub relocate_from : ℕ → ℕ → ℕ → ℕ → ℕ → Bytes → Option (Bool × Bytes)
unfolding relocate_entries
relocate_from zero image delta cur last b = none
relocate_from (suc f) image delta cur last b =
    let (ok, b1) = relocate_entries (block_count b cur) image delta cur (cur + block_head) b in
    let rest = relocate_from f image delta (cur + block_size b1 cur) last b1 in
    if not (ltb cur last)
    then some (true, b)
    else if ltb (block_size b cur) block_head
    then some (false, b)
    else if ok
    then rest
    else some (false, b1)

-- The result, and the memory that the call leaves.
unfoldable pub resolve_relocations : ℕ → PeModule → Bytes → Option (Bool × Bytes)
unfolding relocate_from
resolve_relocations f x b =
    let delta = sub64 x.image x.image_base in
    if x.reloc_address == 0 || x.reloc_size == 0
    then some (true, b)
    else if delta == 0
    then some (true, b)
    else relocate_from f x.image delta (x.image + x.reloc_address)
        (x.image + x.reloc_address + x.reloc_size) b

-- `PESectionHeader`: where a section stands in the file at `file`, and where in the image. Nothing
-- compares them with the sizes of the two.
unfoldable pub copy_section : ℕ → ℕ → ℕ → Bytes → Bytes
copy_section file image section b =
    memcpy (image + load32 b (section + 12)) (file + load32 b (section + 20))
      (load32 b (section + 16)) b

-- The loop over the `n` section headers from `file + ptr` on.
unfoldable pub copy_sections : ℕ → ℕ → ℕ → ℕ → Bytes → Bytes
unfolding copy_section
copy_sections zero file image ptr b = b
copy_sections (suc n) file image ptr b =
    copy_sections n file image (ptr + 40) (copy_section file image (file + ptr) b)

-- The image: zeros, the sections, and the headers of the file.
unfoldable pub fill_image : ℕ → ℕ → ℕ → ℕ → ℕ → Bytes → Bytes
unfolding copy_sections
fill_image sections file image size ptr b =
    let b1 = copy_sections sections file image ptr (memset image 0 size b) in
    memcpy image file (ptr + 40 * sections) b1

-- The entry point, or the null pointer.
unfoldable pub get_pe_entry : PeModule → Option ℕ
get_pe_entry x = if x.entry_point == 0 then none else some (x.image + x.entry_point)

-- `CachedFunc`, with its address. A chain of them is a list.
pub record CachedFunc : Type 0 where
  pub at : ℕ
  pub name : ℕ
  pub hash : ℕ
  pub rva : ℕ
  pub ordinal : ℕ

-- `funcBuckets`
abbrev pub Buckets : Type 0
Buckets = ℕ → List CachedFunc

-- The first function of a chain with a hash.
unfoldable pub find_hash : ℕ → List CachedFunc → Option CachedFunc
find_hash h [] = none
find_hash h (f ∷ fs) = let rest = find_hash h fs in if f.hash == h then some f else rest

-- `funcBuckets[funcHash & 0x3F]`
unfoldable pub find_func : ℕ → Buckets → Option CachedFunc
unfolding find_hash
find_func h buckets = find_hash h (buckets (h % 64))

-- A function goes to the end of its chain.
unfoldable pub add_func : CachedFunc → Buckets → Buckets
add_func f buckets i = if i == f.hash % 64 then buckets i ++ (f ∷ []) else buckets i

-- The address of the function with a name, or the null pointer.
unfoldable pub get_pe_function_address : ℕ → ℕ → Buckets → ℕ → Bytes → Option (Option ℕ)
unfolding find_func strlen memhsh
get_pe_function_address fuel image buckets name b = elim (strlen fuel name b) [
  | none ↦ none
  | some len ↦
      some (elim (find_func (memhsh name len b) buckets) [
        | none ↦ none
        | some f ↦ some (image + f.rva)
      ])
]

-- `sizeof(struct __CachedFunc)`
abbrev pub cached_func_size : ℕ
cached_func_size = 40

module _ {W : Type 0} (m : Memory W) where
  -- The function number `i` of the export table, once there is memory for it.
  abbrev pub cache_at : ℕ → ℕ → ℕ → ℕ → ℕ → Buckets → Option ℕ × W → Option (Buckets × W)
  cache_at fuel image functions ordinals name buckets (none, w) = some (buckets, w)
  cache_at fuel image functions ordinal name buckets (some at, w) =
      let b = m.bytes w in
      do
        len ← strlen fuel name b
        some (
          add_func
              (record {
                at = at;
                name = name;
                hash = memhsh name len b;
                rva = load32 b (functions + 4 * ordinal);
                ordinal = ordinal;
              })
              buckets,
          w,
        )

  -- The loop over the `n` names from number `i` on. A name at 0, and one without memory for it, is left
  -- out.
  unfoldable pub cache_from : ℕ → ℕ → ℕ → ℕ → ℕ → ℕ → ℕ → Buckets → W → Option (Buckets × W)
  unfolding add_func strlen memhsh
  cache_from zero fuel image functions ordinals names i buckets w = some (buckets, w)
  cache_from (suc n) fuel image functions ordinals names i buckets w =
      let b = m.bytes w in
      if load32 b (names + 4 * i) == 0
      then cache_from n fuel image functions ordinals names (i + 1) buckets w
      else (do
        (more, w1) ←
            cache_at fuel image functions (load16 b (ordinals + 2 * i))
              (image + load32 b (names + 4 * i)) buckets (m.malloc cached_func_size w)
        cache_from n fuel image functions ordinals names (i + 1) more w1)

  -- The functions of the export table at `table`.
  unfoldable pub cache_exports : ℕ → ℕ → ℕ → W → Option (Buckets × W)
  unfolding cache_from
  cache_exports fuel image table w =
      let b = m.bytes w in
      cache_from (load32 b (table + 24)) fuel image (image + load32 b (table + 28))
        (image + load32 b (table + 36)) (image + load32 b (table + 32)) 0 (λ i. []) w
