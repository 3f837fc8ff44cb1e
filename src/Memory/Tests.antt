-- ===== src/Memory/Tests.antt =====
-- The theorems on memory at small inputs: heaps of one and two blocks, and ranges of a few bytes.
use staxus.Base.{
  ℕ, ◌+◌, ◌-◌, ◌%◌, ◌<◌, ◌≡◌, refl, ◌↔◌, ◌⊎◌, inl, true, false, none, some, List, [], ◌∷◌, arith,
  ◌==◌, if◌then◌else◌,
}
use staxus.Base.Int.{pos}
use staxus.Memory.Bytes.{Bytes, load8, load64}
use staxus.Memory.Utils.{memcpy, memcmp}
use staxus.Memory.Utils.Fill.{within, memcpy_at}
use staxus.Memory.Utils.Compare.{memcmp-zero_iff}
use staxus.Memory.Identity.{
  Heap, header_size, u64_mod, size_of, next_of, in_use, flags_of, idalloc_malloc, split_block,
  mark_used,
}
use staxus.Memory.Identity.Blocks.{
  Block, block, end_of, Chain, IsHeap, fit, OutsideFree, free_bytes,
}
use staxus.Memory.Identity.Malloc.{malloc_refines, malloc-Handed}
use staxus.Memory.Identity.Fit.{Handed}
use staxus.Memory.Identity.Join.{Adjacent, release}
use staxus.Memory.Identity.Previous.{OutsideHeaders, free_refines}
use staxus.Memory.Identity.Release.{idalloc_free, idalloc_get_available}
use staxus.Memory.Identity.Counters.{get_available-free_bytes}
use staxus.Memory.Identity.Gap.{swallowed, free_gap}
use staxus.Memory.Identity.Aligned.{
  pad_from, padding_for, cut_front, aalloc_from, idalloc_aalloc, aalloc_aligned,
}

-- One free block of 100 bytes behind the header at 64.
abbrev one_free : Bytes
one_free a = if a == 64 then 100 else 0

abbrev free_heap : Heap
free_heap = record { first_block = 64; total_useable = 100; mem = one_free }

abbrev free_blocks : List Block
free_blocks = block 64 100 false ∷ []

free_is : IsHeap one_free 64 free_blocks
unfolding size_of in_use flags_of next_of load64
free_is = record {
  chain = (refl, refl, refl, refl);
  separate = (tt, tt);
  fits = ((omega arith, omega arith), tt);
}

malloc_refines_example :
    (after : Bytes) × (idalloc_malloc 2 10 free_heap
      ≡ some ((fit 10 free_blocks).0, record free_heap { mem = after }))
    × IsHeap after 64 (fit 10 free_blocks).1
    × ((a : ℕ) → OutsideFree free_blocks a → load8 after a ≡ load8 one_free a)
malloc_refines_example =
    malloc_refines 2 10 free_heap free_blocks free_is (omega arith) (omega arith)

served_run :
    (after : Bytes) × (idalloc_malloc 2 10 free_heap
      ≡ some ((fit 10 free_blocks).0, record free_heap { mem = after }))
    × IsHeap after 64 (fit 10 free_blocks).1
    × ((a : ℕ) → OutsideFree free_blocks a → load8 after a ≡ load8 one_free a)
served_run = malloc_refines 2 10 free_heap free_blocks free_is (omega arith) (omega arith)

malloc-Handed_example :
    Handed 10 free_blocks ((fit 10 free_blocks).0, (fit 10 free_blocks).1)
    × IsHeap served_run.0 64 (fit 10 free_blocks).1
malloc-Handed_example =
    malloc-Handed 2 10 (fit 10 free_blocks).0 free_heap (record free_heap { mem = served_run.0 })
      free_blocks free_is (omega arith) (omega arith) served_run.1

get_available-free_bytes_example :
    idalloc_get_available 2 free_heap ≡ some (free_bytes free_blocks % u64_mod)
get_available-free_bytes_example =
    get_available-free_bytes 2 free_heap free_blocks free_is (omega arith)

-- A used block of 40 bytes behind the header at 64, and a free one of 8 bytes behind that at 128.
abbrev two_blocks : Bytes
two_blocks a =
    if a == 64
    then 40
    else if a == 72
    then 128
    else if a == 80
    then 1
    else if a == 128
    then 8
    else 0

abbrev row_heap : Heap
row_heap = record { first_block = 64; total_useable = 0; mem = two_blocks }

abbrev row : List Block
row = block 64 40 true ∷ block 128 8 false ∷ []

row_is : IsHeap two_blocks 64 row
unfolding size_of in_use flags_of next_of load64
row_is = record {
  chain = (refl, refl, refl, (refl, refl, refl, refl));
  separate = ((inl (omega arith), tt), (tt, tt));
  fits = ((omega arith, omega arith), ((omega arith, omega arith), tt));
}

free_refines_example :
    (after : Bytes) × (idalloc_free 3 (64 + header_size) row_heap
      ≡ some (record row_heap { mem = after }))
    × IsHeap after 64 (release 64 row)
    × Adjacent (release 64 row)
    × ((a : ℕ) → OutsideHeaders row a → load8 after a ≡ load8 two_blocks a)
free_refines_example = free_refines 3 64 row_heap row row_is (refl, tt) (inl refl) (omega arith)

-- The free block stands at 200, in a region of its own.
abbrev two_regions : Bytes
two_regions a =
    if a == 64
    then 40
    else if a == 72
    then 200
    else if a == 80
    then 1
    else if a == 200
    then 100
    else 0

abbrev gap_heap : Heap
gap_heap = record { first_block = 64; total_useable = 0; mem = two_regions }

abbrev low : Block
low = block 64 40 true

abbrev high : Block
high = block 200 100 false

gap_is : IsHeap two_regions 64 (low ∷ high ∷ [])
unfolding size_of in_use flags_of next_of load64
gap_is = record {
  chain = (refl, refl, refl, (refl, refl, refl, refl));
  separate = ((inl (omega arith), tt), (tt, tt));
  fits = ((omega arith, omega arith), ((omega arith, omega arith), tt));
}

free_gap_example :
    (after : Bytes) × (idalloc_free 3 (64 + header_size) gap_heap
      ≡ some (record gap_heap { mem = after }))
    × Chain after 64 (swallowed low high ∷ [])
    × (end_of low < end_of (swallowed low high))
    × (end_of (swallowed low high) < end_of high)
free_gap_example = free_gap 3 gap_heap low high gap_is (omega arith) refl (omega arith)

-- A block at 64 whose pointer is to be a multiple of 64: the pointer 88 is not, 128 is.
abbrev aligned_run : ℕ × Heap
unfolding idalloc_aalloc aalloc_from padding_for pad_from cut_front split_block mark_used
aligned_run = elim (idalloc_aalloc 2 10 64 free_heap) [ none ↦ (0, free_heap) | some r ↦ r ]

aligned_runs : idalloc_aalloc 2 10 64 free_heap ≡ some (128, aligned_run.1)
unfolding idalloc_aalloc aalloc_from padding_for pad_from cut_front split_block mark_used size_of
    in_use flags_of next_of load64
aligned_runs = refl

aalloc_aligned_example : ◌≡◌ {A = ℕ} 128 0 ⊎ ◌≡◌ {A = ℕ} (128 % 64) 0
aalloc_aligned_example =
    aalloc_aligned 2 10 64 128 free_heap aligned_run.1 (omega arith) aligned_runs

memcpy_at_example :
    load8 (memcpy 8 64 4 one_free) 8
    ≡ (if within 8 4 8 then load8 one_free (64 + (8 - 8)) else load8 one_free 8)
memcpy_at_example = memcpy_at 8 64 4 one_free 8 (inl (omega arith))

memcmp-zero_iff_example :
    (memcmp 8 16 4 one_free ≡ pos 0)
    ↔ ((i : ℕ) → i < 4 → load8 one_free (8 + i) ≡ load8 one_free (16 + i))
memcmp-zero_iff_example = memcmp-zero_iff 8 16 4 one_free

same_front : (j : ℕ) → j < 1 → load8 one_free (63 + j) ≡ load8 one_free (7 + j)
unfolding load8
same_front j h = ground arith

same_zeros : memcmp 8 16 4 one_free ≡ pos 0
same_zeros = (memcmp-zero_iff 8 16 4 one_free).1 (λ i h. unfold load8 in ground arith)
