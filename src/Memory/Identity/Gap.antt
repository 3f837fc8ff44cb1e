-- ===== src/Memory/Identity/Gap.antt =====
-- What idalloc_free and idalloc_init do at the borders of the regions they manage.
use staxus.Base.{
  subst, sym, Bool-cases, inl, inr, ◌∙◌, ap, All, ◌%◌, some, ℕ, ◌+◌, ◌*◌, ◌≤◌, ◌<◌, ◌≡◌, refl, ◌≢◌,
  false, [], ◌∷◌, arith, ◌==◌, ==_refl, ==_of_ne,
}
use staxus.Memory.Bytes.{Bytes}
use staxus.Memory.Identity.{
  Heap, header_size, min_addr, u64_mod, mul64, size_of, set_size, set_next, set_flags, clip,
  add_region,
}
use staxus.Memory.Identity.Header.{
  size-set_size, size-set_next, size-set_flags, SameHeader-set_next,
}
use staxus.Memory.Identity.Blocks.{Block, block, end_of, Chain, Fits, IsHeap, Separate}
use staxus.Memory.Identity.Free.{cleared, clear_at-Chain, join_at-Chain}
use staxus.Memory.Identity.Kept.{clear_at-FreeAt}
use staxus.Memory.Identity.Previous.{
  find_prev-prev_of, merge_prev_null, free_at-eq, idalloc_free-eq,
}
use staxus.Memory.Identity.Release.{merge_next, idalloc_free}
use staxus.Memory.Identity.Join.{join_at, clear_at}

-- `b` with the bytes of `c` and its header.
abbrev pub swallowed : Block → Block → Block
swallowed b c = block b.at (b.size + (c.size + header_size)) false

joined-eq :
    (b c : Block)
    → b.at ≢ c.at
    → c.used ≡ false
    → join_at b.at (clear_at b.at (b ∷ c ∷ [])) ≡ swallowed b c ∷ []
joined-eq b c ne free = simp (==_refl b.at, free, ==_of_ne c.at b.at (ground arith)) refl

-- When a region's only block is freed while the first block of a region above it is free, idalloc_free
-- joins the two although there is a hole between them. The chain is then one free block that reaches
-- into the hole, and stops short of the end of the upper region.
pub free_gap :
    (fuel : ℕ) (h : Heap) (b c : Block)
    → IsHeap h.mem h.first_block (b ∷ c ∷ [])
    → end_of b < c.at
    → c.used ≡ false
    → 2 < fuel
    → (after : Bytes) × (idalloc_free fuel (b.at + header_size) h ≡ some (record h { mem = after }))
      × Chain after h.first_block (swallowed b c ∷ [])
      × (end_of b < end_of (swallowed b c))
      × (end_of (swallowed b c) < end_of c)
free_gap fuel h b c is gap free enough =
    let bs = b ∷ c ∷ [] in
    let q = b.at in
    let m1 = cleared q h.mem in
    let fits : All Fits bs = is.fits in
    let chain1 = clear_at-Chain q h.mem h.first_block bs is.chain is.separate (inl refl) in
    let there = clear_at-FreeAt q bs (inl refl) in
    let same : clear_at q bs ≡ block b.at b.size false ∷ c ∷ [] =
      simp (==_refl b.at, ==_of_ne c.at b.at (omega arith)) refl in
    let step =
      join_at-Chain q h.first_block m1 (clear_at q bs) chain1
        (subst Separate (sym same) (is.separate.0, is.separate.1))
        (subst (All Fits) (sym same) (fits.0, fits.1)) there in
    let chain2 : Chain (merge_next q m1) h.first_block (swallowed b c ∷ []) =
      rw (joined-eq b c (omega arith) free) at step.chain in
    let found =
      find_prev-prev_of fuel q h.first_block (merge_next q m1) (swallowed b c ∷ []) chain2
        ((omega arith, omega arith), tt) (omega (arith, fits.0)) (omega arith) in
    (
      merge_next q m1,
      idalloc_free-eq fuel q h (merge_next q m1) (
          free_at-eq fuel h.first_block q 0 h.mem found
          ∙ ap some (merge_prev_null (merge_next q m1) q)),
      chain2,
      omega arith,
      omega arith,
    )

add_region-size :
    (addr pages last : ℕ) (h : Heap)
    → pages * 4096 < u64_mod
    → last + header_size ≤ addr
    → size_of (add_region addr pages (last, h)).1.mem addr ≡ pages * 4096
unfolding add_region
add_region-size addr pages last h fits below =
    let m1 = set_size h.mem addr (mul64 pages 4096) in
    let m2 = set_next m1 addr 0 in
    let m3 = set_flags m2 addr 0 in
    let written : size_of m3 addr ≡ pages * 4096 =
      size-set_flags m2 addr 0
      ∙ size-set_next m1 addr 0
      ∙ omega (arith, size-set_size h.mem addr (mul64 pages 4096)) in
    elim (Bool-cases (last == 0)) [
      | inl first ↦ rw first written
      | inr later ↦ rw later ((SameHeader-set_next m3 last addr addr (omega arith)).size ∙ written)
    ]

-- The bytes of the block that idalloc_init makes of a region end `sizeof(BlockHeader)` bytes behind the
-- region's end, since the header is not taken off its size.
add_region_overrun :
    (addr pages last : ℕ) (h : Heap)
    → addr + pages * 4096 + header_size < u64_mod
    → last + header_size ≤ addr
    → addr + header_size + size_of (add_region addr pages (last, h)).1.mem addr
      ≡ addr + pages * 4096 + header_size
add_region_overrun addr pages last h fits below =
    omega (arith, add_region-size addr pages last h (omega arith) below)

-- What `clip` keeps of a page-aligned region lies at or above `min_addr` and ends where the region ends.
clip_bounds :
    (addr pages addr' pages' : ℕ)
    → addr % 4096 ≡ 0
    → addr + pages * 4096 < u64_mod
    → clip addr pages ≡ some (addr', pages')
    → (min_addr ≤ addr') × (addr ≤ addr') × (addr' + pages' * 4096 ≡ addr + pages * 4096)
unfolding clip
clip_bounds addr pages addr' pages' aligned fits h = ground arith
