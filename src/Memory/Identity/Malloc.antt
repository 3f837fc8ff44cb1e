-- ===== src/Memory/Identity/Malloc.antt =====
-- idalloc_malloc is first fit on the blocks of the chain.
use staxus.Base.{
  ℕ, zero, suc, ◌+◌, ◌≤◌, ◌<◌, ◌≡◌, refl, ◌∙◌, ◌⊎◌, inl, inr, true, false, ◌||◌, Option, some, List,
  [], ◌∷◌, arith, ltb, ltb→lt, ltb→le, Bool-cases, ==_of_ne, All, All-map, length, bit_or,
}
use staxus.Memory.Bytes.{Bytes, load8}
use staxus.Memory.Identity.{
  header_size, next_of, flags_of, set_flags, split_block, mark_used, malloc_from, idalloc_malloc,
  Heap,
}
use staxus.Memory.Identity.Header.{
  SameHeader, Agree-SameHeader, size-set_flags, next-set_flags, load8-set_flags,
  SameHeader-set_flags, in_use-mark_used, in_use-same, in_use_zero,
}
use staxus.Memory.Identity.Split.{IsCut, split_small, split_large}
use staxus.Memory.Identity.Fit.{
  fit_nil, fit_skip, fit_take, fit-Separate, fit-Fits, fit-Handed, Handed,
}
use staxus.Memory.Identity.Blocks.{
  Block, end_of, Apart, Separate, Fits, Chain, IsHeap, carve, fit, OutsideFree,
}

-- A chain whose headers are unchanged is still that chain.
pub Chain-frame :
    (n m : Bytes) (p : ℕ) (bs : List Block)
    → Chain m p bs
    → All (λ b. SameHeader n m b.at) bs
    → Chain n p bs
Chain-frame n m p [] c h = c
Chain-frame n m p (b ∷ bs) (e, s, u, rest) (h, hs) = (
  e,
  h.size ∙ s,
  in_use-same n m b.at h.flags ∙ u,
  rw h.next (Chain-frame n m (next_of m b.at) bs rest hs),
)

-- A change inside one block leaves the headers of the blocks apart from it.
pub SameHeader-Apart :
    (n m : Bytes) (b : Block) (bs : List Block)
    → ((a : ℕ) → (a < b.at) ⊎ (end_of b ≤ a) → load8 n a ≡ load8 m a)
    → All (Apart b) bs
    → All (λ c. SameHeader n m c.at) bs
SameHeader-Apart n m b bs spared apart =
    All-map _ _ bs (λ c out. Agree-SameHeader n m c.at (λ a i j. spared a (omega arith))) apart

-- Handing out the free block `b` at the front of a chain.
record Taken (m n : Bytes) (size : ℕ) (b : Block) (bs : List Block) : Type 0 where
  chain : Chain n b.at (carve size b bs)
  spared : (a : ℕ) → (a < b.at) ⊎ (end_of b ≤ a) → load8 n a ≡ load8 m a

module _ (m : Bytes) (size : ℕ) (b : Block) (bs : List Block) (c : Chain m b.at (b ∷ bs))
    (fits : Fits b) (enough : size ≤ b.size) (apart : All (Apart b) bs) where
  Taken-whole :
      ltb (size + header_size) b.size ≡ false
      → Taken m (mark_used b.at (split_block b.at size m)) size b bs
  unfolding mark_used
  Taken-whole small =
      let f = bit_or (flags_of m b.at) 1 in
      let spared : (a : ℕ)
          → (a < b.at) ⊎ (end_of b ≤ a)
          → load8 (set_flags m b.at f) a ≡ load8 m a =
        λ a out. load8-set_flags m b.at f a (omega arith) in
      let whole : split_block b.at size m ≡ m =
        split_small b.at size m (omega (arith, c.1)) (omega (arith, c.1))
          (omega (arith, c.1, ltb→le _ _ small)) in
      rw whole (record {
        chain = rw small (
          refl,
          size-set_flags m b.at f ∙ c.1,
          in_use-mark_used m b.at,
          rw (next-set_flags m b.at f) (
              Chain-frame (set_flags m b.at f) m (next_of m b.at) bs c.3
                (SameHeader-Apart (set_flags m b.at f) m b bs spared apart)),
        );
        spared = spared;
      })

  Taken-cut :
      ltb (size + header_size) b.size ≡ true
      → Taken m (mark_used b.at (split_block b.at size m)) size b bs
  unfolding mark_used
  Taken-cut big =
      let n1 = split_block b.at size m in
      let f = bit_or (flags_of n1 b.at) 1 in
      let n = set_flags n1 b.at f in
      let new = b.at + header_size + size in
      let cut : IsCut b.at size m n1 =
        split_large b.at size m (omega (arith, c.1)) (omega (arith, c.1))
          (omega (arith, c.1, ltb→lt _ _ big)) in
      let spared : (a : ℕ) → (a < b.at) ⊎ (end_of b ≤ a) → load8 n a ≡ load8 m a =
        λ a out. load8-set_flags n1 b.at f a (omega arith) ∙ cut.spared a (omega (arith, c.1)) in
      let behind : SameHeader n n1 new = SameHeader-set_flags n1 b.at f new (omega arith) in
      record {
        chain = rw big (
          refl,
          size-set_flags n1 b.at f ∙ cut.front_size,
          in_use-mark_used n1 b.at,
          (
            next-set_flags n1 b.at f ∙ cut.front_next,
            omega (arith, behind.size, cut.rest_size, c.1),
            in_use_zero n new (behind.flags ∙ cut.rest_flags),
            rw (behind.next, cut.rest_next)
                (Chain-frame n m (next_of m b.at) bs c.3 (SameHeader-Apart n m b bs spared apart)),
          ),
        );
        spared = spared;
      }

  take_block : Taken m (mark_used b.at (split_block b.at size m)) size b bs
  take_block = elim (Bool-cases (ltb (size + header_size) b.size)) [
    | inl big ↦ Taken-cut big
    | inr small ↦ Taken-whole small
  ]

-- The walk from `p` ends, with the result of first fit, and changes only free blocks.
record Served (m : Bytes) (size p : ℕ) (bs : List Block) (r : Option (ℕ × Bytes)) : Type 0 where
  after : Bytes
  served : r ≡ some ((fit size bs).0, after)
  chain : Chain after p (fit size bs).1
  spared : (a : ℕ) → OutsideFree bs a → load8 after a ≡ load8 m a

OutsideFree_apart :
    (b : Block) (bs : List Block) (a : ℕ)
    → b.at ≤ a
    → a < end_of b
    → All (Apart b) bs
    → OutsideFree bs a
OutsideFree_apart b bs a i j apart = All-map _ _ bs (λ c out. inr (omega arith)) apart

malloc_from-Served :
    (f size p : ℕ) (m : Bytes) (bs : List Block)
    → Chain m p bs
    → Separate bs
    → All Fits bs
    → length bs < f
    → Served m size p bs (malloc_from f size p m)
unfolding malloc_from
malloc_from-Served zero size p m bs c sep fits fuel = absurd (omega arith)
malloc_from-Served (suc f) size p m [] c sep fits fuel = rw c (record {
  after = m;
  served = rw (fit_nil size);
  chain = rw (fit_nil size);
  spared = λ a out. refl;
})
malloc_from-Served (suc f) size p m (b ∷ bs) (e, s, u, rest) (apart, sep) (fit_b, fits) fuel =
    rw (e, ==_of_ne b.at 0 (omega arith), s, u)
      (elim (Bool-cases (ltb b.size size || b.used)) [
        | inl skip ↦
            let ih = malloc_from-Served f size (next_of m b.at) m bs rest sep fits (omega arith) in
            let here : SameHeader ih.after m b.at =
              Agree-SameHeader ih.after m b.at
                (λ a i j. ih.spared a (OutsideFree_apart b bs a i (omega arith) apart)) in
            rw skip (record {
              after = ih.after;
              served = rw (fit_skip size b bs skip) ih.served;
              chain = rw (fit_skip size b bs skip) (
                refl,
                here.size ∙ s,
                in_use-same ih.after m b.at here.flags ∙ u,
                rw here.next ih.chain,
              );
              spared = λ a out. ih.spared a out.1;
            })
        | inr take ↦
            let taken = take_block m size b bs (refl, s, u, rest) fit_b (ground arith) apart in
            rw take (record {
              after = mark_used b.at (split_block b.at size m);
              served = rw (fit_take size b bs take);
              chain = rw (fit_take size b bs take) taken.chain;
              spared = λ a out. taken.spared a (ground (arith, out.0));
            })
      ])

-- On a heap, asked for at least one byte and given more fuel than there are blocks, idalloc_malloc
-- returns the pointer that first fit gives (null only if no free block is large enough); the heap
-- afterwards is a heap with the blocks that first fit leaves, and no byte outside the free blocks has
-- changed.
pub malloc_refines :
    (fuel size : ℕ) (h : Heap) (bs : List Block)
    → IsHeap h.mem h.first_block bs
    → 0 < size
    → length bs < fuel
    → (after : Bytes) × (idalloc_malloc fuel size h
        ≡ some ((fit size bs).0, record h { mem = after }))
      × IsHeap after h.first_block (fit size bs).1
      × ((a : ℕ) → OutsideFree bs a → load8 after a ≡ load8 h.mem a)
unfolding idalloc_malloc
malloc_refines fuel size h bs is pos_size enough =
    let s =
      malloc_from-Served fuel size h.first_block h.mem bs is.chain is.separate is.fits enough in
    (
      s.after,
      rw (==_of_ne size 0 (omega arith), s.served),
      record {
        chain = s.chain;
        separate = fit-Separate size bs is.separate is.fits;
        fits = fit-Fits size bs is.fits;
      },
      s.spared,
    )

-- On a heap, a call of idalloc_malloc for at least one byte, with more fuel than there are blocks, that
-- returns `p` either returns null, and then no block was free and large enough, or returns `size` bytes of
-- what was a free block, which now belong to a used block; the memory is then again a heap.
pub malloc-Handed :
    (fuel size p : ℕ) (h h' : Heap) (bs : List Block)
    → IsHeap h.mem h.first_block bs
    → 0 < size
    → length bs < fuel
    → idalloc_malloc fuel size h ≡ some (p, h')
    → Handed size bs (p, (fit size bs).1) × IsHeap h'.mem h'.first_block (fit size bs).1
malloc-Handed fuel size p h h' bs is pos_size enough eq =
    let (after, served, is', spared) = malloc_refines fuel size h bs is pos_size enough in
    let same_p : p ≡ (fit size bs).0 = cc in
    let same_h : h' ≡ record h { mem = after } = cc in rw (same_p, same_h) (fit-Handed size bs, is')
