-- ===== src/Memory/Identity/Free.antt =====
-- idalloc_free is release on the blocks of the chain.
use staxus.Base.{
  ℕ, ◌+◌, ◌≤◌, ◌<◌, ◌≡◌, refl, ap, ◌∙◌, ◌≢◌, ◌⊎◌, inl, inr, false, List, [], ◌∷◌, arith, Bool-cases,
  ==_refl, ==_of_ne, ◌==◌, All, All-map, bit_and,
}
use staxus.Memory.Bytes.{Bytes, load8}
use staxus.Memory.Identity.{
  header_size, add64, size_of, next_of, flags_of, set_size, set_next, set_flags, in_use,
}
use staxus.Memory.Identity.Header.{
  SameHeader, Agree-SameHeader, size-set_size, next-set_next, next-set_size, flags-set_size,
  size-set_next, flags-set_next, size-set_flags, next-set_flags, load8-set_size, load8-set_next,
  load8-set_flags, SameHeader-set_size, SameHeader-set_flags, in_use-clear, in_use-same, next_of-lt,
}
use staxus.Memory.Identity.Blocks.{Block, block, end_of, Apart, Separate, Fits, Chain}
use staxus.Memory.Identity.Malloc.{Chain-frame, SameHeader-Apart}
use staxus.Memory.Identity.Join.{clear_at, join, join_at, Has}
use staxus.Memory.Identity.Release.{merge_next}

-- `n` is `m` but for the header at `p`, and holds the chain.
pub record Rewritten (m n : Bytes) (p start : ℕ) (bs : List Block) : Type 0 where
  pub chain : Chain n start bs
  pub spared : (a : ℕ) → (a < p) ⊎ (p + header_size ≤ a) → load8 n a ≡ load8 m a

module _ (m : Bytes) (b c : Block) (cs : List Block) (chain : Chain m b.at (b ∷ c ∷ cs))
    (apart : Apart b c) (aparts : All (Apart b) cs) (fit_b : Fits b) (fit_c : Fits c) where
  abbrev grown : ℕ
  grown = add64 (size_of m b.at) (add64 (size_of m (next_of m b.at)) header_size)

  abbrev merged : Bytes
  merged = let m1 = set_size m b.at grown in set_next m1 b.at (next_of m1 (next_of m1 b.at))

  merged-Rewritten :
      Rewritten m merged b.at b.at (block b.at (b.size + (c.size + header_size)) b.used ∷ cs)
  merged-Rewritten =
      let m1 = set_size m b.at grown in
      let next = next_of m1 (next_of m1 b.at) in
      let n = set_next m1 b.at next in
      let link : next_of m b.at ≡ c.at = chain.3.0 in
      let sizes : grown ≡ b.size + (c.size + header_size) =
        rw link (omega (arith, chain.1, chain.3.1)) in
      let behind : SameHeader m1 m c.at = SameHeader-set_size m b.at grown c.at (omega arith) in
      let next_eq : next ≡ next_of m c.at =
        ap (next_of m1) (next-set_size m b.at grown ∙ link) ∙ behind.next in
      let spared : (a : ℕ) → (a < b.at) ⊎ (b.at + header_size ≤ a) → load8 n a ≡ load8 m a =
        λ a out. load8-set_next m1 b.at next a out ∙ load8-set_size m b.at grown a out in
      record {
        chain = (
          refl,
          omega (arith, size-set_next m1 b.at next, size-set_size m b.at grown, sizes),
          in_use-same n m b.at (flags-set_next m1 b.at next ∙ flags-set_size m b.at grown)
              ∙ chain.2,
          let after : next_of n b.at ≡ next_of m c.at =
                omega (arith, next-set_next m1 b.at next, next_of-lt m c.at, next_eq) in
              rw after (
                Chain-frame n m (next_of m c.at) cs chain.3.3
                  (SameHeader-Apart n m b cs (λ a out. spared a (omega arith)) aparts)),
        );
        spared = spared;
      }

-- `merge_next` at the head of a chain is `join`.
merge_next_head :
    (m : Bytes) (b : Block) (bs : List Block)
    → Chain m b.at (b ∷ bs)
    → All (Apart b) bs
    → Fits b
    → All Fits bs
    → Rewritten m (merge_next b.at m) b.at b.at (join b bs)
unfolding merge_next
merge_next_head m b [] c apart fit_b fits = rw c.3 (record { chain = c; spared = λ a out. refl })
merge_next_head m b (d ∷ ds) c apart fit_b fits =
    let link : next_of m b.at ≡ d.at = c.3.0 in
    let some_next : (next_of m b.at == 0) ≡ false = ==_of_ne _ 0 (omega (arith, link)) in
    let flag : in_use m (next_of m b.at) ≡ d.used = ap (in_use m) link ∙ c.3.2 in
    elim (Bool-cases d.used) [
      | inl used ↦ simp (some_next, flag, used) (record { chain = c; spared = λ a out. refl })
      | inr free ↦
          simp (some_next, flag, free) (merged-Rewritten m b d ds c apart.0 apart.1 fit_b fits.0)
    ]

-- The block at `q` is there, and free.
abbrev pub FreeAt : ℕ → List Block → Type 0
FreeAt q [] = ⊥
FreeAt q (b ∷ bs) = ((b.at ≡ q) × (b.used ≡ false)) ⊎ FreeAt q bs

-- The header at `q`, in one of the blocks, is apart from those that are apart from the blocks.
pub FreeAt-Apart :
    (b : Block) (q : ℕ) (bs : List Block)
    → All (Apart b) bs
    → FreeAt q bs
    → (q + header_size ≤ b.at) ⊎ (end_of b ≤ q)
FreeAt-Apart b q [] apart there = elim there [ ]
FreeAt-Apart b q (c ∷ cs) apart (inl (e, f)) = omega arith
FreeAt-Apart b q (c ∷ cs) apart (inr there) = FreeAt-Apart b q cs apart.1 there

pub join_at-Chain :
    (q p : ℕ) (m : Bytes) (bs : List Block)
    → Chain m p bs
    → Separate bs
    → All Fits bs
    → FreeAt q bs
    → Rewritten m (merge_next q m) q p (join_at q bs)
join_at-Chain q p m [] c sep fits there = elim there [ ]
join_at-Chain q p m (b ∷ bs) (e, s, u, c) (apart, sep) (fit_b, fits) (inl (at_q, free)) =
    simp (e, ← at_q, ==_refl b.at, free) (merge_next_head m b bs (refl, s, u, c) apart fit_b fits)
join_at-Chain q p m (b ∷ bs) (e, s, u, c) (apart, sep) (fit_b, fits) (inr there) =
    let out = FreeAt-Apart b q bs apart there in
    let ih = join_at-Chain q (next_of m b.at) m bs c sep fits there in
    let n = merge_next q m in
    let same : SameHeader n m b.at =
      Agree-SameHeader n m b.at (λ a i j. ih.spared a (omega arith)) in
    rw (==_of_ne b.at q (omega arith)) (record {
      chain = (e, same.size ∙ s, in_use-same n m b.at same.flags ∙ u, rw same.next ih.chain);
      spared = ih.spared;
    })

pub Has-Apart :
    (b : Block) (q : ℕ) (bs : List Block)
    → All (Apart b) bs
    → Has q bs
    → (q + header_size ≤ b.at) ⊎ (end_of b ≤ q)
Has-Apart b q [] apart there = elim there [ ]
Has-Apart b q (c ∷ cs) apart (inl e) = omega arith
Has-Apart b q (c ∷ cs) apart (inr there) = Has-Apart b q cs apart.1 there

-- Clearing the flag of a block.
clear_at_absent :
    (q : ℕ) (b : Block) (bs : List Block) → All (λ c. c.at ≢ q) bs → clear_at q bs ≡ bs
clear_at_absent q b [] h = refl
clear_at_absent q b (c ∷ cs) (ne, h) =
    rw (==_of_ne c.at q ne) (ap (λ r. c ∷ r) (clear_at_absent q b cs h))

module _ (q : ℕ) (m : Bytes) where
  abbrev pub cleared : Bytes
  cleared = set_flags m q (bit_and (flags_of m q) 0xfe)

  pub cleared_spared : (a : ℕ) → (a < q) ⊎ (q + header_size ≤ a) → load8 cleared a ≡ load8 m a
  cleared_spared a out = load8-set_flags m q _ a out

  pub clear_at-Chain :
      (p : ℕ) (bs : List Block)
      → Chain m p bs
      → Separate bs
      → Has q bs
      → Chain cleared p (clear_at q bs)
  clear_at-Chain p [] c sep there = elim there [ ]
  clear_at-Chain p (b ∷ bs) (e, s, u, c) (apart, sep) (inl at_q) =
      let rest : Chain cleared (next_of m q) bs =
        Chain-frame cleared m (next_of m q) bs (rw at_q at c)
          (SameHeader-Apart cleared m b bs (λ a out. cleared_spared a (omega arith)) apart) in
      let gone : clear_at q bs ≡ bs =
        clear_at_absent q b bs (All-map _ _ bs (λ c out. omega arith) apart) in
      simp (at_q, ==_refl q, gone)
        (
          e ∙ at_q,
          size-set_flags m q _ ∙ rw at_q at s,
          in_use-clear m q,
          rw (next-set_flags m q _) rest,
        )
  clear_at-Chain p (b ∷ bs) (e, s, u, c) (apart, sep) (inr there) =
      let out = Has-Apart b q bs apart there in
      let same : SameHeader cleared m b.at = SameHeader-set_flags m q _ b.at (omega arith) in
      rw (==_of_ne b.at q (omega arith)) (
        e,
        same.size ∙ s,
        in_use-same cleared m b.at same.flags ∙ u,
        rw same.next (clear_at-Chain (next_of m b.at) bs c sep there),
      )
