-- ===== src/Memory/Identity/Previous.antt =====
-- The second half of idalloc_free: the block in front, and the whole call.
use staxus.Base.{
  ℕ, zero, suc, ◌+◌, ◌-◌, ◌≤◌, ◌<◌, ◌≡◌, refl, sym, subst, ap, ◌∙◌, ◌≢◌, ◌⊎◌, inl, inr, true, false,
  some, List, [], ◌∷◌, arith, Bool-cases, ==_iff, ==_refl, ==_of_ne, ◌==◌, All, length,
}
use staxus.Memory.Bytes.{Bytes, load8}
use staxus.Memory.Identity.{header_size, next_of, in_use, Heap}
use staxus.Memory.Identity.Header.{next-set_size}
use staxus.Memory.Identity.Blocks.{Block, Apart, Separate, Fits, Chain, IsHeap}
use staxus.Memory.Identity.Join.{
  clear_at, join_at, prev_of, release, Adjacent, Has, Adjacent-Separate, join_at-Adjacent,
  join_at-Fits, clear_at-Adjacent, clear_at-Fits,
}
use staxus.Memory.Identity.Free.{FreeAt, join_at-Chain, cleared, cleared_spared, clear_at-Chain}
use staxus.Memory.Identity.Release.{merge_next, find_prev, merge_prev, free_at, idalloc_free}
use staxus.Memory.Identity.Kept.{
  clear_at-FreeAt, join_at-FreeAt, clear_at-All, join_at-All, length-join_at, length-clear_at,
}

pub find_prev-prev_of :
    (f h p : ℕ) (m : Bytes) (bs : List Block)
    → Chain m p bs
    → All Fits bs
    → h ≢ 0
    → length bs < f
    → find_prev f h p m ≡ some (prev_of h bs)
unfolding find_prev
find_prev-prev_of zero h p m bs c fits ne fuel = absurd (omega arith)
find_prev-prev_of (suc f) h p m [] c fits ne fuel = rw c
find_prev-prev_of (suc f) h p m (b ∷ []) (e, s, u, c) fits ne fuel =
    rw (e, ==_of_ne b.at 0 (omega arith), c, ==_of_ne 0 h (omega arith))
      (find_prev-prev_of f h 0 m [] refl tt ne (omega arith))
find_prev-prev_of (suc f) h p m (b ∷ d ∷ ds) (e, s, u, c) fits ne fuel =
    let link : next_of m b.at ≡ d.at = c.0 in
    let rest = find_prev-prev_of f h (next_of m b.at) m (d ∷ ds) c fits.1 ne (omega arith) in
    rw (e, ==_of_ne b.at 0 (omega arith), rest, link)
      (elim (Bool-cases (d.at == h)) [ inl here ↦ rw here | inr there ↦ rw there ])

-- The block at `q` is there, and used.
abbrev UsedAt : ℕ → List Block → Type 0
UsedAt q [] = ⊥
UsedAt q (b ∷ bs) = ((b.at ≡ q) × (b.used ≡ true)) ⊎ UsedAt q bs

UsedAt-Apart : (b : Block) (q : ℕ) (bs : List Block) → All (Apart b) bs → UsedAt q bs → b.at ≢ q
UsedAt-Apart b q [] apart there = elim there [ ]
UsedAt-Apart b q (c ∷ cs) apart (inl (e, u)) = omega arith
UsedAt-Apart b q (c ∷ cs) apart (inr there) = UsedAt-Apart b q cs apart.1 there

join_at_used : (q : ℕ) (bs : List Block) → Separate bs → UsedAt q bs → join_at q bs ≡ bs
join_at_used q [] sep there = refl
join_at_used q (b ∷ bs) sep (inl (e, u)) = simp (e, ==_refl q, u)
join_at_used q (b ∷ bs) (apart, sep) (inr there) =
    rw (==_of_ne b.at q (UsedAt-Apart b q bs apart there))
      (ap (λ r. b ∷ r) (join_at_used q bs sep there))

join_at_null : (bs : List Block) → All Fits bs → join_at 0 bs ≡ bs
join_at_null [] fits = refl
join_at_null (b ∷ bs) (fit_b, fits) =
    rw (==_of_ne b.at 0 (omega arith)) (ap (λ r. b ∷ r) (join_at_null bs fits))

-- What the memory says of the block in front of `h`.
abbrev Before : Bytes → ℕ → ℕ → List Block → Type 0
Before m h q bs =
    (next_of m q ≡ h)
    × (q ≢ 0)
    × (((in_use m q ≡ false) × FreeAt q bs) ⊎ ((in_use m q ≡ true) × UsedAt q bs))

Before-cons :
    (m : Bytes) (h q : ℕ) (b : Block) (bs : List Block) → Before m h q bs → Before m h q (b ∷ bs)
Before-cons m h q b bs (e, ne, inl (f, there)) = (e, ne, inl (f, inr there))
Before-cons m h q b bs (e, ne, inr (u, there)) = (e, ne, inr (u, inr there))

abbrev Found : Bytes → ℕ → List Block → ℕ → Type 0
Found m h bs q = (q ≡ 0) ⊎ Before m h q bs

prev_of-here :
    (h : ℕ) (b d : Block) (ds : List Block) → (d.at == h) ≡ true → prev_of h (b ∷ d ∷ ds) ≡ b.at
prev_of-here h b d ds e = rw e

prev_of-there :
    (h : ℕ) (b d : Block) (ds : List Block)
    → (d.at == h) ≡ false
    → prev_of h (b ∷ d ∷ ds) ≡ prev_of h (d ∷ ds)
prev_of-there h b d ds e = rw e

prev_of-Found :
    (h p : ℕ) (m : Bytes) (bs : List Block)
    → Chain m p bs
    → All Fits bs
    → Found m h bs (prev_of h bs)
prev_of-Found h p m [] c fits = inl refl
prev_of-Found h p m (b ∷ []) c fits = inl refl
prev_of-Found h p m (b ∷ d ∷ ds) (e, s, u, c) (fit_b, fits) = elim (Bool-cases (d.at == h)) [
  | inl here ↦ subst (Found m h (b ∷ d ∷ ds)) (sym (prev_of-here h b d ds here)) (
      inr (
        c.0 ∙ (==_iff _ _).0 here,
        omega arith,
        elim (Bool-cases b.used) [
          | inl used ↦ inr (u ∙ used, inl (refl, used))
          | inr free ↦ inl (u ∙ free, inl (refl, free))
        ],
      ))
  | inr there ↦
      subst (Found m h (b ∷ d ∷ ds)) (sym (prev_of-there h b d ds there))
        (elim (prev_of-Found h (next_of m b.at) m (d ∷ ds) c fits) [
          | inl null ↦ inl null
          | inr before ↦ inr (Before-cons m h (prev_of h (d ∷ ds)) b (d ∷ ds) before)
        ])
]

-- A free block in front takes the freed one in, as `merge_next` would.
merge_prev_free :
    (m : Bytes) (q h : ℕ)
    → q ≢ 0
    → h ≢ 0
    → next_of m q ≡ h
    → in_use m q ≡ false
    → in_use m h ≡ false
    → merge_prev q h m ≡ merge_next q m
unfolding merge_prev merge_next
merge_prev_free m q h nq nh link fq fh =
    rw (==_of_ne q 0 nq, fq, link, fh, ==_of_ne h 0 nh, next-set_size m q _, link)

merge_prev_used : (m : Bytes) (q h : ℕ) → in_use m q ≡ true → merge_prev q h m ≡ m
unfolding merge_prev
merge_prev_used m q h u = rw u (ground arith)

pub merge_prev_null : (m : Bytes) (h : ℕ) → merge_prev 0 h m ≡ m
unfolding merge_prev
merge_prev_null m h = refl

-- The facts that the second half starts from: a row of adjacent blocks, with the one at `h` free.
record Row (m : Bytes) (p : ℕ) (bs : List Block) : Type 0 where
  chain : Chain m p bs
  adjacent : Adjacent bs
  fits : All Fits bs

FreeAt-ne : (h : ℕ) (bs : List Block) → All Fits bs → FreeAt h bs → h ≢ 0
FreeAt-ne h [] fits there = elim there [ ]
FreeAt-ne h (b ∷ bs) (fit_b, fits) (inl (e, f)) = omega arith
FreeAt-ne h (b ∷ bs) (fit_b, fits) (inr there) = FreeAt-ne h bs fits there

FreeAt-in_use :
    (h p : ℕ) (m : Bytes) (bs : List Block) → Chain m p bs → FreeAt h bs → in_use m h ≡ false
FreeAt-in_use h p m [] c there = elim there [ ]
FreeAt-in_use h p m (b ∷ bs) (e, s, u, c) (inl (at_h, f)) = rw at_h at (u ∙ f)
FreeAt-in_use h p m (b ∷ bs) (e, s, u, c) (inr there) =
    FreeAt-in_use h (next_of m b.at) m bs c there

-- The address lies in none of the headers.
abbrev pub OutsideHeaders : List Block → ℕ → Type 0
OutsideHeaders bs a = All (λ b. (a < b.at) ⊎ (b.at + header_size ≤ a)) bs

FreeAt-outside :
    (q a : ℕ) (bs : List Block)
    → FreeAt q bs
    → OutsideHeaders bs a
    → (a < q) ⊎ (q + header_size ≤ a)
FreeAt-outside q a [] there out = elim there [ ]
FreeAt-outside q a (b ∷ bs) (inl (e, f)) out = omega (arith, out.0)
FreeAt-outside q a (b ∷ bs) (inr there) out = FreeAt-outside q a bs there out.1

merge_prev-Row :
    (h p : ℕ) (m : Bytes) (bs : List Block)
    → Row m p bs
    → FreeAt h bs
    → Row (merge_prev (prev_of h bs) h m) p (join_at (prev_of h bs) bs)
      × ((a : ℕ) → OutsideHeaders bs a → load8 (merge_prev (prev_of h bs) h m) a ≡ load8 m a)
merge_prev-Row h p m bs r free = elim (prev_of-Found h p m bs r.chain r.fits) [
  | inl null ↦ rw (null, join_at_null bs r.fits, merge_prev_null m h) (r, λ a out. refl)
  | inr (link, ne, inl (f, there)) ↦
      let joined =
        join_at-Chain (prev_of h bs) p m bs r.chain (Adjacent-Separate bs r.adjacent) r.fits
          there in
      rw
        (merge_prev_free m (prev_of h bs) h ne (FreeAt-ne h bs r.fits free) link f
          (FreeAt-in_use h p m bs r.chain free))
        (
          record {
            chain = joined.chain;
            adjacent = join_at-Adjacent (prev_of h bs) bs r.adjacent;
            fits = join_at-Fits (prev_of h bs) bs r.adjacent r.fits;
          },
          λ a out. joined.spared a (FreeAt-outside (prev_of h bs) a bs there out),
        )
  | inr (link, ne, inr (u, there)) ↦
      rw
        (
          join_at_used (prev_of h bs) bs (Adjacent-Separate bs r.adjacent) there,
          merge_prev_used m (prev_of h bs) h u,
        )
        (r, λ a out. refl)
]

pub free_at-eq :
    (fuel first q prev : ℕ) (m : Bytes)
    → find_prev fuel q first (merge_next q (cleared q m)) ≡ some prev
    → free_at fuel first q m ≡ some (merge_prev prev q (merge_next q (cleared q m)))
unfolding free_at
free_at-eq fuel first q prev m found = rw (found, free_at)

pub idalloc_free-eq :
    (fuel q : ℕ) (h : Heap) (after : Bytes)
    → free_at fuel h.first_block q h.mem ≡ some after
    → idalloc_free fuel (q + header_size) h ≡ some (record h { mem = after })
unfolding idalloc_free
idalloc_free-eq fuel q h after e =
    let back : q + header_size - header_size ≡ q = omega arith in
    rw (==_of_ne (q + header_size) 0 (omega arith), back, e)

-- On a heap whose blocks lie one behind the other, given enough fuel, idalloc_free of a block's pointer
-- ends; the blocks afterwards are those of `release` (the block is free and joined with its free
-- neighbours), still one behind the other, and no byte outside the headers has changed.
pub free_refines :
    (fuel q : ℕ) (h : Heap) (bs : List Block)
    → IsHeap h.mem h.first_block bs
    → Adjacent bs
    → Has q bs
    → length bs < fuel
    → (after : Bytes) × (idalloc_free fuel (q + header_size) h ≡ some (record h { mem = after }))
      × IsHeap after h.first_block (release q bs)
      × Adjacent (release q bs)
      × ((a : ℕ) → OutsideHeaders bs a → load8 after a ≡ load8 h.mem a)
unfolding release
free_refines fuel q h bs is adj there enough =
    let start = h.first_block in
    let marked = clear_at q bs in
    let m1 = cleared q h.mem in
    let free = clear_at-FreeAt q bs there in
    let adj1 = clear_at-Adjacent q bs adj in
    let fits1 = clear_at-Fits q bs is.fits in
    let step =
      join_at-Chain q start m1 marked (clear_at-Chain q h.mem start bs is.chain is.separate there)
        (Adjacent-Separate marked adj1) fits1 free in
    let joined = join_at q marked in
    let m2 = merge_next q m1 in
    let row : Row m2 start joined = record {
      chain = step.chain;
      adjacent = join_at-Adjacent q marked adj1;
      fits = join_at-Fits q marked adj1 fits1;
    } in
    let still = join_at-FreeAt q marked (Adjacent-Separate marked adj1) free in
    let last = merge_prev-Row q start m2 joined row still in
    let found =
      find_prev-prev_of fuel q start m2 joined row.chain row.fits
        (FreeAt-ne q joined row.fits still)
        (omega (arith, length-join_at q marked, length-clear_at q bs)) in
    let prev = prev_of q joined in
    (
      merge_prev prev q m2,
      idalloc_free-eq fuel q h _ (free_at-eq fuel start q prev h.mem found),
      record {
        chain = last.0.chain;
        separate = Adjacent-Separate (join_at prev joined) last.0.adjacent;
        fits = last.0.fits;
      },
      last.0.adjacent,
      λ a out.
          let out1 = clear_at-All (λ p. (a < p) ⊎ (p + header_size ≤ a)) q bs out in
          last.1 a (join_at-All (λ p. (a < p) ⊎ (p + header_size ≤ a)) q marked out1)
          ∙ step.spared a (FreeAt-outside q a marked free out1)
          ∙ cleared_spared q h.mem a (FreeAt-outside q a marked free out1),
    )
