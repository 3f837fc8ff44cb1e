-- ===== src/Memory/Identity/Join.antt =====
-- Release on blocks: the block at an address is marked free and joined with free neighbours.
use staxus.Base.{
  ℕ, ◌+◌, ◌≤◌, ◌≡◌, refl, ◌⊎◌, inl, inr, false, ◌∙◌, List, [], ◌∷◌, arith, Bool-cases, ◌==◌,
  if◌then◌else◌, All, All-map,
}
use staxus.Memory.Identity.{header_size}
use staxus.Memory.Identity.Blocks.{Block, block, end_of, Separate, Fits, span}

abbrev pub clear_at : ℕ → List Block → List Block
clear_at h [] = []
clear_at h (b ∷ bs) = (if b.at == h then block b.at b.size false else b) ∷ clear_at h bs

-- `b` takes in the first of the blocks behind it, if that is free.
abbrev pub join : Block → List Block → List Block
join b [] = b ∷ []
join b (c ∷ cs) =
    if c.used then b ∷ c ∷ cs else block b.at (b.size + (c.size + header_size)) b.used ∷ cs

-- The same at the block with address `q`, if that is free itself.
abbrev pub join_at : ℕ → List Block → List Block
join_at q [] = []
join_at q (b ∷ bs) =
    let rest = join_at q bs in
    if b.at == q then (if b.used then b ∷ bs else join b bs) else b ∷ rest

-- The address of the block in front of the one at `h`, or 0.
abbrev pub prev_of : ℕ → List Block → ℕ
prev_of h [] = 0
prev_of h (b ∷ []) = 0
prev_of h (b ∷ c ∷ cs) = if c.at == h then b.at else prev_of h (c ∷ cs)

unfoldable pub release : ℕ → List Block → List Block
release h bs = let joined = join_at h (clear_at h bs) in join_at (prev_of h joined) joined

-- Each block begins where the one before it ends.
abbrev pub Adjacent : List Block → Type 0
Adjacent [] = Unit
Adjacent (b ∷ []) = Unit
Adjacent (b ∷ c ∷ cs) = (end_of b ≡ c.at) × Adjacent (c ∷ cs)

abbrev pub Has : ℕ → List Block → Type 0
Has h [] = ⊥
Has h (b ∷ bs) = (b.at ≡ h) ⊎ Has h bs

-- What follows in a row of adjacent blocks lies behind.
Adjacent-above : (b : Block) (bs : List Block) → Adjacent (b ∷ bs) → All (λ c. end_of b ≤ c.at) bs
Adjacent-above b [] adj = tt
Adjacent-above b (c ∷ cs) (e, adj) =
    (omega arith, All-map _ _ cs (λ d h. omega arith) (Adjacent-above c cs adj))

Adjacent-tail : (b : Block) (bs : List Block) → Adjacent (b ∷ bs) → Adjacent bs
Adjacent-tail b [] adj = tt
Adjacent-tail b (c ∷ cs) (e, adj) = adj

pub Adjacent-Separate : (bs : List Block) → Adjacent bs → Separate bs
Adjacent-Separate [] adj = tt
Adjacent-Separate (b ∷ bs) adj = (
  All-map _ _ bs (λ c h. inl h) (Adjacent-above b bs adj),
  Adjacent-Separate bs (Adjacent-tail b bs adj),
)

-- The first block, if there is one, begins at `x`.
abbrev Starts : ℕ → List Block → Type 0
Starts x [] = Unit
Starts x (b ∷ bs) = b.at ≡ x

Adjacent-cons :
    (b : Block) (bs : List Block) → Starts (end_of b) bs → Adjacent bs → Adjacent (b ∷ bs)
Adjacent-cons b [] s adj = tt
Adjacent-cons b (c ∷ cs) s adj = (omega arith, adj)

Adjacent-Starts : (b : Block) (bs : List Block) → Adjacent (b ∷ bs) → Starts (end_of b) bs
Adjacent-Starts b [] adj = tt
Adjacent-Starts b (c ∷ cs) adj = omega arith

join-Starts : (x : ℕ) (b : Block) (bs : List Block) → b.at ≡ x → Starts x (join b bs)
join-Starts x b [] e = e
join-Starts x b (c ∷ cs) e = elim (Bool-cases c.used) [ inl u ↦ simp u e | inr f ↦ simp f e ]

join_at-Starts : (q x : ℕ) (bs : List Block) → Starts x bs → Starts x (join_at q bs)
join_at-Starts q x [] e = tt
join_at-Starts q x (b ∷ bs) e = elim (Bool-cases (b.at == q)) [
  | inl here ↦ elim (Bool-cases b.used) [
    | inl u ↦ simp (here, u) e
    | inr f ↦ simp (here, f) (join-Starts x b bs e)
  ]
  | inr there ↦ simp there e
]

join-Adjacent : (b : Block) (bs : List Block) → Adjacent (b ∷ bs) → Adjacent (join b bs)
join-Adjacent b [] adj = tt
join-Adjacent b (c ∷ []) adj = elim (Bool-cases c.used) [ inl u ↦ simp u adj | inr f ↦ simp f tt ]
join-Adjacent b (c ∷ d ∷ ds) adj = elim (Bool-cases c.used) [
  | inl u ↦ simp u adj
  | inr f ↦ simp f (omega arith, adj.1.1)
]

pub join_at-Adjacent : (q : ℕ) (bs : List Block) → Adjacent bs → Adjacent (join_at q bs)
join_at-Adjacent q [] adj = tt
join_at-Adjacent q (b ∷ bs) adj = elim (Bool-cases (b.at == q)) [
  | inl here ↦ elim (Bool-cases b.used) [
    | inl u ↦ simp (here, u) adj
    | inr f ↦ simp (here, f) (join-Adjacent b bs adj)
  ]
  | inr there ↦ simp there (
      Adjacent-cons b (join_at q bs) (join_at-Starts q (end_of b) bs (Adjacent-Starts b bs adj))
        (join_at-Adjacent q bs (Adjacent-tail b bs adj)))
]

join-Fits :
    (b : Block) (bs : List Block) → Adjacent (b ∷ bs) → All Fits (b ∷ bs) → All Fits (join b bs)
join-Fits b [] adj fits = fits
join-Fits b (c ∷ cs) adj (fit_b, (fit_c, fits)) = elim (Bool-cases c.used) [
  | inl u ↦ simp u (fit_b, (fit_c, fits))
  | inr f ↦ simp f ((omega arith, omega arith), fits)
]

pub join_at-Fits : (q : ℕ) (bs : List Block) → Adjacent bs → All Fits bs → All Fits (join_at q bs)
join_at-Fits q [] adj fits = tt
join_at-Fits q (b ∷ bs) adj (fit_b, fits) = elim (Bool-cases (b.at == q)) [
  | inl here ↦ elim (Bool-cases b.used) [
    | inl u ↦ simp (here, u) (fit_b, fits)
    | inr f ↦ simp (here, f) (join-Fits b bs adj (fit_b, fits))
  ]
  | inr there ↦ simp there (fit_b, join_at-Fits q bs (Adjacent-tail b bs adj) fits)
]

join-span : (b : Block) (bs : List Block) → span (join b bs) ≡ span (b ∷ bs)
unfolding span
join-span b [] = refl
join-span b (c ∷ cs) = elim (Bool-cases c.used) [ inl u ↦ simp u | inr f ↦ simp f (omega arith) ]

span_cons : (b : Block) (xs ys : List Block) → span xs ≡ span ys → span (b ∷ xs) ≡ span (b ∷ ys)
unfolding span
span_cons b xs ys h = omega arith

join_at-span : (q : ℕ) (bs : List Block) → span (join_at q bs) ≡ span bs
join_at-span q [] = refl
join_at-span q (b ∷ bs) = elim (Bool-cases (b.at == q)) [
  | inl here ↦ elim (Bool-cases b.used) [
    | inl u ↦ simp (here, u)
    | inr f ↦ simp (here, f) (join-span b bs)
  ]
  | inr there ↦ simp there (span_cons b (join_at q bs) bs (join_at-span q bs))
]

pub clear_at-Adjacent : (q : ℕ) (bs : List Block) → Adjacent bs → Adjacent (clear_at q bs)
clear_at-Adjacent q [] adj = tt
clear_at-Adjacent q (b ∷ []) adj = tt
clear_at-Adjacent q (b ∷ c ∷ cs) (e, adj) = (ground arith, clear_at-Adjacent q (c ∷ cs) adj)

pub clear_at-Fits : (q : ℕ) (bs : List Block) → All Fits bs → All Fits (clear_at q bs)
clear_at-Fits q [] fits = tt
clear_at-Fits q (b ∷ bs) (fit_b, fits) = (ground arith, clear_at-Fits q bs fits)

clear_at-span : (q : ℕ) (bs : List Block) → span (clear_at q bs) ≡ span bs
unfolding span
clear_at-span q [] = refl
clear_at-span q (b ∷ bs) = ground (arith, clear_at-span q bs)

pub release-span : (h : ℕ) (bs : List Block) → span (release h bs) ≡ span bs
unfolding release
release-span h bs =
    let joined = join_at h (clear_at h bs) in
    join_at-span (prev_of h joined) joined ∙ join_at-span h (clear_at h bs) ∙ clear_at-span h bs
