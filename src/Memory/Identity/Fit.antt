-- ===== src/Memory/Identity/Fit.antt =====
-- First fit on blocks: what it hands out, and what it keeps.
use staxus.Base.{
  ℕ, ◌+◌, ◌-◌, ◌≤◌, ◌<◌, ◌≡◌, refl, sym, subst, ◌⊎◌, inl, inr, true, false, ◌||◌, List, [], ◌∷◌,
  arith, ltb, ltb→lt, Bool-cases, All, All-map,
}
use staxus.Memory.Identity.{header_size}
use staxus.Memory.Identity.Blocks.{
  Block, block, end_of, Apart, Separate, Fits, carve, usable, fit, span,
}

pub fit_nil : (size : ℕ) → fit size [] ≡ (0, [])
unfolding fit
fit_nil size = refl

pub fit_skip :
    (size : ℕ) (b : Block) (bs : List Block)
    → (ltb b.size size || b.used) ≡ true
    → fit size (b ∷ bs) ≡ ((fit size bs).0, b ∷ (fit size bs).1)
unfolding fit
fit_skip size b bs h = rw h

pub fit_take :
    (size : ℕ) (b : Block) (bs : List Block)
    → (ltb b.size size || b.used) ≡ false
    → fit size (b ∷ bs) ≡ (b.at + header_size, carve size b bs)
unfolding fit
fit_take size b bs h = rw h

-- A block that is apart from another is apart from the parts that the other is cut into.
carve-All :
    (P : Block → Type 0) (size : ℕ) (b : Block) (bs : List Block)
    → P (block b.at b.size true)
    → (size + header_size < b.size
        → P (block b.at size true)
          × P (block (b.at + header_size + size) (b.size - size - header_size) false))
    → All P bs
    → All P (carve size b bs)
carve-All P size b bs whole parts rest = elim (Bool-cases (ltb (size + header_size) b.size)) [
  | inl big ↦ rw big ((parts (ltb→lt _ _ big)).0, ((parts (ltb→lt _ _ big)).1, rest))
  | inr small ↦ rw small (whole, rest)
]

-- Whatever holds of every block, and of the parts of a block of which it holds, holds after first
-- fit.
fit-All :
    (P : Block → Type 0) (size : ℕ) (bs : List Block)
    → ((b : Block) → P b → P (block b.at b.size true))
    → ((b : Block)
        → P b
        → size + header_size < b.size
        → P (block b.at size true)
          × P (block (b.at + header_size + size) (b.size - size - header_size) false))
    → All P bs
    → All P (fit size bs).1
fit-All P size [] whole parts h = rw (fit_nil size) tt
fit-All P size (b ∷ bs) whole parts (hb, hs) = elim (Bool-cases (ltb b.size size || b.used)) [
  | inl skip ↦ rw (fit_skip size b bs skip) (hb, fit-All P size bs whole parts hs)
  | inr take ↦ rw (fit_take size b bs take) (carve-All P size b bs (whole b hb) (parts b hb) hs)
]

pub fit-Fits : (size : ℕ) (bs : List Block) → All Fits bs → All Fits (fit size bs).1
fit-Fits size bs =
    fit-All Fits size bs (λ b h. (h.0, h.1))
      (λ b h big. ((omega arith, omega arith), (omega arith, omega arith)))

carve-Separate :
    (size : ℕ) (b : Block) (bs : List Block)
    → All (Apart b) bs
    → Separate bs
    → Separate (carve size b bs)
carve-Separate size b bs apart sep = elim (Bool-cases (ltb (size + header_size) b.size)) [
  | inl big ↦
      let lt = ltb→lt _ _ big in
      rw big (
        (inl (omega arith), All-map _ _ bs (λ c out. omega arith) apart),
        (All-map _ _ bs (λ c out. omega arith) apart, sep),
      )
  | inr small ↦ rw small (apart, sep)
]

-- The blocks stay apart.
pub fit-Separate :
    (size : ℕ) (bs : List Block) → Separate bs → All Fits bs → Separate (fit size bs).1
fit-Separate size [] sep fits = rw (fit_nil size) tt
fit-Separate size (b ∷ bs) (apart, sep) (fit_b, fits) =
    elim (Bool-cases (ltb b.size size || b.used)) [
      | inl skip ↦ rw (fit_skip size b bs skip) (
        fit-All (Apart b) size bs (λ c h. h) (λ c h big. (omega arith, omega arith)) apart,
        fit-Separate size bs sep fits,
      )
      | inr take ↦ rw (fit_take size b bs take) (carve-Separate size b bs apart sep)
    ]

-- The bytes from `lo` to `hi` lie in one free block, behind its header.
abbrev pub InFree : ℕ → ℕ → List Block → Type 0
InFree lo hi [] = ⊥
InFree lo hi (b ∷ bs) =
    ((b.used ≡ false) × (b.at + header_size ≤ lo) × (hi ≤ end_of b)) ⊎ InFree lo hi bs

-- A used block's bytes begin at `p`, and there are at least `size` of them.
abbrev pub Given : ℕ → ℕ → List Block → Type 0
Given p size [] = ⊥
Given p size (b ∷ bs) =
    ((b.used ≡ true) × (p ≡ b.at + header_size) × (size ≤ b.size)) ⊎ Given p size bs

-- No block can serve the request.
abbrev pub Full : ℕ → List Block → Type 0
Full size bs = All (λ b. usable size b ≡ false) bs

carve-Given :
    (size : ℕ) (b : Block) (bs : List Block)
    → size ≤ b.size
    → Given (b.at + header_size) size (carve size b bs)
carve-Given size b bs enough = elim (Bool-cases (ltb (size + header_size) b.size)) [
  | inl big ↦ rw big (inl (refl, refl, omega arith))
  | inr small ↦ rw small (inl (refl, refl, enough))
]

-- The outcome of a request: null if no block can serve it, else bytes of a free block that now belong
-- to a used one.
abbrev pub Handed : ℕ → List Block → ℕ × List Block → Type 0
Handed size bs (p, left) = ((p ≡ 0) × Full size bs) ⊎ (InFree p (p + size) bs × Given p size left)

Handed-cons :
    (size : ℕ) (b : Block) (bs : List Block) (r : ℕ × List Block)
    → usable size b ≡ false
    → Handed size bs r
    → Handed size (b ∷ bs) (r.0, b ∷ r.1)
Handed-cons size b bs (p, left) skip (inl (null, full)) = inl (null, (skip, full))
Handed-cons size b bs (p, left) skip (inr (free, given)) = inr (inr free, inr given)

pub fit-Handed : (size : ℕ) (bs : List Block) → Handed size bs (fit size bs)
fit-Handed size [] = subst (Handed size []) (sym (fit_nil size)) (inl (refl, tt))
fit-Handed size (b ∷ bs) = elim (Bool-cases (ltb b.size size || b.used)) [
  | inl skip ↦
      subst (Handed size (b ∷ bs)) (sym (fit_skip size b bs skip))
        (Handed-cons size b bs (fit size bs) (rw skip) (fit-Handed size bs))
  | inr take ↦
      let enough : size ≤ b.size = ground arith in
      subst (Handed size (b ∷ bs)) (sym (fit_take size b bs take))
        (inr (inl (ground arith, omega arith, omega arith), carve-Given size b bs enough))
]

carve-span : (size : ℕ) (b : Block) (bs : List Block) → span (carve size b bs) ≡ span (b ∷ bs)
unfolding span
carve-span size b bs = elim (Bool-cases (ltb (size + header_size) b.size)) [
  | inl big ↦ rw big (omega (arith, ltb→lt _ _ big))
  | inr small ↦ rw small
]

span-cons : (b : Block) (xs ys : List Block) → span xs ≡ span ys → span (b ∷ xs) ≡ span (b ∷ ys)
unfolding span
span-cons b xs ys h = omega arith

-- No byte is lost: headers and blocks together keep their size.
pub span-fit : (size : ℕ) (bs : List Block) → span (fit size bs).1 ≡ span bs
span-fit size [] = rw (fit_nil size)
span-fit size (b ∷ bs) = elim (Bool-cases (ltb b.size size || b.used)) [
  | inl skip ↦ rw (fit_skip size b bs skip) (span-cons b (fit size bs).1 bs (span-fit size bs))
  | inr take ↦ rw (fit_take size b bs take) (carve-span size b bs)
]
