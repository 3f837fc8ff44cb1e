-- ===== src/Memory/Identity/Kept.antt =====
-- What marking a block free and joining it keep of a list of blocks.
use staxus.Base.{
  ℕ, suc, ◌≤◌, ◌≡◌, refl, inl, inr, true, false, List, [], ◌∷◌, arith, Bool-cases, ==_iff, ==_refl,
  ==_of_ne, ◌==◌, All, length,
}
use staxus.Memory.Identity.Blocks.{Block, Separate}
use staxus.Memory.Identity.Join.{clear_at, join, join_at, Has}
use staxus.Memory.Identity.Free.{FreeAt, FreeAt-Apart}

pub clear_at-FreeAt : (h : ℕ) (bs : List Block) → Has h bs → FreeAt h (clear_at h bs)
clear_at-FreeAt h [] there = elim there [ ]
clear_at-FreeAt h (b ∷ bs) (inl e) =
    let here : (b.at == h) ≡ true = (==_iff b.at h).1 e in simp here (inl (e, refl))
clear_at-FreeAt h (b ∷ bs) (inr there) = inr (clear_at-FreeAt h bs there)

pub join-FreeAt : (b : Block) (bs : List Block) → b.used ≡ false → FreeAt b.at (join b bs)
join-FreeAt b [] f = inl (refl, f)
join-FreeAt b (c ∷ cs) f = elim (Bool-cases c.used) [
  | inl u ↦ simp u (inl (refl, f))
  | inr free ↦ simp free (inl (refl, f))
]

pub join_at-FreeAt : (h : ℕ) (bs : List Block) → Separate bs → FreeAt h bs → FreeAt h (join_at h bs)
join_at-FreeAt h [] sep there = elim there [ ]
join_at-FreeAt h (b ∷ bs) sep (inl (e, f)) = simp (← e, ==_refl b.at, f) (join-FreeAt b bs f)
join_at-FreeAt h (b ∷ bs) (apart, sep) (inr there) =
    let out = FreeAt-Apart b h bs apart there in
    simp (==_of_ne b.at h (omega arith)) (inr (join_at-FreeAt h bs sep there))

-- What depends on the addresses alone survives clearing and joining.
pub clear_at-All :
    (P : ℕ → Type 0) (h : ℕ) (bs : List Block)
    → All (λ b. P b.at) bs
    → All (λ b. P b.at) (clear_at h bs)
clear_at-All P h [] a = tt
clear_at-All P h (b ∷ bs) (pb, ps) = elim (Bool-cases (b.at == h)) [
  | inl e ↦ simp e (pb, clear_at-All P h bs ps)
  | inr e ↦ simp e (pb, clear_at-All P h bs ps)
]

pub join-All :
    (P : ℕ → Type 0) (b : Block) (bs : List Block)
    → P b.at
    → All (λ c. P c.at) bs
    → All (λ c. P c.at) (join b bs)
join-All P b [] pb ps = (pb, tt)
join-All P b (c ∷ cs) pb (pc, ps) = elim (Bool-cases c.used) [
  | inl u ↦ simp u (pb, (pc, ps))
  | inr f ↦ simp f (pb, ps)
]

pub join_at-All :
    (P : ℕ → Type 0) (h : ℕ) (bs : List Block)
    → All (λ b. P b.at) bs
    → All (λ b. P b.at) (join_at h bs)
join_at-All P h [] a = tt
join_at-All P h (b ∷ bs) (pb, ps) = elim (Bool-cases (b.at == h)) [
  | inl e ↦ elim (Bool-cases b.used) [
    | inl u ↦ simp (e, u) (pb, ps)
    | inr f ↦ simp (e, f) (join-All P b bs pb ps)
  ]
  | inr e ↦ simp e (pb, join_at-All P h bs ps)
]

pub length-join : (b : Block) (bs : List Block) → length (join b bs) ≤ suc (length bs)
length-join b [] = omega arith
length-join b (c ∷ cs) = elim (Bool-cases c.used) [
  | inl u ↦ simp u (omega arith)
  | inr f ↦ simp f (omega arith)
]

pub length-join_at : (q : ℕ) (bs : List Block) → length (join_at q bs) ≤ length bs
length-join_at q [] = omega arith
length-join_at q (b ∷ bs) = elim (Bool-cases (b.at == q)) [
  | inl e ↦ elim (Bool-cases b.used) [
    | inl u ↦ simp (e, u) (omega arith)
    | inr f ↦ simp (e, f) (length-join b bs)
  ]
  | inr e ↦ simp e (omega (arith, length-join_at q bs))
]

pub length-clear_at : (q : ℕ) (bs : List Block) → length (clear_at q bs) ≡ length bs
length-clear_at q [] = refl
length-clear_at q (b ∷ bs) = omega (arith, length-clear_at q bs)
