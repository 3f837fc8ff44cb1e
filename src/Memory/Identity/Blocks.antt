-- ===== src/Memory/Identity/Blocks.antt =====
-- The allocator's abstract view: a list of blocks, first-fit allocation and release on it, and what
-- it means that a memory holds a chain of such blocks.
use staxus.Base.{
  ℕ, ◌+◌, ◌-◌, ◌≤◌, ◌<◌, ◌≡◌, ◌⊎◌, Bool, true, false, not, ◌||◌, List, [], ◌∷◌, ltb, if◌then◌else◌,
  All,
}
use staxus.Memory.Bytes.{Bytes}
use staxus.Memory.Identity.{header_size, u64_mod, size_of, next_of, in_use}

-- A header's address, the bytes behind the header, and whether they are handed out.
pub record Block : Type 0 where
  pub at : ℕ
  pub size : ℕ
  pub used : Bool

abbrev pub block : ℕ → ℕ → Bool → Block
block a n u = record { at = a; size = n; used = u }

-- The first address behind a block.
abbrev pub end_of : Block → ℕ
end_of b = b.at + header_size + b.size

-- The bytes of the two blocks, headers included, do not overlap.
abbrev pub Apart : Block → Block → Type 0
Apart b c = (end_of b ≤ c.at) ⊎ (end_of c ≤ b.at)

abbrev pub Separate : List Block → Type 0
Separate [] = Unit
Separate (b ∷ bs) = All (Apart b) bs × Separate bs

-- A block lies above the null pointer and below 2 ^ 64.
abbrev pub Fits : Block → Type 0
Fits b = (0 < b.at) × (end_of b < u64_mod)

-- From `p` on, the headers in `m` are those of the blocks, and the last one's `next` is null.
abbrev pub Chain : Bytes → ℕ → List Block → Type 0
Chain m p [] = p ≡ 0
Chain m p (b ∷ bs) =
    (p ≡ b.at) × (size_of m b.at ≡ b.size) × (in_use m b.at ≡ b.used) × Chain m (next_of m b.at) bs

-- A chain of blocks that do not overlap.
pub record IsHeap (m : Bytes) (p : ℕ) (bs : List Block) : Type 0 where
  pub chain : Chain m p bs
  pub separate : Separate bs
  pub fits : All Fits bs

-- The two parts of a free block that is handed out: the block itself, cut to `size` if the rest can
-- hold a header and a byte, and that rest.
abbrev pub carve : ℕ → Block → List Block → List Block
carve size b bs =
    if ltb (size + header_size) b.size
    then block b.at size true
      ∷ block (b.at + header_size + size) (b.size - size - header_size) false
      ∷ bs
    else block b.at b.size true ∷ bs

abbrev pub usable : ℕ → Block → Bool
usable size b = not (ltb b.size size || b.used)

-- First fit: the pointer, or null, and the blocks afterwards.
unfoldable pub fit : ℕ → List Block → ℕ × List Block
fit size [] = (0, [])
fit size (b ∷ bs) =
    let rest = fit size bs in
    if usable size b then (b.at + header_size, carve size b bs) else (rest.0, b ∷ rest.1)

-- The address lies in none of the free blocks.
abbrev pub OutsideFree : List Block → ℕ → Type 0
OutsideFree bs a = All (λ b. (b.used ≡ true) ⊎ (a < b.at) ⊎ (end_of b ≤ a)) bs

-- The bytes that blocks have behind their headers, and with the headers.
unfoldable pub free_bytes : List Block → ℕ
free_bytes [] = 0
free_bytes (b ∷ bs) = (if b.used then 0 else b.size) + free_bytes bs

unfoldable pub span : List Block → ℕ
span [] = 0
span (b ∷ bs) = (header_size + b.size) + span bs
