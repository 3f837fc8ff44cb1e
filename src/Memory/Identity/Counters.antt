-- ===== src/Memory/Identity/Counters.antt =====
-- idalloc_get_available, and idalloc_realloc where it stays in place.
use staxus.Base.{
  ℕ, zero, suc, ◌+◌, ◌%◌, ◌<◌, ◌≡◌, ◌∙◌, ap, some, List, [], ◌∷◌, arith, inl, inr, Bool-cases,
  ==_of_ne, All, length,
}
use staxus.Memory.Bytes.{Bytes}
use staxus.Memory.Identity.{u64_mod, add64, next_of, Heap}
use staxus.Memory.Identity.Blocks.{Block, Fits, Chain, IsHeap, free_bytes}
use staxus.Memory.Identity.Release.{available_from, idalloc_get_available}

available_from-free_bytes :
    (f p used : ℕ) (m : Bytes) (bs : List Block)
    → Chain m p bs
    → All Fits bs
    → length bs < f
    → used < u64_mod
    → available_from f p used m ≡ some ((used + free_bytes bs) % u64_mod)
unfolding available_from free_bytes
available_from-free_bytes zero p used m bs c fits fuel small = absurd (omega arith)
available_from-free_bytes (suc f) p used m [] c fits fuel small = rw c (ap some (omega arith))
available_from-free_bytes (suc f) p used m (b ∷ bs) (e, s, u, c) (fit_b, fits) fuel small =
    rw (e, ==_of_ne b.at 0 (omega arith), s, u)
      (elim (Bool-cases b.used) [
        | inl busy ↦ simp busy (
            available_from-free_bytes f (next_of m b.at) used m bs c fits (omega arith) small
            ∙ ap some (omega arith))
        | inr free ↦ simp free (
            available_from-free_bytes f (next_of m b.at) (add64 used b.size) m bs c fits
              (omega arith) (omega arith)
            ∙ ap some (omega arith))
      ])

-- On a heap, given enough fuel, idalloc_get_available is the sum of the sizes of the free blocks,
-- modulo 2 ^ 64.
pub get_available-free_bytes :
    (fuel : ℕ) (h : Heap) (bs : List Block)
    → IsHeap h.mem h.first_block bs
    → length bs < fuel
    → idalloc_get_available fuel h ≡ some (free_bytes bs % u64_mod)
unfolding idalloc_get_available
get_available-free_bytes fuel h bs is enough =
    available_from-free_bytes fuel h.first_block 0 h.mem bs is.chain is.fits enough (omega arith)
    ∙ ap some (omega arith)
