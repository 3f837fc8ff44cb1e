-- ===== src/Memory/Utils/Hash.antt =====
-- memhsh depends on the bytes alone, and hashes a range in one pass.
use staxus.Base.{ℕ, zero, suc, ◌+◌, ◌<◌, ◌≤◌, ◌≡◌, refl, arith, ap, ◌∙◌}
use staxus.Base.Int.{pos}
use staxus.Memory.Bytes.{Bytes, load8}
use staxus.Memory.Utils.{fnv_basis, fnv_step, memcmp, memhsh_from, memhsh}
use staxus.Memory.Utils.Compare.{memcmp-zero_iff}

memhsh_from_same :
    (n i a b hash : ℕ) (m : Bytes)
    → ((j : ℕ) → i ≤ j → j < i + n → load8 m (a + j) ≡ load8 m (b + j))
    → memhsh_from n i a hash m ≡ memhsh_from n i b hash m
unfolding memhsh_from
memhsh_from_same zero i a b hash m h = refl
memhsh_from_same (suc n) i a b hash m h =
    ap (λ v. memhsh_from n (i + 1) a (fnv_step hash v) m) (h i (omega arith) (omega arith))
    ∙ memhsh_from_same n (i + 1) a b (fnv_step hash (load8 m (b + i))) m
        (λ j p q. h j (omega arith) (omega arith))

-- Two ranges that memcmp finds equal have the same hash.
memhsh_of_memcmp :
    (a b size : ℕ) (m : Bytes) → memcmp a b size m ≡ pos 0 → memhsh a size m ≡ memhsh b size m
unfolding memhsh
memhsh_of_memcmp a b size m h =
    memhsh_from_same size 0 a b fnv_basis m
      (λ j p q. (memcmp-zero_iff a b size m).0 h j (omega arith))
