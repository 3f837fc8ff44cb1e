-- ===== src/Memory/Utils/Fill.antt =====
-- What memset and memcpy leave at every address.
use staxus.Base.{
  ℕ, zero, suc, ◌+◌, ◌-◌, ◌%◌, ◌≤◌, ◌≡◌, ◌⊎◌, Bool, ◌&&◌, arith, ltb, leb, if◌then◌else◌,
}
use staxus.Memory.Bytes.{Bytes, load8, store8, load8-lt}
use staxus.Memory.Utils.{memset_from, memset, memcpy_from, memcpy}

-- Whether `a` lies in the `n` bytes from `lo` on.
abbrev pub within : ℕ → ℕ → ℕ → Bool
within lo n a = leb lo a && ltb a (lo + n)

store8_at :
    (m : Bytes) (p v a : ℕ) → load8 (store8 m p v) a ≡ (if within p 1 a then v % 256 else load8 m a)
store8_at m p v a = unfold load8 store8 in ground arith

memset_from_at :
    (n off dst value : ℕ) (m : Bytes) (a : ℕ)
    → load8 (memset_from n off dst value m) a
      ≡ (if within (dst + off) n a then value % 256 else load8 m a)
unfolding memset_from
memset_from_at zero off dst value m a = ground arith
memset_from_at (suc n) off dst value m a = ground (
  arith,
  memset_from_at n (off + 1) dst value (store8 m (dst + off) value) a,
  store8_at m (dst + off) value a,
)

-- memset writes the low byte of `value` at each of the `size` addresses from `dst` on, and changes
-- no other address.
pub memset_at :
    (dst value size : ℕ) (m : Bytes) (a : ℕ)
    → load8 (memset dst value size m) a ≡ (if within dst size a then value % 256 else load8 m a)
unfolding memset
memset_at dst value size m a = ground (arith, memset_from_at size 0 dst value m a)

memcpy_from_at :
    (n off dst src : ℕ) (m : Bytes) (a : ℕ)
    → (dst ≤ src) ⊎ (src + off + n ≤ dst)
    → load8 (memcpy_from n off dst src m) a
      ≡ (if within (dst + off) n a then load8 m (src + (a - dst)) else load8 m a)
unfolding memcpy_from
memcpy_from_at zero off dst src m a h = ground arith
memcpy_from_at (suc n) off dst src m a h = ground (
  arith,
  memcpy_from_at n (off + 1) dst src (store8 m (dst + off) (load8 m (src + off))) a (omega arith),
  store8_at m (dst + off) (load8 m (src + off)) a,
  store8_at m (dst + off) (load8 m (src + off)) (src + (a - dst)),
  load8-lt m (src + off),
)

-- memcpy leaves a copy of the old contents of `src` at `dst` where the two ranges do not overlap,
-- and also where they do if `dst` is not above `src`. It changes no other address.
pub memcpy_at :
    (dst src size : ℕ) (m : Bytes) (a : ℕ)
    → (dst ≤ src) ⊎ (src + size ≤ dst)
    → load8 (memcpy dst src size m) a
      ≡ (if within dst size a then load8 m (src + (a - dst)) else load8 m a)
unfolding memcpy
memcpy_at dst src size m a h = ground (arith, memcpy_from_at size 0 dst src m a (omega arith))
