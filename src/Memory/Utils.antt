-- ===== src/Memory/Utils.antt =====
-- memory/utils.c: memset, memcpy, memcmp, memchr and the 64-bit FNV-1a hash memhsh.
-- Each loop counts the rounds left; `off` is the source's loop variable.
pub mod Fill
pub mod Compare
pub mod Hash
use staxus.Base.{ℕ, zero, suc, ◌+◌, ◌*◌, ◌%◌, Option, none, some, ◌==◌, if◌then◌else◌, bit_xor}
use staxus.Base.Int.{ℤ, pos, sub_ℕ}
use staxus.Memory.Bytes.{Bytes, load8, store8}

unfoldable pub memset_from : ℕ → ℕ → ℕ → ℕ → Bytes → Bytes
memset_from zero off dst value m = m
memset_from (suc n) off dst value m = memset_from n (off + 1) dst value (store8 m (dst + off) value)

-- The memory that the call leaves; it returns `dst`.
unfoldable pub memset : ℕ → ℕ → ℕ → Bytes → Bytes
unfolding memset_from
memset dst value size m = memset_from size 0 dst value m

memcpy_from : ℕ → ℕ → ℕ → ℕ → Bytes → Bytes
memcpy_from zero off dst src m = m
memcpy_from (suc n) off dst src m =
    memcpy_from n (off + 1) dst src (store8 m (dst + off) (load8 m (src + off)))

-- The memory that the call leaves; it returns `dst`.
unfoldable pub memcpy : ℕ → ℕ → ℕ → Bytes → Bytes
unfolding memcpy_from
memcpy dst src size m = memcpy_from size 0 dst src m

memcmp_from : ℕ → ℕ → ℕ → ℕ → Bytes → ℤ
memcmp_from zero off a b m = pos 0
memcmp_from (suc n) off a b m =
    let rest = memcmp_from n (off + 1) a b m in
    if load8 m (a + off) == load8 m (b + off)
    then rest
    else sub_ℕ (load8 m (a + off)) (load8 m (b + off))

unfoldable pub memcmp : ℕ → ℕ → ℕ → Bytes → ℤ
unfolding memcmp_from
memcmp a b size m = memcmp_from size 0 a b m

memchr_from : ℕ → ℕ → ℕ → ℕ → Bytes → Option ℕ
memchr_from zero off src value m = none
memchr_from (suc n) off src value m =
    let rest = memchr_from n (off + 1) src value m in
    if load8 m (src + off) == value % 256 then some (src + off) else rest

-- `none` is the null pointer.
unfoldable pub memchr : ℕ → ℕ → ℕ → Bytes → Option ℕ
unfolding memchr_from
memchr src value size m = memchr_from size 0 src value m

abbrev pub fnv_basis : ℕ
fnv_basis = 14695981039346656037

abbrev pub fnv_prime : ℕ
fnv_prime = 1099511628211

-- `hash ^= byte; hash *= prime`, on a qword
unfoldable pub fnv_step : ℕ → ℕ → ℕ
fnv_step hash b = (bit_xor hash b * fnv_prime) % 18446744073709551616

memhsh_from : ℕ → ℕ → ℕ → ℕ → Bytes → ℕ
memhsh_from zero i p hash m = hash
memhsh_from (suc n) i p hash m = memhsh_from n (i + 1) p (fnv_step hash (load8 m (p + i))) m

unfoldable pub memhsh : ℕ → ℕ → Bytes → ℕ
unfolding memhsh_from fnv_step
memhsh src size m = memhsh_from size 0 src fnv_basis m
