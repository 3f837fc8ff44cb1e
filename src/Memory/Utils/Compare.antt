-- ===== src/Memory/Utils/Compare.antt =====
-- memcmp and memchr against what they look for.
use staxus.Base.{
  ℕ, zero, suc, ◌+◌, ◌%◌, ◌<◌, ◌≤◌, ◌≡◌, ◌≢◌, ◌↔◌, inl, inr, refl, Option, none, some, arith, ◌==◌,
  Bool-cases, ==_iff, ==_of_ne, ne_of_==, subst,
}
use native.Mathlib.Decide.{ℕ_discrete}
use staxus.Base.Int.{pos, sub_ℕ, sub_ℕ-zero}
use staxus.Memory.Bytes.{Bytes, load8}
use staxus.Memory.Utils.{memcmp_from, memcmp, memchr_from, memchr}

module _ (a b : ℕ) (m : Bytes) where
  -- The bytes at offset `i` agree.
  abbrev pub Same : ℕ → Type 0
  Same i = load8 m (a + i) ≡ load8 m (b + i)

  memcmp_from-Same :
      (n off : ℕ) → ((i : ℕ) → off ≤ i → i < off + n → Same i) → memcmp_from n off a b m ≡ pos 0
  unfolding memcmp_from
  memcmp_from-Same zero off h = refl
  memcmp_from-Same (suc n) off h = ground (
    arith,
    h off (omega arith) (omega arith),
    memcmp_from-Same n (off + 1) (λ i p q. h i (omega arith) (omega arith)),
  )

  memcmp_from_first :
      (n off i : ℕ)
      → off ≤ i
      → i < off + n
      → ((j : ℕ) → off ≤ j → j < i → Same j)
      → ¬ Same i
      → memcmp_from n off a b m ≡ sub_ℕ (load8 m (a + i)) (load8 m (b + i))
  unfolding memcmp_from
  memcmp_from_first zero off i p q h ne = absurd (omega arith)
  memcmp_from_first (suc n) off i p q h ne = elim (ℕ_discrete off i) [
    | yes e ↦ rw (e, ==_of_ne (load8 m (a + i)) (load8 m (b + i)) ne)
    | no other ↦ ground (
      arith,
      h off (omega arith) (omega arith),
      memcmp_from_first n (off + 1) i (omega arith) (omega arith) (λ j r s. h j (omega arith) s) ne,
    )
  ]

  memcmp_from-zero :
      (n off : ℕ) → memcmp_from n off a b m ≡ pos 0 → (i : ℕ) → off ≤ i → i < off + n → Same i
  unfolding memcmp_from
  memcmp_from-zero zero off h i p q = absurd (omega arith)
  memcmp_from-zero (suc n) off h i p q =
      elim (Bool-cases (load8 m (a + off) == load8 m (b + off))) [
        | inl e ↦ elim (ℕ_discrete off i) [
          | yes f ↦ rw (← f) ((==_iff _ _).0 e)
          | no other ↦ memcmp_from-zero n (off + 1) (rw e at h) i (omega arith) (omega arith)
        ]
        | inr ne ↦
            absurd
              (ne_of_== _ _ ne (sub_ℕ-zero (load8 m (a + off)) (load8 m (b + off)) (rw ne at h)))
      ]

-- memcmp returns 0 exactly when the two ranges of `size` bytes agree byte for byte.
pub memcmp-zero_iff :
    (a b size : ℕ) (m : Bytes)
    → (memcmp a b size m ≡ pos 0) ↔ ((i : ℕ) → i < size → load8 m (a + i) ≡ load8 m (b + i))
unfolding memcmp
memcmp-zero_iff a b size m = (
  λ h i q. memcmp_from-zero a b m size 0 h i (omega arith) (omega arith),
  λ h. memcmp_from-Same a b m size 0 (λ i p q. h i (omega arith)),
)

-- At the first offset where the ranges differ, memcmp returns the difference of the two bytes.
memcmp_first :
    (a b size i : ℕ) (m : Bytes)
    → i < size
    → ((j : ℕ) → j < i → load8 m (a + j) ≡ load8 m (b + j))
    → load8 m (a + i) ≢ load8 m (b + i)
    → memcmp a b size m ≡ sub_ℕ (load8 m (a + i)) (load8 m (b + i))
unfolding memcmp
memcmp_first a b size i m q h ne =
    memcmp_from_first a b m size 0 i (omega arith) (omega arith) (λ j r s. h j s) ne

module _ (src value : ℕ) (m : Bytes) where
  -- The outcome of a search of the offsets from `off` to below `stop`.
  abbrev pub Found : ℕ → ℕ → Option ℕ → Type 0
  Found off stop none = (i : ℕ) → off ≤ i → i < stop → load8 m (src + i) ≢ value % 256
  Found off stop (some p) =
      (i : ℕ) × (p ≡ src + i)
      × (off ≤ i)
      × (i < stop)
      × (load8 m (src + i) ≡ value % 256)
      × ((j : ℕ) → off ≤ j → j < i → load8 m (src + j) ≢ value % 256)

  Found-step :
      (off stop : ℕ) (r : Option ℕ)
      → load8 m (src + off) ≢ value % 256
      → Found (off + 1) stop r
      → Found off stop r
  Found-step off stop none ne h =
      λ i p q. elim (ℕ_discrete off i) [ yes e ↦ rw (← e) ne | no other ↦ h i (omega arith) q ]
  Found-step off stop (some r) ne (i, e, p, q, hit, first) = (
    i,
    e,
    omega arith,
    q,
    hit,
    λ j s t. elim (ℕ_discrete off j) [ yes f ↦ rw (← f) ne | no other ↦ first j (omega arith) t ],
  )

  memchr_from-Found : (n off : ℕ) → Found off (off + n) (memchr_from n off src value m)
  unfolding memchr_from
  memchr_from-Found zero off = λ i p q. absurd (omega arith)
  memchr_from-Found (suc n) off = elim (Bool-cases (load8 m (src + off) == value % 256)) [
    | inl e ↦
        rw e (off, refl, omega arith, omega arith, (==_iff _ _).0 e, λ j s t. absurd (omega arith))
    | inr ne ↦ rw ne (
        Found-step off (off + suc n) (memchr_from n (off + 1) src value m) (ne_of_== _ _ ne) (
          subst (λ k. Found (off + 1) k (memchr_from n (off + 1) src value m)) (omega arith)
            (memchr_from-Found n (off + 1))))
  ]

-- memchr returns the address of the first of the `size` bytes that equals the low byte of `value`,
-- and the null pointer when there is none.
memchr-Found : (src value size : ℕ) (m : Bytes) → Found src value m 0 size (memchr src value size m)
unfolding memchr
memchr-Found src value size m =
    subst (λ k. Found src value m 0 k (memchr_from size 0 src value m)) (omega arith)
      (memchr_from-Found src value m size 0)
