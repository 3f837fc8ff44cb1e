-- ===== src/Memory/Identity/Header.antt =====
-- What the header fields hold after a write to one of them, and the addresses that a write spares.
use staxus.Base.{
  ℕ, ◌+◌, ◌%◌, ◌≤◌, ◌<◌, ◌≡◌, refl, ◌⊎◌, true, false, arith, ◌==◌, ==_iff, bit_and, bit_or,
  holds_up_to, holds_up_to_lem,
}
use staxus.Memory.Bytes.{
  Bytes, load8, store8, store64, load8-store8_self, load8-store8_ne, load8-store64, load64-store64,
  load64_frame, load8-lt, load64-lt,
}
use staxus.Memory.Identity.{
  header_size, u64_mod, size_of, next_of, flags_of, set_size, set_next, set_flags, in_use,
  mark_used,
}

-- The `k` bytes from `lo` on agree.
abbrev pub Agree : Bytes → Bytes → ℕ → ℕ → Type 0
Agree m n lo k = (a : ℕ) → lo ≤ a → a < lo + k → load8 m a ≡ load8 n a

-- `m` and `n` have the same header at `p`.
pub record SameHeader (m n : Bytes) (p : ℕ) : Type 0 where
  pub size : size_of m p ≡ size_of n p
  pub next : next_of m p ≡ next_of n p
  pub flags : flags_of m p ≡ flags_of n p

pub Agree-SameHeader : (m n : Bytes) (p : ℕ) → Agree m n p header_size → SameHeader m n p
unfolding size_of next_of flags_of
Agree-SameHeader m n p h = record {
  size = load64_frame m n p (λ a i j. h a i (omega arith));
  next = load64_frame m n (p + 8) (λ a i j. h a (omega arith) (omega arith));
  flags = h (p + 16) (omega arith) (omega arith);
}

module _ (m : Bytes) (p v : ℕ) where
  pub size-set_size : size_of (set_size m p v) p ≡ v % u64_mod
  unfolding size_of set_size
  size-set_size = load64-store64 m p v

  pub next-set_next : next_of (set_next m p v) p ≡ v % u64_mod
  unfolding next_of set_next
  next-set_next = load64-store64 m (p + 8) v

  pub flags-set_flags : flags_of (set_flags m p v) p ≡ v % 256
  unfolding flags_of set_flags
  flags-set_flags = load8-store8_self m (p + 16) v

  pub next-set_size : next_of (set_size m p v) p ≡ next_of m p
  unfolding next_of set_size
  next-set_size =
      load64_frame (store64 m p v) m (p + 8) (λ a i j. load8-store64 m p v a (omega arith))

  pub flags-set_size : flags_of (set_size m p v) p ≡ flags_of m p
  unfolding flags_of set_size
  flags-set_size = load8-store64 m p v (p + 16) (omega arith)

  pub size-set_next : size_of (set_next m p v) p ≡ size_of m p
  unfolding size_of set_next
  size-set_next =
      load64_frame (store64 m (p + 8) v) m p (λ a i j. load8-store64 m (p + 8) v a (omega arith))

  pub flags-set_next : flags_of (set_next m p v) p ≡ flags_of m p
  unfolding flags_of set_next
  flags-set_next = load8-store64 m (p + 8) v (p + 16) (omega arith)

  pub size-set_flags : size_of (set_flags m p v) p ≡ size_of m p
  unfolding size_of set_flags
  size-set_flags =
      load64_frame (store8 m (p + 16) v) m p (λ a i j. load8-store8_ne m (p + 16) v a (omega arith))

  pub next-set_flags : next_of (set_flags m p v) p ≡ next_of m p
  unfolding next_of set_flags
  next-set_flags =
      load64_frame (store8 m (p + 16) v) m (p + 8)
        (λ a i j. load8-store8_ne m (p + 16) v a (omega arith))

  -- Outside the header no write is seen.
  module _ (a : ℕ) (out : (a < p) ⊎ (p + header_size ≤ a)) where
    pub load8-set_size : load8 (set_size m p v) a ≡ load8 m a
    unfolding set_size
    load8-set_size = load8-store64 m p v a (omega arith)

    pub load8-set_next : load8 (set_next m p v) a ≡ load8 m a
    unfolding set_next
    load8-set_next = load8-store64 m (p + 8) v a (omega arith)

    pub load8-set_flags : load8 (set_flags m p v) a ≡ load8 m a
    unfolding set_flags
    load8-set_flags = load8-store8_ne m (p + 16) v a (omega arith)

  -- Nor is it in the header of a block that lies apart.
  module _ (q : ℕ) (out : (q + header_size ≤ p) ⊎ (p + header_size ≤ q)) where
    pub SameHeader-set_size : SameHeader (set_size m p v) m q
    SameHeader-set_size =
        Agree-SameHeader (set_size m p v) m q (λ a i j. load8-set_size a (omega arith))

    pub SameHeader-set_next : SameHeader (set_next m p v) m q
    SameHeader-set_next =
        Agree-SameHeader (set_next m p v) m q (λ a i j. load8-set_next a (omega arith))

    pub SameHeader-set_flags : SameHeader (set_flags m p v) m q
    SameHeader-set_flags =
        Agree-SameHeader (set_flags m p v) m q (λ a i j. load8-set_flags a (omega arith))

-- The in-use bit is set, and cleared, whatever the other flags are.
set_bit_table : holds_up_to (λ f. bit_and (bit_or f 1 % 256) 1 == 1) 255 ≡ true
unfolding holds_up_to
set_bit_table = refl

clear_bit_table : holds_up_to (λ f. bit_and (bit_and f 0xfe % 256) 1 == 0) 255 ≡ true
unfolding holds_up_to
clear_bit_table = refl

pub flags_of-lt : (m : Bytes) (p : ℕ) → flags_of m p < 256
unfolding flags_of
flags_of-lt m p = load8-lt m (p + 16)

pub in_use-mark_used : (m : Bytes) (p : ℕ) → in_use (mark_used p m) p ≡ true
unfolding in_use mark_used
in_use-mark_used m p =
    let bit =
      (==_iff _ _).0
        (holds_up_to_lem _ 255 (flags_of m p) (omega (arith, flags_of-lt m p)) set_bit_table) in
    rw (flags-set_flags, bit)

pub in_use-clear :
    (m : Bytes) (p : ℕ) → in_use (set_flags m p (bit_and (flags_of m p) 0xfe)) p ≡ false
unfolding in_use
in_use-clear m p =
    let bit =
      (==_iff _ _).0
        (holds_up_to_lem _ 255 (flags_of m p) (omega (arith, flags_of-lt m p)) clear_bit_table) in
    rw (flags-set_flags, bit)

pub in_use-same : (m n : Bytes) (p : ℕ) → flags_of m p ≡ flags_of n p → in_use m p ≡ in_use n p
unfolding in_use
in_use-same m n p e = rw e

pub size_of-lt : (m : Bytes) (p : ℕ) → size_of m p < u64_mod
unfolding size_of
size_of-lt m p = load64-lt m p

pub next_of-lt : (m : Bytes) (p : ℕ) → next_of m p < u64_mod
unfolding next_of
next_of-lt m p = load64-lt m (p + 8)

-- A header with no flags is free.
pub in_use_zero : (m : Bytes) (p : ℕ) → flags_of m p ≡ 0 → in_use m p ≡ false
unfolding in_use
in_use_zero m p e = rw e
