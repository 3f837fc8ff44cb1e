-- ===== src/Memory/Bytes.antt =====
-- Flat byte memory: the cells that every pointer of the program reads and writes.
use staxus.Base.{ℕ, ◌+◌, ◌*◌, ◌/◌, ◌%◌, ◌≤◌, ◌<◌, ◌≡◌, ◌≢◌, ◌⊎◌, arith, ◌==◌, if◌then◌else◌}

-- What each address holds. A cell is read modulo 256.
abbrev pub Bytes : Type 0
Bytes = ℕ → ℕ

-- `*(u8 *) a`
unfoldable pub load8 : Bytes → ℕ → ℕ
load8 m a = m a % 256

unfoldable pub store8 : Bytes → ℕ → ℕ → Bytes
store8 m a v x = if x == a then v % 256 else m x

-- `*(u16 *) a`, `*(u32 *) a` and `*(u64 *) a`, little endian
unfoldable pub load16 : Bytes → ℕ → ℕ
unfolding load8
load16 m a = load8 m a + 256 * load8 m (a + 1)

unfoldable pub load32 : Bytes → ℕ → ℕ
unfolding load16
load32 m a = load16 m a + 65536 * load16 m (a + 2)

unfoldable pub load64 : Bytes → ℕ → ℕ
unfolding load32
load64 m a = load32 m a + 4294967296 * load32 m (a + 4)

unfoldable pub store16 : Bytes → ℕ → ℕ → Bytes
unfolding store8
store16 m a v = store8 (store8 m a v) (a + 1) (v / 256)

unfoldable pub store32 : Bytes → ℕ → ℕ → Bytes
unfolding store16
store32 m a v = store16 (store16 m a v) (a + 2) (v / 65536)

unfoldable pub store64 : Bytes → ℕ → ℕ → Bytes
unfolding store32
store64 m a v = store32 (store32 m a v) (a + 4) (v / 4294967296)

pub load8-store8_self : (m : Bytes) (a v : ℕ) → load8 (store8 m a v) a ≡ v % 256
unfolding load8 store8
load8-store8_self m a v = ground arith

pub load8-store8_ne : (m : Bytes) (a v b : ℕ) → b ≢ a → load8 (store8 m a v) b ≡ load8 m b
unfolding load8 store8
load8-store8_ne m a v b h = ground arith

pub load8-lt : (m : Bytes) (a : ℕ) → load8 m a < 256
unfolding load8
load8-lt m a = omega arith

pub load8-store16 :
    (m : Bytes) (a v b : ℕ) → (b < a) ⊎ (a + 2 ≤ b) → load8 (store16 m a v) b ≡ load8 m b
unfolding store16 load8
load8-store16 m a v b h = ground arith

pub load8-store32 :
    (m : Bytes) (a v b : ℕ) → (b < a) ⊎ (a + 4 ≤ b) → load8 (store32 m a v) b ≡ load8 m b
unfolding store32
load8-store32 m a v b h =
    ground (arith, load8-store16 (store16 m a v) (a + 2) (v / 65536) b, load8-store16 m a v b)

pub load8-store64 :
    (m : Bytes) (a v b : ℕ) → (b < a) ⊎ (a + 8 ≤ b) → load8 (store64 m a v) b ≡ load8 m b
unfolding store64
load8-store64 m a v b h =
    ground (arith, load8-store32 (store32 m a v) (a + 4) (v / 4294967296) b, load8-store32 m a v b)

pub load16-store16 : (m : Bytes) (a v : ℕ) → load16 (store16 m a v) a ≡ v % 65536
unfolding store16 load16 store8
load16-store16 m a v = ground arith

pub load16_frame :
    (m n : Bytes) (a : ℕ)
    → load8 m a ≡ load8 n a
    → load8 m (a + 1) ≡ load8 n (a + 1)
    → load16 m a ≡ load16 n a
load16_frame m n a h k = unfold load16 in ground arith

pub load32-store32 : (m : Bytes) (a v : ℕ) → load32 (store32 m a v) a ≡ v % 4294967296
unfolding load32 store32
load32-store32 m a v = omega (
  arith,
  load16-store16 m a v,
  load16-store16 (store16 m a v) (a + 2) (v / 65536),
  load16_frame (store16 (store16 m a v) (a + 2) (v / 65536)) (store16 m a v) a
      (load8-store16 (store16 m a v) (a + 2) (v / 65536) a (omega arith))
      (load8-store16 (store16 m a v) (a + 2) (v / 65536) (a + 1) (omega arith)),
)

pub load32_frame :
    (m n : Bytes) (a : ℕ)
    → ((b : ℕ) → a ≤ b → b < a + 4 → load8 m b ≡ load8 n b)
    → load32 m a ≡ load32 n a
unfolding load32 load16
load32_frame m n a h = omega (
  arith,
  h a (omega arith) (omega arith),
  h (a + 1) (omega arith) (omega arith),
  h (a + 2) (omega arith) (omega arith),
  h (a + 2 + 1) (omega arith) (omega arith),
)

pub load64-store64 : (m : Bytes) (a v : ℕ) → load64 (store64 m a v) a ≡ v % 18446744073709551616
unfolding load64 store64
load64-store64 m a v = omega (
  arith,
  load32-store32 m a v,
  load32-store32 (store32 m a v) (a + 4) (v / 4294967296),
  load32_frame (store32 (store32 m a v) (a + 4) (v / 4294967296)) (store32 m a v) a
      (λ b p q. load8-store32 (store32 m a v) (a + 4) (v / 4294967296) b (omega arith)),
)

pub load64_frame :
    (m n : Bytes) (a : ℕ)
    → ((b : ℕ) → a ≤ b → b < a + 8 → load8 m b ≡ load8 n b)
    → load64 m a ≡ load64 n a
unfolding load64
load64_frame m n a h = omega (
  arith,
  load32_frame m n a (λ b p q. h b p (omega arith)),
  load32_frame m n (a + 4) (λ b p q. h b (omega arith) (omega arith)),
)

pub load16-lt : (m : Bytes) (a : ℕ) → load16 m a < 65536
unfolding load16
load16-lt m a = omega (arith, load8-lt m a, load8-lt m (a + 1))

pub load32-lt : (m : Bytes) (a : ℕ) → load32 m a < 4294967296
unfolding load32
load32-lt m a = omega (arith, load16-lt m a, load16-lt m (a + 2))

pub load64-lt : (m : Bytes) (a : ℕ) → load64 m a < 18446744073709551616
unfolding load64
load64-lt m a = omega (arith, load32-lt m a, load32-lt m (a + 4))
