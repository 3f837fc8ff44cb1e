-- ===== src/Strings/Units.antt =====
-- The two kinds of strings: of `char` and of 16-bit `wchar`. A string is a pointer into memory; its
-- units are read and written by index.
use staxus.Base.{ℕ, ◌+◌, ◌*◌, ◌≤◌, ◌<◌, ◌≡◌, ◌⊎◌, List, [], ◌∷◌, arith}
use staxus.Base.Int.{ℤ, pos, signed8}
use staxus.Memory.Bytes.{
  Bytes, load8, load16, store8, store16, load8-store8_self, load8-store8_ne, load8-store16,
  load16-store16, load16_frame, load8-lt, load16-lt,
}

-- How many bytes a unit takes, and how it is promoted to `int`.
pub record Units : Type 0 where
  pub width : ℕ
  pub limit : ℕ
  pub load : Bytes → ℕ → ℕ → ℕ
  pub store : Bytes → ℕ → ℕ → ℕ → Bytes
  pub int_of : ℕ → ℤ
  pub width_pos : 0 < width
  pub limit_pos : 0 < limit
  pub load-lt : (m : Bytes) (p i : ℕ) → load m p i < limit
  pub load-store_self : (m : Bytes) (p i v : ℕ) → v < limit → load (store m p i v) p i ≡ v
  pub load-store_apart :
      (m : Bytes) (p i v q j : ℕ)
      → (p + width * i + width ≤ q + width * j) ⊎ (q + width * j + width ≤ p + width * i)
      → load (store m p i v) q j ≡ load m q j
  pub load8-store :
      (m : Bytes) (p i v a : ℕ)
      → (a < p + width * i) ⊎ (p + width * i + width ≤ a)
      → load8 (store m p i v) a ≡ load8 m a
  pub int_injective : (a b : ℕ) → a < limit → b < limit → int_of a ≡ int_of b → a ≡ b

pub char_self : (m : Bytes) (p i v : ℕ) → v < 256 → load8 (store8 m (p + i) v) (p + i) ≡ v
char_self m p i v h = omega (arith, load8-store8_self m (p + i) v)

pub char_apart :
    (m : Bytes) (p i v q j : ℕ)
    → (p + 1 * i + 1 ≤ q + 1 * j) ⊎ (q + 1 * j + 1 ≤ p + 1 * i)
    → load8 (store8 m (p + i) v) (q + j) ≡ load8 m (q + j)
char_apart m p i v q j h = load8-store8_ne m (p + i) v (q + j) (omega arith)

pub char_out :
    (m : Bytes) (p i v a : ℕ)
    → (a < p + 1 * i) ⊎ (p + 1 * i + 1 ≤ a)
    → load8 (store8 m (p + i) v) a ≡ load8 m a
char_out m p i v a h = load8-store8_ne m (p + i) v a (omega arith)

pub char_injective : (a b : ℕ) → a < 256 → b < 256 → signed8 a ≡ signed8 b → a ≡ b
char_injective a b ha hb h = ground arith

-- `char`: a signed byte
abbrev pub char : Units
char = record {
  width = 1;
  limit = 256;
  load = λ m p i. load8 m (p + i);
  store = λ m p i v. store8 m (p + i) v;
  int_of = signed8;
  width_pos = omega arith;
  limit_pos = omega arith;
  load-lt = λ m p i. load8-lt m (p + i);
  load-store_self = char_self;
  load-store_apart = char_apart;
  load8-store = char_out;
  int_injective = char_injective;
}

pub wchar_self :
    (m : Bytes) (p i v : ℕ) → v < 65536 → load16 (store16 m (p + 2 * i) v) (p + 2 * i) ≡ v
wchar_self m p i v h = omega (arith, load16-store16 m (p + 2 * i) v)

pub wchar_out :
    (m : Bytes) (p i v a : ℕ)
    → (a < p + 2 * i) ⊎ (p + 2 * i + 2 ≤ a)
    → load8 (store16 m (p + 2 * i) v) a ≡ load8 m a
wchar_out m p i v a h = load8-store16 m (p + 2 * i) v a h

pub wchar_apart :
    (m : Bytes) (p i v q j : ℕ)
    → (p + 2 * i + 2 ≤ q + 2 * j) ⊎ (q + 2 * j + 2 ≤ p + 2 * i)
    → load16 (store16 m (p + 2 * i) v) (q + 2 * j) ≡ load16 m (q + 2 * j)
wchar_apart m p i v q j h =
    load16_frame (store16 m (p + 2 * i) v) m (q + 2 * j)
      (load8-store16 m (p + 2 * i) v (q + 2 * j) (omega arith))
      (load8-store16 m (p + 2 * i) v (q + 2 * j + 1) (omega arith))

pub wchar_injective : (a b : ℕ) → a < 65536 → b < 65536 → pos a ≡ pos b → a ≡ b
wchar_injective a b ha hb h = cc

-- `wchar`: an unsigned 16-bit word
abbrev pub wchar : Units
wchar = record {
  width = 2;
  limit = 65536;
  load = λ m p i. load16 m (p + 2 * i);
  store = λ m p i v. store16 m (p + 2 * i) v;
  int_of = pos;
  width_pos = omega arith;
  limit_pos = omega arith;
  load-lt = λ m p i. load16-lt m (p + 2 * i);
  load-store_self = wchar_self;
  load-store_apart = wchar_apart;
  load8-store = wchar_out;
  int_injective = wchar_injective;
}

module _ (u : Units) (m : Bytes) (p : ℕ) where
  -- From unit `i` on, the string holds the nonzero units `xs` and then a null.
  abbrev pub Holds : ℕ → List ℕ → Type 0
  Holds i [] = u.load m p i ≡ 0
  Holds i (x ∷ xs) = (u.load m p i ≡ x) × (0 < x) × Holds (i + 1) xs
