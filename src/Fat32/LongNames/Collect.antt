-- ===== src/Fat32/LongNames/Collect.antt =====
-- The entries of a long name, read in turn by parseFAT32Entry.
use staxus.Base.{
  ℕ, zero, suc, ◌+◌, ◌-◌, ◌*◌, ◌%◌, ◌<◌, ◌≤◌, ◌≡◌, inl, inr, ap, ◌∙◌, subst, ◌==◌, ltb, arith,
  Bool-cases, ==_iff,
}
use staxus.Memory.Bytes.{Bytes, load8}
use staxus.Files.{Text}
use staxus.Fat32.Parse.{parse_long}
use staxus.Fat32.Write.{unit_at}
use staxus.Fat32.LongNames.Slots.{Slot, Slot-frame}
use staxus.Fat32.LongNames.Reads.{Disjoint, Parsed, parse_long-Parsed}

-- The `n` entries of a long name from `raw` on, read one after the other.
unfoldable pub read_slots : ℕ → ℕ → ℕ → Bytes → Bytes
unfolding parse_long
read_slots zero raw lfn_buf b = b
read_slots (suc n) raw lfn_buf b =
    read_slots n (raw + 32) lfn_buf (parse_long raw lfn_buf (lfn_buf + 260) b)

-- Of the `n` entries of a long name, `k` have been read.
pub record Collected (k n : ℕ) (name : Text) (lfn_buf : ℕ) (b : Bytes) : Type 0 where
  pub units : (j : ℕ) → j < 13 * k → load8 b (lfn_buf + j) ≡ unit_at name j % 256
  pub stop : 0 < k → k < 20 → load8 b (lfn_buf + 13 * k) ≡ 0
  pub flag : 0 < k → k ≡ n → load8 b (lfn_buf + 260) ≡ 1

Collected-suc :
    (k n : ℕ) (name : Text) (lfn_buf : ℕ) (b b' : Bytes)
    → k < 20
    → Collected k n name lfn_buf b
    → Parsed (k + 1 == n) k name lfn_buf b b'
    → Collected (k + 1) n name lfn_buf b'
Collected-suc k n name lfn_buf b b' small c p = record {
  units = λ j inside. elim (Bool-cases (ltb j (13 * k))) [
    | inl old ↦ p.keeps (lfn_buf + j) (ground arith) (ground arith) ∙ c.units j (ground arith)
    | inr new ↦
        let here : lfn_buf + j ≡ lfn_buf + 13 * k + (j - 13 * k) = ground arith in
        let same : 13 * k + (j - 13 * k) ≡ j = ground arith in
        ap (λ a. load8 b' a) here
        ∙ p.units (j - 13 * k) (ground arith)
        ∙ ap (λ i. unit_at name i % 256) same
  ];
  stop = λ some_read few.
      let here : lfn_buf + 13 * (k + 1) ≡ lfn_buf + 13 * k + 13 = omega arith in
      ap (λ a. load8 b' a) here ∙ p.stop (omega arith);
  flag = λ some_read all. p.flag ((==_iff (k + 1) n).1 all);
}

pub Slot-same :
    (n k k' : ℕ) (name : Text) (raw raw' : ℕ) (b : Bytes)
    → k ≡ k'
    → raw ≡ raw'
    → Slot (k + 1 == n) k name raw b
    → Slot (k' + 1 == n) k' name raw' b
Slot-same n k k' name raw raw' b number place s =
    subst (λ x. Slot (k' + 1 == n) k' name x b) place
      (subst (λ x. Slot (x + 1 == n) x name raw b) number s)

-- From `raw` on stand `r` entries of a long name, the first of them entry `k` of `n`.
abbrev pub Slots : ℕ → ℕ → ℕ → Text → ℕ → Bytes → Type 0
Slots r k n name raw b = (i : ℕ) → i < r → Slot (k + i + 1 == n) (k + i) name (raw + i * 32) b

pub Slots-first :
    (r k n : ℕ) (name : Text) (raw : ℕ) (b : Bytes)
    → Slots (suc r) k n name raw b
    → Slot (k + 1 == n) k name raw b
Slots-first r k n name raw b slots =
    Slot-same n (k + 0) k name (raw + 0 * 32) raw b (omega arith) (omega arith)
      (slots 0 (omega arith))

-- The entries behind the first one, once that has been read.
pub Slots-later :
    (r k n : ℕ) (name : Text) (raw lfn_buf : ℕ) (b : Bytes)
    → k < 20
    → Disjoint raw (suc r * 32) lfn_buf 261
    → Slots (suc r) k n name raw b
    → Slots r (k + 1) n name (raw + 32) (parse_long raw lfn_buf (lfn_buf + 260) b)
Slots-later r k n name raw lfn_buf b few apart slots i small =
    let first = Slots-first r k n name raw b slots in
    let p = parse_long-Parsed (k + 1 == n) k name raw lfn_buf b few (omega arith) first in
    let b1 = parse_long raw lfn_buf (lfn_buf + 260) b in
    Slot-same n (k + suc i) (k + 1 + i) name (raw + suc i * 32) (raw + 32 + i * 32) b1 (omega arith)
      (omega arith)
      (Slot-frame (k + suc i + 1 == n) (k + suc i) name (raw + suc i * 32) b b1
        (λ a lo hi. p.keeps a (omega arith) (omega arith)) (slots (suc i) (omega arith)))

pub read_slots-Collected :
    (r k n : ℕ) (name : Text) (raw lfn_buf : ℕ) (b : Bytes)
    → k + r ≡ n
    → n ≤ 20
    → Disjoint raw (r * 32) lfn_buf 261
    → Slots r k n name raw b
    → Collected k n name lfn_buf b
    → Collected n n name lfn_buf (read_slots r raw lfn_buf b)
unfolding read_slots
read_slots-Collected zero k n name raw lfn_buf b all few apart slots c =
    let done : k ≡ n = omega arith in subst (λ i. Collected i n name lfn_buf b) done c
read_slots-Collected (suc r) k n name raw lfn_buf b all few apart slots c =
    let first = Slots-first r k n name raw b slots in
    let p = parse_long-Parsed (k + 1 == n) k name raw lfn_buf b (omega arith) (omega arith) first in
    let b1 = parse_long raw lfn_buf (lfn_buf + 260) b in
    read_slots-Collected r (k + 1) n name (raw + 32) lfn_buf b1 (omega arith) few (omega arith)
      (Slots-later r k n name raw lfn_buf b (omega arith) apart slots)
      (Collected-suc k n name lfn_buf b b1 (omega arith) c p)
