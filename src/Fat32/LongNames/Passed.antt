-- ===== src/Fat32/LongNames/Passed.antt =====
-- nextFAT32Entry over the entries of a long name.
use staxus.Base.{
  ℕ, zero, suc, ◌+◌, ◌*◌, ◌%◌, ◌<◌, ◌≤◌, ◌≡◌, refl, ap, ◌∙◌, true, false, ◌==◌, ltb, leb, arith,
}
use staxus.Memory.Bytes.{Bytes, load8}
use staxus.Files.{Text}
use staxus.Fat32.{Machine, FatMount, end_of_chain}
use staxus.Fat32.Entries.{entries_per_cluster}
use staxus.Fat32.Directory.{Iterator, lfn_buf, lfn}
use staxus.Fat32.Parse.{parse_long}
use staxus.Fat32.LongNames.Reads.{Disjoint}
use staxus.Fat32.LongNames.Collect.{read_slots, Slots, Slots-first, Slots-later}
use staxus.Fat32.Search.{buffer_of, step_entry, next_entry}

module _ {W : Type 0} (m : Machine W) (t : FatMount W) where
  -- The address of the entry that the iterator looks at next.
  abbrev pub raw_of : Iterator → ℕ
  raw_of i = buffer_of i + i.local_idx * 32

  next_entry-pass :
      (f : ℕ) (i : Iterator) (w : W)
      → i.cluster < end_of_chain
      → i.local_idx < entries_per_cluster m t
      → load8 (m.memory.bytes w) (raw_of i + 11) ≡ 0x0F
      → next_entry m t (suc f) i w
        ≡ next_entry m t f
            (step_entry i)
            (m.set_bytes (parse_long (raw_of i) (lfn_buf i) (lfn i) (m.memory.bytes w)) w)
  unfolding next_entry
  next_entry-pass f i w inside here kind =
      let more : leb end_of_chain i.cluster ≡ false = ground arith in
      let there : ltb i.local_idx (entries_per_cluster m t) ≡ true = ground arith in
      let long : (load8 (m.memory.bytes w) (raw_of i + 11) == 0x0F) ≡ true = ground arith in
      rw (more, there, long) refl

-- The iterator behind `r` entries.
unfoldable pub skip_entries : ℕ → Iterator → Iterator
skip_entries zero i = i
skip_entries (suc r) i = skip_entries r (step_entry i)

module _ {W : Type 0} (m : Machine W) (t : FatMount W)
    (set_bytes_holds : (b : Bytes) (w : W) → m.memory.bytes (m.set_bytes b w) ≡ b) where
  next_place :
      (i : Iterator)
      → i.local_idx < entries_per_cluster m t
      → raw_of m t (step_entry i) ≡ raw_of m t i + 32
  next_place i small =
      let whole : entries_per_cluster m t < 4294967296 = omega arith in
      let same : (i.local_idx + 1) % 4294967296 ≡ i.local_idx + 1 = omega (arith, whole, small) in
      omega (arith, same)

  -- The world with the long name's entries read, and what nextFAT32Entry does from there on.
  abbrev pub Passed : ℕ → ℕ → Iterator → W → Type 0
  Passed r f i w =
      (after : W) × (m.memory.bytes after
        ≡ read_slots r (raw_of m t i) (lfn_buf i) (m.memory.bytes w))
      × (next_entry m t (r + f) i w ≡ next_entry m t f (skip_entries r i) after)

  pub next_entry-Passed :
      (r k n f : ℕ) (name : Text) (i : Iterator) (w : W)
      → k + r ≡ n
      → n ≤ 20
      → i.cluster < end_of_chain
      → i.local_idx + r ≤ entries_per_cluster m t
      → Disjoint (raw_of m t i) (r * 32) (lfn_buf i) 261
      → Slots r k n name (raw_of m t i) (m.memory.bytes w)
      → Passed r f i w
  unfolding read_slots skip_entries
  next_entry-Passed zero k n f name i w all few inside run apart slots =
      let same : 0 + f ≡ f = omega arith in (w, refl, ap (λ x. next_entry m t x i w) same)
  next_entry-Passed (suc r) k n f name i w all few inside run apart slots =
      let b = m.memory.bytes w in
      let raw = raw_of m t i in
      let b1 = parse_long raw (lfn_buf i) (lfn i) b in
      let w1 = m.set_bytes b1 w in
      let held : m.memory.bytes w1 ≡ b1 = set_bytes_holds b1 w in
      let first = Slots-first r k n name raw b slots in
      let place : raw_of m t (step_entry i) ≡ raw + 32 = next_place i (omega arith) in
      let count : suc r + f ≡ suc (r + f) = omega arith in
      let (after, read, rest) =
        next_entry-Passed r (k + 1) n f name (step_entry i) w1 (omega arith) few inside
          (omega arith) (omega arith)
          (rw (place, held) (Slots-later r k n name raw (lfn_buf i) b (omega arith) apart slots)) in
      (
        after,
        read ∙ rw (place, held) refl,
        ap (λ x. next_entry m t x i w) count
            ∙ next_entry-pass m t (r + f) i w inside (omega arith) first.kind
            ∙ rest,
      )
