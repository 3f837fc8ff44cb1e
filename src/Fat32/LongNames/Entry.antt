-- ===== src/Fat32/LongNames/Entry.antt =====
-- The entry behind the entries of a long name, as nextFAT32Entry returns it.
use staxus.Base.{
  [], ◌∷◌, inl, inr, ℕ, zero, suc, ◌+◌, ◌*◌, ◌%◌, ◌<◌, ◌≤◌, ◌≡◌, ◌≢◌, ◌⊎◌, refl, sym, ap, ◌∙◌, true,
  false, none, some, ◌==◌, ◌||◌, ltb, leb, length, All, arith, subst, if◌then◌else◌, ◌>>=◌,
}
use staxus.Memory.Bytes.{Bytes, load8, store8}
use staxus.Files.{Text}
use staxus.Fat32.{Machine, FatMount, end_of_chain}
use staxus.Fat32.Entries.{FatEntry, parse_fields, entries_per_cluster, required_lfn_entries}
use staxus.Fat32.Names.{required_lfn_entries-bounds}
use staxus.Fat32.Write.{slot_at, put_slots}
use staxus.Fat32.Directory.{Iterator, lfn_buf, lfn}
use staxus.Fat32.Parse.{
  text_from, name_of, entry_size, parse_name_at, parse_entry_at, parse_fat32_entry,
}
use staxus.Fat32.LongNames.Slots.{put_slots-Slot}
use staxus.Fat32.LongNames.RoundTrip.{IsChar, Spelled, text_from-name, put_slots-read_slots}
use staxus.Fat32.LongNames.Reads.{Disjoint, parse_long-Parsed}
use staxus.Fat32.LongNames.Collect.{Slot-same, read_slots, Slots, Slots-first, Slots-later}
use staxus.Fat32.LongNames.Passed.{raw_of, skip_entries, next_entry-Passed}
use staxus.Fat32.Search.{buffer_of, step_entry, placed, next_entry}

-- Calls of malloc succeed and leave the `n` bytes at `p` as they are.
abbrev pub Mallocs : {W : Type 0} → Machine W → ℕ → ℕ → Type 0
Mallocs {W} m p n =
    (size : ℕ) (w : W)
    → (at : ℕ) × (w' : W) × (m.memory.malloc size w ≡ (some at, w'))
      × ((a : ℕ) → p ≤ a → a < p + n → load8 (m.memory.bytes w') a ≡ load8 (m.memory.bytes w) a)

-- The entry at `raw` is that of a file or a directory, and not a deleted one.
pub record IsFile (b : Bytes) (raw : ℕ) : Type 0 where
  pub kind : load8 b (raw + 11) ≢ 0x0F
  pub used : load8 b raw ≢ 0x00
  pub kept : load8 b raw ≢ 0xE5

-- The entries of a long name change nothing but the array and its flag.
read_slots-keeps :
    (r k n : ℕ) (name : Text) (raw lfn_buf a : ℕ) (b : Bytes)
    → k + r ≡ n
    → n ≤ 20
    → Disjoint raw (r * 32) lfn_buf 261
    → Slots r k n name raw b
    → (a < lfn_buf) ⊎ (lfn_buf + 261 ≤ a)
    → load8 (read_slots r raw lfn_buf b) a ≡ load8 b a
unfolding read_slots
read_slots-keeps zero k n name raw lfn_buf a b all few apart slots out = refl
read_slots-keeps (suc r) k n name raw lfn_buf a b all few apart slots out =
    let first = Slots-first r k n name raw b slots in
    let p = parse_long-Parsed (k + 1 == n) k name raw lfn_buf b (omega arith) (omega arith) first in
    read_slots-keeps r (k + 1) n name (raw + 32) lfn_buf a _ (omega arith) few (omega arith)
      (Slots-later r k n name raw lfn_buf b (omega arith) apart slots) out
    ∙ p.keeps a (omega (arith, out, all, few)) (omega (arith, out))

skip_entries-local :
    (r : ℕ) (i : Iterator)
    → i.local_idx + r < 4294967296
    → skip_entries r i
      ≡ record i { local_idx = i.local_idx + r; entry_idx = (skip_entries r i).entry_idx }
unfolding skip_entries
skip_entries-local zero i small =
    let same : i.local_idx ≡ i.local_idx + 0 = omega arith in
    ap (λ x. record i { local_idx = x }) same
skip_entries-local (suc r) i small =
    let next : (i.local_idx + 1) % 4294967296 + r ≡ i.local_idx + suc r = omega (arith, small) in
    skip_entries-local r (step_entry i) (omega (arith, small))
    ∙ ap (λ x. record i { local_idx = x; entry_idx = (skip_entries r (step_entry i)).entry_idx })
        next

module _ {W : Type 0} (m : Machine W) (t : FatMount W) where
  -- parseFAT32Entry takes the long name that stands in the array.
  parsed-name :
      (f raw buf : ℕ) (name : Text) (w : W)
      → Mallocs m buf 261
      → IsFile (m.memory.bytes w) raw
      → load8 (m.memory.bytes w) (buf + 260) ≡ 1
      → Spelled (m.memory.bytes w) buf name
      → All IsChar name
      → length name ≤ 259
      → length name < f
      → (e : FatEntry) × (w' : W) × (parse_fat32_entry m f raw buf (buf + 260) w
          ≡ some (some e, w'))
        × (e.name ≡ name)
  unfolding parse_fat32_entry parse_fields
  parsed-name f raw buf name w mallocs file set spelled chars short enough =
      let b = m.memory.bytes w in
      let (at, w1, got, same) = mallocs entry_size w in
      let b1 = m.memory.bytes w1 in
      let (name_at, w2, got_name, later) = mallocs (length name + 1) w1 in
      let b2 = m.memory.bytes w2 in
      let no_long : (load8 b (raw + 11) == 0x0F) ≡ false = ground (arith, file.kind) in
      let used : (load8 b raw == 0x00 || load8 b raw == 0xE5) ≡ false =
        ground (arith, file.used, file.kept) in
      let still : load8 b1 (buf + 260) ≡ 1 = same (buf + 260) (omega arith) (omega arith) ∙ set in
      let flag : (load8 b1 (buf + 260) == 0) ≡ false = ground (arith, still) in
      let text : text_from f b1 buf ≡ some name =
        text_from-name name f buf b1 chars enough (λ j small.
          same (buf + j) (omega arith) (omega (arith, small, short)) ∙ spelled j small) in
      let named : name_of f raw buf (buf + 260) b1 ≡ some name = rw flag text in
      let w3 = if load8 b2 (buf + 260) == 0 then w2 else m.set_bytes (store8 b2 (buf + 260) 0) w2 in
      (
        parse_fields b2 raw at name_at name,
        w3,
        rw (no_long, used)
            (ap (λ r. parse_entry_at m f raw buf (buf + 260) r) got
              ∙ ap
                  (λ o. elim o [
                    | none ↦ none
                    | some n ↦
                        some
                          (parse_name_at m raw (buf + 260) at n (m.memory.malloc (length n + 1) w1))
                  ])
                  named
              ∙ ap (λ r. some (parse_name_at m raw (buf + 260) at name r)) got_name),
        refl,
      )

  next_entry-file :
      (f : ℕ) (i : Iterator) (w w' : W) (e : FatEntry)
      → i.cluster < end_of_chain
      → i.local_idx < entries_per_cluster m t
      → parse_fat32_entry m f (raw_of m t i) (lfn_buf i) (lfn i) w ≡ some (some e, w')
      → next_entry m t (suc f) i w ≡ some (some (placed i e), step_entry i, w')
  unfolding next_entry
  next_entry-file f i w w' e inside here parsed =
      let more : leb end_of_chain i.cluster ≡ false = ground (arith, inside) in
      let there : ltb i.local_idx (entries_per_cluster m t) ≡ true = ground (arith, here) in
      rw (more, there)
        (ap
          (λ r. do
            (o, w3) ← r
            elim o [
              | none ↦ next_entry m t f (step_entry i) w3
              | some x ↦ some (some (placed i x), step_entry i, w3)
            ])
          parsed)

required-empty : required_lfn_entries [] ≡ 0
unfolding required_lfn_entries
required-empty = refl

required-fits :
    (name : Text)
    → 0 < required_lfn_entries name
    → length name ≤ 259
    → (length name ≤ 13 * required_lfn_entries name) × (required_lfn_entries name ≤ 20)
required-fits [] some_slots short = absurd (omega (arith, some_slots, required-empty))
required-fits (c ∷ cs) some_slots short =
    let (zero_iff, most, cases) = required_lfn_entries-bounds c cs in
    elim cases [
      | inl no_slots ↦ absurd (omega (arith, no_slots, some_slots))
      | inr more ↦ elim more [
        | inl twenty ↦ absurd (omega (arith, twenty.1, short))
        | inr (fits, tight) ↦ (fits, most)
      ]
    ]

-- Where the entries of a long name of at most 259 characters, as writeFAT32Entry puts them in a
-- cluster, lie in front of the iterator, and behind them in the cluster the entry of a file or a directory
-- that is not deleted, nextFAT32Entry returns an entry, and its name is this name. The array and the flag
-- of the iterator lie apart from these entries, calls of malloc succeed and leave them alone, and a write
-- to the memory is what the memory holds from then on; `b` is the buffer before.
pub next_entry-name :
    {W : Type 0} (m : Machine W) (t : FatMount W)
    → ((b : Bytes) (w : W) → m.memory.bytes (m.set_bytes b w) ≡ b)
    → (name : Text) (f sum buf start : ℕ) (i : Iterator) (b : Bytes) (w : W)
    → Mallocs m (lfn_buf i) 261
    → All IsChar name
    → length name ≤ 259
    → 0 < required_lfn_entries name
    → length name < f
    → i.cluster < end_of_chain
    → i.local_idx ≡ start % entries_per_cluster m t
    → i.local_idx + required_lfn_entries name < entries_per_cluster m t
    → buffer_of i ≡ buf
    → Disjoint (raw_of m t i) (required_lfn_entries name * 32 + 32) (lfn_buf i) 261
    → IsFile (m.memory.bytes w) (raw_of m t i + required_lfn_entries name * 32)
    → m.memory.bytes w
      ≡ put_slots
          (required_lfn_entries name)
          (required_lfn_entries name)
          sum
          name
          buf
          (entries_per_cluster m t)
          start
          b
    → (e : FatEntry) × (j : Iterator) × (w' : W) × (next_entry m t
          (required_lfn_entries name + suc f)
          i
          w
        ≡ some (some e, j, w'))
      × (e.name ≡ name)
next_entry-name m t holds name f sum buf start i b w mallocs chars short some_slots enough inside at
      run buffer apart file written =
    let n = required_lfn_entries name in
    let epc = entries_per_cluster m t in
    let (fits, few) = required-fits name some_slots short in
    let raw = raw_of m t i in
    let array = lfn_buf i in
    let place : raw ≡ slot_at buf epc start = omega (arith, at, buffer) in
    let slots : Slots n 0 n name raw (m.memory.bytes w) = λ j small.
      rw (place, written)
        (Slot-same n j (0 + j) name _ _ _ (omega arith) refl (
          put_slots-Slot n n sum name buf epc start b j small (omega arith) few
            (omega (arith, at, run)))) in
    let near : Disjoint raw (n * 32) array 261 = ground (arith, apart) in
    let (after, read, passed) =
      next_entry-Passed m t holds n 0 n (suc f) name i w (omega arith) few inside
        (omega (arith, run)) near slots in
    let keeps : (a : ℕ)
        → (a < array) ⊎ (array + 261 ≤ a)
        → load8 (m.memory.bytes after) a ≡ load8 (m.memory.bytes w) a =
      λ a out.
        ap (λ x. load8 x a) read
        ∙ read_slots-keeps n 0 n name raw array a (m.memory.bytes w) (omega arith) few near slots
            out in
    let place' : raw_of m t (skip_entries n i) ≡ raw + n * 32 =
      ap (λ x. raw_of m t x) (skip_entries-local n i (omega (arith, run))) ∙ omega arith in
    let k = skip_entries n i in
    let stays = skip_entries-local n i (omega (arith, run)) in
    let array' : lfn_buf k ≡ array = ap (λ x. lfn_buf x) stays in
    let cluster' : k.cluster ≡ i.cluster = ap (λ x. x.cluster) stays in
    let local' : k.local_idx ≡ i.local_idx + n = ap (λ x. x.local_idx) stays in
    let file' : IsFile (m.memory.bytes after) (raw + n * 32) = record {
      kind = λ e. file.kind (sym (keeps (raw + n * 32 + 11) (omega (arith, apart))) ∙ e);
      used = λ e. file.used (sym (keeps (raw + n * 32) (omega (arith, apart))) ∙ e);
      kept = λ e. file.kept (sym (keeps (raw + n * 32) (omega (arith, apart))) ∙ e);
    } in
    let (spelled, set) =
      put_slots-read_slots n sum name buf epc start array b short fits some_slots few
        (omega (arith, at, run)) (subst (λ p. Disjoint p (n * 32) array 261) place near) in
    let held : m.memory.bytes after
        ≡ read_slots n (slot_at buf epc start) array (put_slots n n sum name buf epc start b) =
      read ∙ rw (place, written) refl in
    let (e, w', parsed, named) =
      parsed-name m t f (raw + n * 32) array name after mallocs file' (rw held set)
        (rw held spelled) chars short enough in
    (
      placed k e,
      step_entry k,
      w',
      passed
          ∙ next_entry-file m t f k after w' e (omega (arith, cluster', inside))
              (omega (arith, local', run)) (rw (place', array') parsed),
      named,
    )
