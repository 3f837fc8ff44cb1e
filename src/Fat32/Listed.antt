-- ===== src/Fat32/Listed.antt =====
-- What the iterator over a directory returns: the records of the directory's clusters that are in use.
use staxus.Base.{
  ℕ, zero, suc, ◌+◌, ◌*◌, ◌<◌, ◌≡◌, refl, ◌≢◌, ap, Bool, true, false, Option, none, some, ◌||◌,
  ◌==◌, ltb, leb, length, inl, inr, arith, Bool-cases, ◌>>=◌,
}
use staxus.Memory.Bytes.{Bytes, load8}
use staxus.Files.{Text}
use staxus.Fat32.{Machine, FatMount, end_of_chain, read_cluster}
use staxus.Fat32.Chain.{get_next_cluster}
use staxus.Fat32.Entries.{FatEntry, entries_per_cluster, parse_fields}
use staxus.Fat32.Directory.{
  Iterator, create_cluster_iterator, iterator_at, iterator_buffer, iterator_read,
}
use staxus.Fat32.Parse.{entry_size, name_of, parse_name_at, parse_entry_at, parse_fat32_entry}
use staxus.Fat32.Search.{buffer_of, step_entry, placed, next_entry}

-- A record of a file or a directory, and not a deleted one.
pub record InUse (b : Bytes) (raw : ℕ) : Type 0 where
  pub kind : load8 b (raw + 11) ≢ 0x0F
  pub used : load8 b raw ≢ 0x00
  pub kept : load8 b raw ≢ 0xE5

module _ {W : Type 0} (m : Machine W) (t : FatMount W) where
  -- The clusters that follow from `start` on by the file allocation table.
  pub data InChain (start : ℕ) : ℕ → Type 0 where
    first : InChain start start
    following :
        (c : ℕ) (w : W)
        → InChain start c
        → leb end_of_chain c ≡ false
        → InChain start (get_next_cluster m t c w).0

  -- The iterator stands in a cluster of the directory at `start`, and has read it into its buffer.
  pub record OnCluster (start : ℕ) (i : Iterator) : Type 0 where
    pub start_is : i.start_cluster ≡ start
    pub chain : InChain start i.cluster
    pub has_read :
        leb end_of_chain i.cluster ≡ false
        → (w : W) × ((read_cluster t (buffer_of i) i.cluster w).0 ≡ true)

  -- The record that the iterator stands at.
  abbrev pub record_of : Iterator → ℕ
  record_of i = buffer_of i + i.local_idx * 32

  -- The entry of a record in use: the numbers are the record's fields.
  abbrev pub FromRecord : ℕ → W → FatEntry → Type 0
  FromRecord raw before e =
      InUse (m.memory.bytes before) raw
      × ((w : W) × (e ≡ parse_fields (m.memory.bytes w) raw e.at e.name_at e.name))

  -- The entry is that of a record in use, in the part of a cluster's buffer that holds records; the
  -- cluster is one of the directory at `start`.
  pub record Listed (start : ℕ) (e : FatEntry) : Type 0 where
    pub i : Iterator
    pub before : W
    pub parsed : FatEntry
    pub on_cluster : OnCluster start i
    pub inside : leb end_of_chain i.cluster ≡ false
    pub in_cluster : i.local_idx < entries_per_cluster m t
    pub from_record : FromRecord (record_of i) before parsed
    pub is_placed : e ≡ placed i parsed

  -- An entry that parseFAT32Entry returns.
  abbrev Parsed : ℕ → W → Option (Option FatEntry × W) → Type 0
  Parsed raw before none = Unit
  Parsed raw before (some (none, w)) = Unit
  Parsed raw before (some (some e, w)) = FromRecord raw before e

  parse_name_at-Parsed :
      (raw lfn at : ℕ) (name : Text) (before : W) (r : Option ℕ × W)
      → InUse (m.memory.bytes before) raw
      → Parsed raw before (some (parse_name_at m raw lfn at name r))
  unfolding parse_fields
  parse_name_at-Parsed raw lfn at name before (none, w) used = tt
  parse_name_at-Parsed raw lfn at name before (some name_at, w) used = (used, (w, refl))

  parse_entry_at-Parsed :
      (f raw lfn_buf lfn : ℕ) (before : W) (r : Option ℕ × W)
      → InUse (m.memory.bytes before) raw
      → Parsed raw before (parse_entry_at m f raw lfn_buf lfn r)
  parse_entry_at-Parsed f raw lfn_buf lfn before (none, w) used = tt
  parse_entry_at-Parsed f raw lfn_buf lfn before (some at, w) used =
      named (name_of f raw lfn_buf lfn (m.memory.bytes w))
    where
      named :
          (o : Option Text)
          → Parsed raw before (elim o [
            | none ↦ none
            | some name ↦
                some (parse_name_at m raw lfn at name (m.memory.malloc (length name + 1) w))
          ])
      named none = tt
      named (some name) =
          parse_name_at-Parsed raw lfn at name before (m.memory.malloc (length name + 1) w) used

  parse_fat32_entry-Parsed :
      (f raw lfn_buf lfn : ℕ) (w : W) → Parsed raw w (parse_fat32_entry m f raw lfn_buf lfn w)
  unfolding parse_fat32_entry
  parse_fat32_entry-Parsed f raw lfn_buf lfn w =
      let b = m.memory.bytes w in
      elim (Bool-cases (load8 b (raw + 11) == 0x0F)) [
        | inl long ↦ rw long tt
        | inr file ↦ elim (Bool-cases (load8 b raw == 0x00 || load8 b raw == 0xE5)) [
          | inl unused ↦ rw (file, unused) tt
          | inr used ↦
              rw (file, used)
                (parse_entry_at-Parsed f raw lfn_buf lfn w (m.memory.malloc entry_size w) (record {
                  kind = λ e. ground (arith, file, e);
                  used = λ e. ground (arith, used, e);
                  kept = λ e. ground (arith, used, e);
                }))
        ]
      ]

  -- What the iterator returns is listed, and it still stands in the directory.
  abbrev pub Next : ℕ → Option (Option FatEntry × Iterator × W) → Type 0
  Next start none = Unit
  Next start (some (none, j, w)) = Unit
  Next start (some (some e, j, w)) = Listed start e × OnCluster start j

  step_entry-OnCluster :
      (start : ℕ) (i : Iterator) → OnCluster start i → OnCluster start (step_entry i)
  step_entry-OnCluster start i on = record {
    start_is = on.start_is;
    chain = on.chain;
    has_read = on.has_read;
  }

  Next-Parsed :
      (f start : ℕ) (i : Iterator) (w : W) (r : Option (Option FatEntry × W))
      → OnCluster start i
      → leb end_of_chain i.cluster ≡ false
      → i.local_idx < entries_per_cluster m t
      → Parsed (record_of i) w r
      → ((w3 : W) → Next start (next_entry m t f (step_entry i) w3))
      → Next start (do
        (o, w3) ← r
        elim o [
          | none ↦ next_entry m t f (step_entry i) w3
          | some e ↦ some (some (placed i e), step_entry i, w3)
        ])
  Next-Parsed f start i w none on inside here parsed later = tt
  Next-Parsed f start i w (some (none, w3)) on inside here parsed later = later w3
  Next-Parsed f start i w (some (some e, w3)) on inside here parsed later = (
    record {
      i = i;
      before = w;
      parsed = e;
      on_cluster = on;
      inside = inside;
      in_cluster = here;
      from_record = parsed;
      is_placed = refl;
    },
    step_entry-OnCluster start i on,
  )

  pub next_entry-Next :
      (f start : ℕ) (i : Iterator) (w : W) → OnCluster start i → Next start (next_entry m t f i w)
  unfolding next_entry
  next_entry-Next zero start i w on = tt
  next_entry-Next (suc f) start i w on =
      let next = (get_next_cluster m t i.cluster w).0 in
      let w1 = (get_next_cluster m t i.cluster w).1 in
      let k = record i { cluster = next; local_idx = 0 } in
      let ok = (read_cluster t (buffer_of i) next w1).0 in
      let w2 = (read_cluster t (buffer_of i) next w1).1 in
      let step = step_entry-OnCluster start i on in
      elim (Bool-cases (leb end_of_chain i.cluster)) [
        | inl ended ↦ rw ended tt
        | inr inside ↦ elim (Bool-cases (ltb i.local_idx (entries_per_cluster m t))) [
          | inl here ↦
              rw (inside, here)
                (Next-Parsed f start i w _ on inside (ground (arith, here))
                  (parse_fat32_entry-Parsed f (record_of i) _ _ w)
                  (λ w3. next_entry-Next f start (step_entry i) w3 step))
          | inr behind ↦ elim (Bool-cases (leb end_of_chain next)) [
            | inl last ↦ rw (inside, behind, last) tt
            | inr more ↦ elim (Bool-cases ok) [
              | inl read ↦
                  rw (inside, behind, more, read)
                    (next_entry-Next f start k w2 (record {
                      start_is = on.start_is;
                      chain = following i.cluster w on.chain inside;
                      has_read = λ e. (w1, read);
                    }))
              | inr failed ↦ rw (inside, behind, more, failed) tt
            ]
          ]
        ]
      ]

  -- A new iterator stands in the directory's first cluster.
  abbrev pub Starts : ℕ → Option Iterator × W → Type 0
  Starts start (none, w) = Unit
  Starts start (some i, w) = OnCluster start i

  iterator_read-Starts :
      (at start buf : ℕ) (w : W) (r : Bool × W)
      → read_cluster t buf start w ≡ r
      → Starts start (iterator_read m t at start buf r)
  iterator_read-Starts at start buf w (false, w1) e = tt
  iterator_read-Starts at start buf w (true, w1) e = record {
    start_is = refl;
    chain = first;
    has_read = λ inside. (w, ap (λ r. r.0) e);
  }

  iterator_buffer-Starts :
      (at start : ℕ) (r : Option ℕ × W) → Starts start (iterator_buffer m t at start r)
  iterator_buffer-Starts at start (none, w) = tt
  iterator_buffer-Starts at start (some buf, w) =
      iterator_read-Starts at start buf w (read_cluster t buf start w) refl

  iterator_at-Starts : (start : ℕ) (r : Option ℕ × W) → Starts start (iterator_at m t start r)
  iterator_at-Starts start (none, w) = tt
  iterator_at-Starts start (some at, w) = elim (Bool-cases (leb end_of_chain start)) [
    | inl ended ↦ rw ended (record {
      start_is = refl;
      chain = first;
      has_read = λ inside. absurd (ground (arith, ended, inside));
    })
    | inr inside ↦ rw inside (iterator_buffer-Starts at start _)
  ]

  pub create_cluster_iterator-Starts :
      (start : ℕ) (w : W) → Starts start (create_cluster_iterator m t start w)
  unfolding create_cluster_iterator
  create_cluster_iterator-Starts start w = iterator_at-Starts start _
