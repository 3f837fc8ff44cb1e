-- ===== src/Fat32/Search.antt =====
-- file-systems/fat32.c: the entries of a directory one by one, and the search for the entry that a path
-- names. `none`: the fuel ran out. One unit of it is spent on each entry and on each cluster.
use staxus.Base.{
  ℕ, zero, suc, ◌+◌, ◌*◌, ◌/◌, ◌%◌, Bool, not, ◌⊎◌, inl, inr, Option, none, some, [], ◌∷◌, ◌==◌,
  ltb, leb, if◌then◌else◌, length, map, drop, ◌>>=◌,
}
use staxus.Strings.Utils.{tolower}
use staxus.Files.{Text, same}
use staxus.Fat32.{Machine, FatMount, end_of_chain, read_cluster}
use staxus.Fat32.Chain.{get_next_cluster}
use staxus.Fat32.Entries.{FatEntry, entries_per_cluster, destroy_entry}
use staxus.Fat32.Directory.{Iterator, lfn_buf, lfn, create_cluster_iterator, destroy_iterator}
use staxus.Fat32.Parse.{entry_size, parse_fat32_entry}

abbrev pub buffer_of : Iterator → ℕ
buffer_of i = elim i.cluster_buf [ none ↦ 0 | some buf ↦ buf ]

-- `iter -> localIdx++; iter -> entryIdx++;`
abbrev pub step_entry : Iterator → Iterator
step_entry i = record i {
  local_idx = (i.local_idx + 1) % 4294967296;
  entry_idx = (i.entry_idx + 1) % 4294967296;
}

-- The entry as it is returned, with its place.
abbrev pub placed : Iterator → FatEntry → FatEntry
placed i e = record e { parent_cluster = i.start_cluster; parent_entry_idx = i.entry_idx }

abbrev pub bad_cluster : ℕ
bad_cluster = 0x0FFFFFF7

abbrev pub attribute_directory : ℕ
attribute_directory = 0x10

-- `(attr & ATTRIBUTE_DIRECTORY) != 0`
abbrev pub is_directory : ℕ → Bool
is_directory attr = attr / 16 % 2 == 1

-- `stricmp(a, b) == 0`
abbrev pub same_name : Text → Text → Bool
same_name a b = same (map tolower a) (map tolower b)

abbrev pub skip_slash : Text → Text
skip_slash [] = []
skip_slash (c ∷ cs) = if c == b'/' then cs else c ∷ cs

-- The characters before the first '/'.
abbrev pub component : Text → Text
component [] = []
component (c ∷ cs) = let rest = component cs in if c == b'/' then [] else c ∷ rest

-- `path[chrIdx] == 0`. The index counts from `name`, which stands behind a '/' in front of the path.
abbrev pub ends_at : ℕ → Text → Bool
ends_at i path = length path == i

module _ {W : Type 0} (m : Machine W) (t : FatMount W) where
  -- Each round looks at an entry of the cluster, or goes on to the next cluster. The entry, or the null
  -- pointer, and the iterator.
  unfoldable pub next_entry : ℕ → Iterator → W → Option (Option FatEntry × Iterator × W)
  unfolding parse_fat32_entry get_next_cluster read_cluster
  next_entry zero i w = none
  next_entry (suc f) i w =
      let j = step_entry i in
      let (next, w1) = get_next_cluster m t i.cluster w in
      let k = record i { cluster = next; local_idx = 0 } in
      let (ok, w2) = read_cluster t (buffer_of i) next w1 in
      if leb end_of_chain i.cluster
      then some (none, i, w)
      else if ltb i.local_idx (entries_per_cluster m t)
      then (do
        (o, w3) ← parse_fat32_entry m f (buffer_of i + i.local_idx * 32) (lfn_buf i) (lfn i) w
        elim o [ none ↦ next_entry f j w3 | some e ↦ some (some (placed i e), j, w3) ])
      else if leb end_of_chain next
      then some (none, k, w1)
      else if ok
      then next_entry f k w2
      else some (none, k, w2)

  -- The loop of findFAT32Entry up to the first entry with the name.
  unfoldable pub match_from : ℕ → Text → Iterator → W → Option (Option FatEntry × Iterator × W)
  unfolding next_entry destroy_entry
  match_from zero name i w = none
  match_from (suc f) name i w = do
    (o, j, w1) ← next_entry f i w
    elim o [
      | none ↦ some (none, j, w1)
      | some e ↦
          if same_name e.name name
          then some (some e, j, w1)
          else match_from f name j (destroy_entry m t e w1)
    ]

  -- The entry for a directory without an entry of its own.
  abbrev pub root_named : ℕ → ℕ → Option ℕ × W → Option FatEntry × W
  root_named start at (none, w) = (none, m.memory.free at w)
  root_named start at (some name_at, w) = (
    some (record {
      at = at;
      name_at = name_at;
      name = [];
      parent_cluster = bad_cluster;
      parent_entry_idx = 0;
      cluster = start;
      attr = attribute_directory;
      size = 0;
      crt_time_tenth = 0;
      crt_time = 0;
      crt_date = 0;
      acc_date = 0;
      wrt_time = 0;
      wrt_date = 0;
    }),
    w,
  )

  abbrev pub root_at : ℕ → Option ℕ × W → Option FatEntry × W
  root_at start (none, w) = (none, w)
  root_at start (some at, w) = root_named start at (m.memory.malloc 1 w)

  -- What findFAT32Entry does with the entry it has found, of the first component of `path`: the result,
  -- or the directory to go on in.
  abbrev pub matched : Text → ℕ → ℕ → Option FatEntry × Iterator × W → (Option FatEntry ⊎ ℕ) × W
  matched path chr_idx raw (none, i, w) = (inl none, m.memory.free raw (destroy_iterator m t i w))
  matched path chr_idx raw (some e, i, w) =
      if ends_at chr_idx path
      then (inl (some e), destroy_iterator m t i (m.memory.free raw w))
      else if not (is_directory e.attr)
      then (inl none, m.memory.free raw (destroy_iterator m t i (destroy_entry m t e w)))
      else (inr e.cluster, m.memory.free raw (destroy_iterator m t i (destroy_entry m t e w)))

  -- What follows once there is an iterator, and a copy of the path at `raw`.
  abbrev pub find_step : ℕ → Text → ℕ → Iterator → Option ℕ × W → Option ((Option FatEntry ⊎ ℕ) × W)
  find_step fuel path start i (none, w) = some (inl none, destroy_iterator m t i w)
  find_step fuel path start i (some raw, w) = elim (skip_slash path) [
    | [] ↦
        let (o, w1) =
          root_at start
            (m.memory.malloc entry_size (destroy_iterator m t i (m.memory.free raw w))) in
        some (inl o, w1)
    | ◌∷◌ c cs ↦ do
      (o, j, w1) ← match_from fuel (component (c ∷ cs)) i w
      some (matched path (length (component (c ∷ cs))) raw (o, j, w1))
  ]

  -- One call, without the call of itself at its end.
  abbrev pub find_once : ℕ → Text → ℕ → Option Iterator × W → Option ((Option FatEntry ⊎ ℕ) × W)
  find_once fuel path start (none, w) = some (inl none, w)
  find_once fuel path start (some i, w) =
      find_step fuel path start i (m.memory.malloc (length path + 1) w)

  unfoldable pub find_entry : ℕ → Text → ℕ → W → Option (Option FatEntry × W)
  unfolding create_cluster_iterator match_from destroy_iterator destroy_entry
  find_entry zero path start w = none
  find_entry (suc f) path start w = do
    (found, w1) ← find_once f path start (create_cluster_iterator m t start w)
    elim found [
      | inl o ↦ some (o, w1)
      | inr cluster ↦ find_entry f (drop (length (component (skip_slash path)) + 1) path) cluster w1
    ]

  -- The iterator over a directory's entries.
  abbrev pub path_iterator : Option FatEntry × W → Option Iterator × W
  path_iterator (none, w) = (none, w)
  path_iterator (some e, w) =
      if not (is_directory e.attr)
      then (none, destroy_entry m t e w)
      else (let (o, w1) = create_cluster_iterator m t e.cluster w in (o, destroy_entry m t e w1))

  unfoldable pub create_path_iterator : ℕ → Text → W → Option (Option Iterator × W)
  unfolding find_entry create_cluster_iterator destroy_entry
  create_path_iterator fuel path w = do
    (o, w1) ← find_entry fuel path t.root_cluster w
    some (path_iterator (o, w1))
