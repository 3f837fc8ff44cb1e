-- ===== src/Fat32/Create.antt =====
-- file-systems/fat32.c: new entries, and files as they are opened, written and closed. `n83` is the array
-- of writeFAT32Entry for a short name. Fields that the source leaves unset are 0. `none`: the fuel ran out.
use staxus.Base.{
  ℕ, ◌+◌, ◌-◌, ◌/◌, ◌%◌, Bool, true, false, ◌&&◌, Option, none, some, ◌==◌, ltb, leb, if◌then◌else◌,
  length, ◌>>=◌,
}
use staxus.Memory.Identity.{u64_mod, add64}
use staxus.Files.{Text}
use staxus.Files.Paths.{dirname, basepath}
use staxus.Fat32.{Machine, FatMount, end_of_chain}
use staxus.Fat32.Chain.{set_next_cluster, alloc_cluster, walk, reset_cluster_chain, extend_file}
use staxus.Fat32.Entries.{FatEntry, destroy_entry}
use staxus.Fat32.Parse.{entry_size}
use staxus.Fat32.Search.{is_directory, find_entry}
use staxus.Fat32.Write.{write_entry}
use staxus.Fat32.Transfer.{write_in_buffer}

-- `FAT32EntryInfo`
pub record EntryInfo : Type 0 where
  pub size : ℕ
  pub cluster : ℕ
  pub attr : ℕ

-- The entry that is to be created, at `at`, in the directory at `parent`.
abbrev pub new_entry : ℕ → ℕ → Text → ℕ → ℕ → EntryInfo → FatEntry
new_entry at name_at name parent cluster i = record {
  at = at;
  name_at = name_at;
  name = name;
  parent_cluster = parent;
  parent_entry_idx = 0;
  cluster = cluster;
  attr = i.attr;
  size = i.size;
  crt_time_tenth = 0;
  crt_time = 0;
  crt_date = 0;
  acc_date = 0;
  wrt_time = 0;
  wrt_date = 0;
}

-- `FILE` of a file on FAT32, with its address. Its `internal` is the entry.
pub record FatFile : Type 0 where
  pub at : ℕ
  pub size : ℕ
  pub ptr : ℕ
  pub flags : ℕ
  pub entry : FatEntry

-- `sizeof(FILE)`
abbrev pub file_size : ℕ
file_size = 40

-- `(flags & FILE_OPEN_CREATE) != 0`, and the same for FILE_OPEN_TRUNC and FILE_OPEN_APPEND.
abbrev pub creates : ℕ → Bool
creates flags = flags / 4 % 2 == 1

abbrev pub truncates : ℕ → Bool
truncates flags = flags / 8 % 2 == 1

abbrev pub appends : ℕ → Bool
appends flags = flags / 16 % 2 == 1

module _ {W : Type 0} (m : Machine W) (t : FatMount W) where
  -- `free(dir); free(newEntry); destroyFAT32Entry(dirEntry);`
  abbrev pub give_up : ℕ → ℕ → FatEntry → W → W
  give_up dir at parent w = destroy_entry m t parent (m.memory.free at (m.memory.free dir w))

  -- The entry has been written, or not. `dir` is not freed where it has.
  abbrev pub entry_written : ℕ → FatEntry → Bool × FatEntry × W → Option FatEntry × W
  entry_written dir parent (false, e, w) =
      (none, destroy_entry m t e (destroy_entry m t parent (m.memory.free dir w)))
  entry_written dir parent (true, e, w) = (some e, destroy_entry m t parent w)

  abbrev pub create_named :
      ℕ → ℕ → ℕ → ℕ → FatEntry → Text → ℕ → EntryInfo → Option ℕ × W → Option (Option FatEntry × W)
  create_named fuel n83 dir at parent name cluster i (none, w) =
      some (none, give_up dir at parent w)
  create_named fuel n83 dir at parent name cluster i (some name_at, w) = do
    (ok, e, w1) ←
        write_entry m t fuel n83 (new_entry at name_at name parent.cluster cluster i) false w
    some (entry_written dir parent (ok, e, w1))

  -- The first cluster of the entry: the one that it brings, or a new one.
  abbrev pub first_cluster : EntryInfo → W → ℕ × W
  first_cluster i w = if leb end_of_chain i.cluster then alloc_cluster m t w else (i.cluster, w)

  abbrev pub end_chain : EntryInfo → ℕ → W → W
  end_chain i cluster w =
      if leb end_of_chain i.cluster then (set_next_cluster m t cluster end_of_chain w).1 else w

  abbrev pub create_at :
      ℕ → ℕ → ℕ → FatEntry → Text → EntryInfo → Option ℕ × W → Option (Option FatEntry × W)
  create_at fuel n83 dir parent name i (none, w) =
      some (none, destroy_entry m t parent (m.memory.free dir w))
  create_at fuel n83 dir parent name i (some at, w) =
      let (cluster, w1) = first_cluster i w in
      let w2 = end_chain i cluster w1 in
      if leb end_of_chain i.cluster && leb end_of_chain cluster
      then some (none, give_up dir at parent w1)
      else create_named fuel n83 dir at parent name cluster i (m.memory.malloc (length name + 1) w2)

  abbrev pub create_under :
      ℕ → ℕ → ℕ → Text → EntryInfo → Option FatEntry × W → Option (Option FatEntry × W)
  create_under fuel n83 dir name i (none, w) = some (none, m.memory.free dir w)
  create_under fuel n83 dir name i (some parent, w) =
      create_at fuel n83 dir parent name i (m.memory.malloc entry_size w)

  abbrev pub create_in : ℕ → ℕ → Text → EntryInfo → Option ℕ × W → Option (Option FatEntry × W)
  create_in fuel n83 path i (none, w) = some (none, w)
  create_in fuel n83 path i (some dir, w) = do
    (parent, w1) ← find_entry m t fuel (dirname path) t.root_cluster w
    create_under fuel n83 dir (basepath path) i (parent, w1)

  -- An entry that is there already is returned as it is.
  unfoldable pub create_entry : ℕ → ℕ → Text → EntryInfo → W → Option (Option FatEntry × W)
  unfolding find_entry write_entry alloc_cluster set_next_cluster destroy_entry dirname basepath
  create_entry fuel n83 path i w = do
    (o, w1) ← find_entry m t fuel path t.root_cluster w
    elim o [
      | some e ↦ some (some e, w1)
      | none ↦ create_in fuel n83 path i (m.memory.malloc (length path + 1) w1)
    ]

  abbrev pub opened_file : ℕ → FatEntry → Option ℕ × W → Option FatFile × W
  opened_file flags e (none, w) = (none, destroy_entry m t e w)
  opened_file flags e (some at, w) = (
    some (record {
      at = at;
      size = e.size;
      ptr = if appends flags then e.size else 0;
      flags = flags;
      entry = e;
    }),
    w,
  )

  -- Where the file is truncated, the size of the entry changes, but the directory does not.
  abbrev pub open_entry : ℕ → ℕ → FatEntry → W → Option (Option FatFile × W)
  open_entry fuel flags e w =
      if is_directory e.attr
      then some (none, destroy_entry m t e w)
      else if truncates flags
      then (do
        (ok, w1) ← reset_cluster_chain fuel m t e.cluster w
        let e' = record e { size = 0 }
        some (
            if ok
            then opened_file flags e' (m.memory.malloc file_size w1)
            else (none, destroy_entry m t e' w1)))
      else some (opened_file flags e (m.memory.malloc file_size w))

  abbrev pub found_or_created : ℕ → ℕ → Text → ℕ → W → Option (Option FatEntry × W)
  found_or_created fuel n83 path flags w =
      if creates flags
      then create_entry fuel n83 path (record { size = 0; cluster = end_of_chain; attr = 0 }) w
      else find_entry m t fuel path t.root_cluster w

  unfoldable pub open_file : ℕ → ℕ → Text → ℕ → W → Option (Option FatFile × W)
  unfolding create_entry find_entry reset_cluster_chain destroy_entry
  open_file fuel n83 path flags w = do
    (o, w1) ← found_or_created fuel n83 path flags w
    elim o [ none ↦ some (none, w1) | some e ↦ open_entry fuel flags e w1 ]

  unfoldable pub close_file : FatFile → W → W
  unfolding destroy_entry
  close_file f w = m.memory.free f.at (destroy_entry m t f.entry w)

  -- `existingClusters` and `neededClusters`
  abbrev pub existing_clusters : ℕ → ℕ
  existing_clusters size =
      if size == 0 then 1 else (size + t.bytes_per_cluster - 1) / t.bytes_per_cluster % 4294967296

  abbrev pub needed_clusters : ℕ → ℕ → ℕ
  needed_clusters off len =
      (len + off + t.bytes_per_cluster - 1) % u64_mod / t.bytes_per_cluster % 4294967296

  -- The file has been extended: its entry is written in place, and whether that fails is not looked at.
  abbrev pub extended : ℕ → ℕ → FatFile → ℕ → Bool × ℕ × W → Option (Bool × FatFile × W)
  extended fuel n83 f size (false, start, w) =
      some (false, record f { entry = record f.entry { cluster = start } }, w)
  extended fuel n83 f size (true, start, w) = do
    let e = record f.entry { cluster = start; size = size % 4294967296 }
    (ok, e', w1) ← write_entry m t fuel n83 e true w
    some (true, record f { size = size % 4294967296; entry = e' }, w1)

  abbrev pub extend_to : ℕ → ℕ → FatFile → ℕ → ℕ → W → Option (Bool × FatFile × W)
  extend_to fuel n83 f off len w =
      if ltb f.entry.size (add64 off len)
      then extended fuel n83 f (add64 off len) (
          extend_file m t f.entry.cluster (existing_clusters f.entry.size) (needed_clusters off len)
            w)
      else some (true, f, w)

  -- The file reaches as far as it has to, or could not be extended.
  abbrev pub write_extended : ℕ → ℕ → ℕ → ℕ → Bool × FatFile × W → Option (ℕ × FatFile × W)
  write_extended fuel src off len (false, f, w) = some (0, f, w)
  write_extended fuel src off len (true, f, w) = do
    let (cluster, w1) = walk (off / t.bytes_per_cluster) m t f.entry.cluster w
    (n, w2) ←
        write_in_buffer m t fuel src cluster (off % t.bytes_per_cluster) len
          (m.memory.aalloc t.bytes_per_cluster 128 w1)
    some (n, f, w2)

  -- The number of bytes written from `src` on, the file, and the world.
  unfoldable pub write_file : ℕ → ℕ → FatFile → ℕ → ℕ → ℕ → W → Option (ℕ × FatFile × W)
  unfolding write_entry extend_file walk
  write_file fuel n83 f src off len w = do
    (ok, f', w1) ← extend_to fuel n83 f off len w
    write_extended fuel src off len (ok, f', w1)
