-- ===== src/Fat32/Calls.antt =====
-- file-systems/fat32.c: the calls on paths and on open directories, and the registration of the driver.
-- `n83` is the array of writeFAT32Entry for a short name. `none`: the fuel ran out.
use staxus.Base.{ℕ, Bool, true, false, Option, none, some, [], ◌∷◌, if◌then◌else◌, ◌>>=◌}
use staxus.Files.{Text, FileSystem, Vfs, register_file_system, Allocator}
use staxus.Fat32.{Machine, FatMount, end_of_chain}
use staxus.Fat32.Chain.{reset_cluster_chain}
use staxus.Fat32.Entries.{FatEntry, destroy_entry}
use staxus.Fat32.Directory.{Iterator, destroy_iterator}
use staxus.Fat32.Search.{
  attribute_directory, is_directory, next_entry, find_entry, create_path_iterator,
}
use staxus.Fat32.Write.{write_entry}
use staxus.Fat32.Create.{EntryInfo, create_entry}

-- `entry -> name[0] = (char) 0xE5`. The name of the root is its terminator only, which is lost.
abbrev pub mark_deleted : Text → Text
mark_deleted [] = 0xE5 ∷ []
mark_deleted (c ∷ cs) = 0xE5 ∷ cs

-- `DirEntry`, with its address. Its name is the name of its entry.
pub record DirEntry : Type 0 where
  pub at : ℕ
  pub internal : FatEntry
  pub size : ℕ
  pub kind : ℕ

-- `Dir`, with its address.
pub record FatDir : Type 0 where
  pub at : ℕ
  pub last : Option DirEntry
  pub internal : Iterator

-- `sizeof(DirEntry)`, `sizeof(Dir)` and `sizeof(FileSystem)`
abbrev pub dir_entry_size : ℕ
dir_entry_size = 32

abbrev pub dir_size : ℕ
dir_size = 24

abbrev pub file_system_size : ℕ
file_system_size = 112

module _ {W : Type 0} (m : Machine W) (t : FatMount W) where
  unfoldable pub entry_exists : ℕ → Text → W → Option (Bool × W)
  unfolding find_entry destroy_entry
  entry_exists fuel path w = do
    (o, w1) ← find_entry m t fuel path t.root_cluster w
    some (elim o [ none ↦ (false, w1) | some e ↦ (true, destroy_entry m t e w1) ])

  -- The clusters of the entry are freed once it is marked.
  abbrev pub delete_marked : ℕ → Bool × FatEntry × W → Option (Bool × W)
  delete_marked fuel (false, e, w) = some (false, destroy_entry m t e w)
  delete_marked fuel (true, e, w) = do
    (ok, w1) ← reset_cluster_chain fuel m t e.cluster w
    some (ok, destroy_entry m t e w1)

  abbrev pub delete_found : ℕ → ℕ → FatEntry → W → Option (Bool × W)
  delete_found fuel n83 e w = do
    (marked, e', w1) ← write_entry m t fuel n83 (record e { name = mark_deleted e.name }) true w
    delete_marked fuel (marked, e', w1)

  unfoldable pub delete_entry : ℕ → ℕ → Text → W → Option (Bool × W)
  unfolding find_entry write_entry reset_cluster_chain destroy_entry
  delete_entry fuel n83 path w = do
    (o, w1) ← find_entry m t fuel path t.root_cluster w
    elim o [ none ↦ some (false, w1) | some e ↦ delete_found fuel n83 e w1 ]

  abbrev pub entry_info : FatEntry → EntryInfo
  entry_info e = record { size = e.size; cluster = e.cluster; attr = e.attr }

  -- The new entry is there: the old one is marked as deleted. Where that fails, both stay.
  abbrev pub move_created : ℕ → ℕ → FatEntry → Option FatEntry × W → Option (Bool × W)
  move_created fuel n83 e (none, w) = some (false, destroy_entry m t e w)
  move_created fuel n83 e (some new, w) = do
    (ok, e', w1) ← write_entry m t fuel n83 (record e { name = mark_deleted e.name }) true w
    some (ok, destroy_entry m t e' (destroy_entry m t new w1))

  abbrev pub move_found : ℕ → ℕ → Text → FatEntry → Option FatEntry × W → Option (Bool × W)
  move_found fuel n83 path e (some there, w) =
      some (false, destroy_entry m t e (destroy_entry m t there w))
  move_found fuel n83 path e (none, w) = do
    (o, w1) ← create_entry m t fuel n83 path (entry_info e) w
    move_created fuel n83 e (o, w1)

  unfoldable pub move_entry : ℕ → ℕ → Text → Text → W → Option (Bool × W)
  unfolding find_entry create_entry write_entry destroy_entry
  move_entry fuel n83 old new w = do
    (o, w1) ← find_entry m t fuel old t.root_cluster w
    elim o [
      | none ↦ some (false, w1)
      | some e ↦ do
        (there, w2) ← find_entry m t fuel new t.root_cluster w1
        move_found fuel n83 new e (there, w2)
    ]

  unfoldable pub make_dir : ℕ → ℕ → Text → W → Option (Bool × W)
  unfolding find_entry create_entry destroy_entry
  make_dir fuel n83 path w = do
    (o, w1) ← find_entry m t fuel path t.root_cluster w
    elim o [
      | some e ↦ some (false, destroy_entry m t e w1)
      | none ↦ do
        (new, w2) ←
            create_entry m t fuel n83 path
              (record { size = 0; cluster = end_of_chain; attr = attribute_directory }) w1
        some (elim new [ none ↦ (false, w2) | some e ↦ (true, destroy_entry m t e w2) ])
    ]

  abbrev pub opened_dir : Iterator → Option ℕ × W → Option FatDir × W
  opened_dir i (none, w) = (none, destroy_iterator m t i w)
  opened_dir i (some at, w) = (some (record { at = at; last = none; internal = i }), w)

  unfoldable pub open_dir : ℕ → Text → W → Option (Option FatDir × W)
  unfolding create_path_iterator destroy_iterator
  open_dir fuel path w = do
    (o, w1) ← create_path_iterator m t fuel path w
    some (elim o [ none ↦ (none, w1) | some i ↦ opened_dir i (m.memory.malloc dir_size w1) ])

  -- `if(dir -> last != NULL && …) destroyFAT32Entry(dir -> last -> internal);` The `DirEntry` itself is
  -- not freed.
  abbrev pub drop_last_entry : Option DirEntry → W → W
  drop_last_entry none w = w
  drop_last_entry (some e) w = destroy_entry m t e.internal w

  -- DIR_ENTRY_DIR is 1, and DIR_ENTRY_FILE is 0.
  abbrev pub dir_entry_of : ℕ → FatEntry → DirEntry
  dir_entry_of at e = record {
    at = at;
    internal = e;
    size = e.size;
    kind = if is_directory e.attr then 1 else 0;
  }

  abbrev pub read_entry : FatDir → FatEntry → Option ℕ × W → Option DirEntry × FatDir × W
  read_entry d e (none, w) = (none, d, destroy_entry m t e w)
  read_entry d e (some at, w) = (
    some (dir_entry_of at e),
    record d { last = some (dir_entry_of at e) },
    drop_last_entry d.last w,
  )

  unfoldable pub read_dir : ℕ → FatDir → W → Option (Option DirEntry × FatDir × W)
  unfolding next_entry destroy_entry
  read_dir fuel d w = do
    (o, i, w1) ← next_entry m t fuel d.internal w
    let d' = record d { internal = i }
    some (elim o [
      | none ↦ (none, d', w1)
      | some e ↦ read_entry d' e (m.memory.malloc dir_entry_size w1)
    ])

  unfoldable pub close_dir : Option FatDir → W → Bool × W
  unfolding destroy_iterator destroy_entry
  close_dir none w = (false, w)
  close_dir (some d) w =
      (true, m.memory.free d.at (destroy_iterator m t d.internal (drop_last_entry d.last w)))

module _ {W : Type 0} where
  -- `fs` holds the functions of the driver.
  abbrev pub register_at : FileSystem W → Option ℕ × W → Vfs W → Bool × Vfs W
  register_at fs (none, w) v = (false, record v { world = w })
  register_at fs (some at, w) v = register_file_system fs (record v { world = w })

  unfoldable pub register_fat32_file_system : Allocator W → FileSystem W → Vfs W → Bool × Vfs W
  unfolding register_file_system
  register_fat32_file_system a fs v = register_at fs (a.malloc file_system_size v.world) v
