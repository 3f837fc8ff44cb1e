-- ===== src/Files.antt =====
-- file-systems/file-system.c and file-systems/file-system.h: the table of drivers, the table of
-- mounts, and the calls on files, which the driver of a mount serves. A string is the list of its
-- characters before the terminator. A driver is a record of the function pointers that it registers,
-- without fwrite, rename, remove and dmake, whose calls stand behind a `return`;
-- `W` is all that drivers and the allocator change.
pub mod Table
pub mod Mounts
pub mod Lookup
pub mod Calls
pub mod Paths
pub mod Tests
use staxus.Base.{
  ℕ, suc, ◌+◌, Bool, true, false, ◌&&◌, ◌||◌, Option, none, some, List, [], ◌∷◌, ◌++◌, ◌==◌, leb,
  if◌then◌else◌, length, set,
}

abbrev pub Text : Type 0
Text = List ℕ

-- `strcmp(a, b) == 0`
abbrev pub same : Text → Text → Bool
same [] [] = true
same [] (y ∷ ys) = false
same (x ∷ xs) [] = false
same (x ∷ xs) (y ∷ ys) = x == y && same xs ys

-- `memcmp(path, point, strlen(point)) == 0`: a path that ends first differs at its terminator. The
-- result is `path + strlen(point)` where they agree.
abbrev pub strip : Text → Text → Option Text
strip [] path = some path
strip (x ∷ xs) [] = none
strip (x ∷ xs) (y ∷ ys) = if x == y then strip xs ys else none

-- `filepath[mpLen]` is '/' or the terminator, or the mount point is "/".
abbrev pub boundary : Text → Text → Bool
boundary point [] = true
boundary point (c ∷ cs) = c == b'/' || same point (b'/' ∷ [])

-- The path below the mount point, if the mount covers the path.
abbrev pub relative : Text → Text → Option Text
relative point path = elim (strip point path) [
  | none ↦ none
  | some rel ↦ if boundary point rel then some rel else none
]

-- `strchr(mode, c) != NULL`
abbrev pub has_char : ℕ → Text → Bool
has_char c [] = false
has_char c (x ∷ xs) = x == c || has_char c xs

-- `FSMount` without its driver: what a driver sees of a mount.
pub record Volume : Type 0 where
  pub mount_point : Text
  pub internal : ℕ
  pub device : ℕ

-- A file without its mount; the handle is the driver's.
pub record Handle : Type 0 where
  pub handle : ℕ
  pub size : ℕ
  pub flags : ℕ

module _ (W : Type 0) where
  -- `FileSystem`. A pointer that the source tests against NULL is an option.
  pub record FileSystem : Type 0 where
    pub probe : ℕ → W → Bool × W
    pub mount : ℕ → Text → W → Option ℕ × W
    pub unmount : Volume → W → W
    pub fopen : Volume → Text → ℕ → W → Option Handle × W
    pub fread : Option (Handle → ℕ → ℕ → W → ℕ × W)
    pub fclose : Option (Handle → W → W)
    pub exists : Option (Volume → Text → W → Bool × W)
    pub dopen : Volume → Text → W → Option ℕ × W
    pub dread : Option (ℕ → W → Option ℕ × W)
    pub dclose : Option (ℕ → W → Bool × W)

  -- `FSMount`, with its own address and that of its mount point.
  pub record FsMount : Type 0 where
    pub volume : Volume
    pub fs : FileSystem
    pub at : ℕ
    pub point_at : ℕ

  -- malloc and free of memory/alloc.c: the address, or null.
  pub record Allocator : Type 0 where
    pub malloc : ℕ → W → Option ℕ × W
    pub free : ℕ → W → W

  -- The static variables of the file, and the rest of the system.
  pub record Vfs : Type 0 where
    pub file_systems : List FileSystem
    pub mounted : List FsMount
    pub world : W

abbrev pub max_file_systems : ℕ
max_file_systems = 64

abbrev pub max_mounted_devices : ℕ
max_mounted_devices = 64

-- `sizeof(FsMount)`
abbrev pub mount_size : ℕ
mount_size = 32

module _ {W : Type 0} where
  abbrev pub point_of : FsMount W → Text
  point_of x = x.volume.mount_point

  unfoldable pub register_file_system : FileSystem W → Vfs W → Bool × Vfs W
  register_file_system fs v =
      if leb max_file_systems (length v.file_systems)
      then (false, v)
      else (true, record v { file_systems = v.file_systems ++ (fs ∷ []) })

  -- The loop of MountFileSystem over the mounts.
  abbrev pub is_mounted : Text → List (FsMount W) → Bool
  is_mounted point [] = false
  is_mounted point (x ∷ xs) = same (point_of x) point || is_mounted point xs

  -- What follows once a driver has claimed the device.
  unfoldable pub attach : Allocator W → FileSystem W → ℕ → Text → W → Option (FsMount W) × W
  attach a fs device point w0 =
      let (o1, w1) = a.malloc mount_size w0 in
      elim o1 [
        | none ↦ (none, w1)
        | some m ↦
            let (o2, w2) = a.malloc (length point + 1) w1 in
            elim o2 [
              | none ↦ (none, a.free m w2)
              | some s ↦
                  let (o3, w3) = fs.mount device point w2 in
                  elim o3 [
                    | none ↦ (none, a.free m (a.free s w3))
                    | some i ↦ (
                      some (record {
                        volume = record { mount_point = point; internal = i; device = device };
                        fs = fs;
                        at = m;
                        point_at = s;
                      }),
                      w3,
                    )
                  ]
            ]
      ]

  -- The loop of MountFileSystem over the drivers: the first that claims the device decides.
  unfoldable pub mount_with :
      Allocator W → List (FileSystem W) → ℕ → Text → W → Option (FsMount W) × W
  mount_with a [] device point w = (none, w)
  mount_with a (fs ∷ rest) device point w =
      let later = mount_with a rest device point (fs.probe device w).1 in
      if (fs.probe device w).0 then attach a fs device point (fs.probe device w).1 else later

  -- The source writes the new mount to `mounted[mountedCount++]` without comparing the count with the
  -- array's 64 places. This is its effect while there is a place left; with 64 mounts the source writes
  -- behind the array, which is not modelled.
  unfoldable pub mount_file_system : Allocator W → ℕ → Text → Vfs W → Bool × Vfs W
  mount_file_system a device point v =
      if is_mounted point v.mounted
      then (false, v)
      else (let (o, w) = mount_with a v.file_systems device point v.world in
          elim o [
            | none ↦ (false, record v { world = w })
            | some x ↦ (true, record v { mounted = v.mounted ++ (x ∷ []); world = w })
          ])

  -- The loop of UnmountFileSystem: the index of the mount with a mount point, and the mount.
  unfoldable pub find_mount : Text → List (FsMount W) → Option (ℕ × FsMount W)
  find_mount point [] = none
  find_mount point (x ∷ xs) =
      let rest = find_mount point xs in
      if same (point_of x) point
      then some (0, x)
      else elim rest [ none ↦ none | some (i, y) ↦ some (suc i, y) ]

  abbrev pub last_of : FsMount W → List (FsMount W) → FsMount W
  last_of x [] = x
  last_of x (y ∷ ys) = last_of y ys

  abbrev pub drop_last : List (FsMount W) → List (FsMount W)
  drop_last [] = []
  drop_last (x ∷ []) = []
  drop_last (x ∷ y ∷ ys) = x ∷ drop_last (y ∷ ys)

  -- `mounted[i] = mounted[--mountedCount]`
  unfoldable pub remove_at : ℕ → FsMount W → List (FsMount W) → List (FsMount W)
  remove_at i x xs = drop_last (set xs i (last_of x xs))

  -- What UnmountFileSystem does with what the loop has found.
  abbrev pub unmount_found : Allocator W → Vfs W → Option (ℕ × FsMount W) → Bool × Vfs W
  unmount_found a v none = (false, v)
  unmount_found a v (some (i, x)) = (
    true,
    record v {
      mounted = remove_at i x v.mounted;
      world = a.free x.at (a.free x.point_at (x.fs.unmount x.volume v.world));
    },
  )

  unfoldable pub unmount_file_system : Allocator W → Text → Vfs W → Bool × Vfs W
  unfolding remove_at find_mount
  unmount_file_system a point v = unmount_found a v (find_mount point v.mounted)

  -- The loop of getMount: `longest` is `longestMatch`, `best` what the earlier rounds found.
  unfoldable pub get_mount_from :
      Text → ℕ → Option (FsMount W × Text) → List (FsMount W) → Option (FsMount W × Text)
  get_mount_from path longest best [] = best
  get_mount_from path longest best (x ∷ xs) =
      let skip = get_mount_from path longest best xs in
      let len = length (point_of x) in
      if leb len longest then skip else elim (relative (point_of x) path) [
        | none ↦ skip
        | some rel ↦ get_mount_from path len (some (x, rel)) xs
      ]

  -- The mount that serves a path, and `*relPath`.
  unfoldable pub get_mount : Text → Vfs W → Option (FsMount W × Text)
  get_mount path v = get_mount_from path 0 none v.mounted
