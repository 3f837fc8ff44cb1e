-- ===== src/Files/Tests.antt =====
-- The theorems on files with a driver that claims every device and reads nothing new.
use staxus.Base.{ℕ, ◌+◌, ◌≡◌, true, none, some, [], ◌∷◌, ◌++◌, arith}
use staxus.Files.{
  Text, Handle, FileSystem, FsMount, Allocator, Vfs, mount_file_system, unmount_file_system,
  get_mount,
}
use staxus.Files.Table.{Distinct}
use staxus.Files.Mounts.{Unmounted, Mounted, unmount-Unmounted, mount-Mounted}
use staxus.Files.Lookup.{Served, get_mount-Served}
use staxus.Files.Paths.{dirname, basepath, dirname-basepath}

-- The world counts the bytes that have been asked for.
abbrev read_half : Handle → ℕ → ℕ → ℕ → ℕ × ℕ
read_half h at n w = (5, w + n)

abbrev driver : FileSystem ℕ
driver = record {
  probe = λ device w. (true, w);
  mount = λ device point w. (some 7, w);
  unmount = λ x w. w;
  fopen = λ x path flags w. (none, w);
  fread = some read_half;
  fclose = none;
  exists = none;
  dopen = λ x path w. (none, w);
  dread = none;
  dclose = none;
}

abbrev bump : Allocator ℕ
bump = record { malloc = λ n w. (some (w + 1), w + n + 1); free = λ p w. w }

abbrev root : Text
root = b'/' ∷ []

abbrev usb : Text
usb = b'/' ∷ b'u' ∷ []

abbrev mount_of : Text → FsMount ℕ
mount_of point = record {
  volume = record { mount_point = point; internal = 7; device = 0 };
  fs = driver;
  at = 1;
  point_at = 2;
}

abbrev two_mounts : Vfs ℕ
two_mounts = record {
  file_systems = driver ∷ [];
  mounted = mount_of root ∷ mount_of usb ∷ [];
  world = 0;
}

two-Distinct : Distinct (mount_of root ∷ mount_of usb ∷ [])
two-Distinct = ((λ e. absurd (ground (arith, e)), tt), (tt, tt))

mount-Mounted_example :
    Mounted (b'd' ∷ []) two_mounts (mount_file_system bump 3 (b'd' ∷ []) two_mounts)
mount-Mounted_example = mount-Mounted bump 3 (b'd' ∷ []) two_mounts (omega arith) two-Distinct

unmount-Unmounted_example : Unmounted root two_mounts (unmount_file_system bump root two_mounts)
unmount-Unmounted_example = unmount-Unmounted bump root two_mounts two-Distinct

get_mount-Served_example :
    Served
      (b'/' ∷ b'u' ∷ b'/' ∷ b'a' ∷ [])
      two_mounts
      (get_mount (b'/' ∷ b'u' ∷ b'/' ∷ b'a' ∷ []) two_mounts)
get_mount-Served_example = get_mount-Served (b'/' ∷ b'u' ∷ b'/' ∷ b'a' ∷ []) two_mounts

dirname-basepath_example :
    (dirname (b'/' ∷ ((b'u' ∷ []) ++ (b'/' ∷ b'a' ∷ []))) ≡ b'/' ∷ b'u' ∷ [])
    × (basepath (b'/' ∷ ((b'u' ∷ []) ++ (b'/' ∷ b'a' ∷ []))) ≡ b'a' ∷ [])
dirname-basepath_example = dirname-basepath b'/' (b'u' ∷ []) (b'a' ∷ []) (omega arith, tt)
