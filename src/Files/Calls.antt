-- ===== src/Files/Calls.antt =====
-- file-systems/file-system.c: the calls on open files and directories.
use staxus.Base.{
  ℕ, ◌+◌, ◌*◌, ◌/◌, ◌%◌, ◌≤◌, ◌<◌, ◌≡◌, refl, Bool, true, false, Option, none, some, ◌==◌,
  if◌then◌else◌, bit_and, bit_or, arith,
}
use native.Mathlib.Nat.{div-le_of_le-mul, div-mul-le_self, lt-div-mul-add}
use staxus.Memory.Identity.{u64_mod}
use staxus.Files.{Text, has_char, Handle, FsMount, Vfs, get_mount}

-- The flags for a driver's fopen.
unfoldable pub open_flags : Text → ℕ
open_flags mode =
    let f1 = if has_char b'r' mode then bit_or 0 1 else 0 in
    let f2 = if has_char b'w' mode then bit_or f1 (bit_or (bit_or 2 4) 8) else f1 in
    let f3 = if has_char b'a' mode then bit_or f2 (bit_or (bit_or 2 4) 16) else f2 in
    if has_char b'+' mode then bit_or f3 (bit_or 1 2) else f3

module _ (W : Type 0) where
  pub record File : Type 0 where
    pub mount : Option (FsMount W)
    pub handle : Handle
    pub ptr : ℕ

  pub record Dir : Type 0 where
    pub mount : Option (FsMount W)
    pub internal : ℕ

module _ {W : Type 0} where
  unfoldable pub fopen : Text → Text → Vfs W → Option (File W) × Vfs W
  unfolding open_flags
  fopen path mode v = elim (get_mount path v) [
    | none ↦ (none, v)
    | some (x, rel) ↦
        let (o, w) = x.fs.fopen x.volume rel (open_flags mode) v.world in
        elim o [
          | none ↦ (none, record v { world = w })
          | some h ↦ (some (record { mount = some x; handle = h; ptr = 0 }), record v { world = w })
        ]
  ]

  -- The number of elements read, the file, and the world.
  unfoldable pub fread : ℕ → ℕ → File W → W → ℕ × File W × W
  fread size count file w =
      if bit_and file.handle.flags 1 == 0 then (0, file, w) else elim file.mount [
        | none ↦ (0, file, w)
        | some x ↦ elim x.fs.fread [
          | none ↦ (0, file, w)
          | some read ↦
              let (n, w1) = read file.handle file.ptr ((size * count) % u64_mod) w in
              (n / size, record file { ptr = (file.ptr + n) % u64_mod }, w1)
        ]
      ]

  -- Each of these returns at once; what the source has behind the return is never reached.
  unfoldable pub fwrite : ℕ → ℕ → File W → W → ℕ × File W × W
  fwrite size count file w = (0, file, w)

  unfoldable pub rename : Text → Text → Vfs W → Bool × Vfs W
  rename old new v = (false, v)

  unfoldable pub remove : Text → Vfs W → Bool × Vfs W
  remove path v = (false, v)

  unfoldable pub mkdir : Text → Vfs W → Bool × Vfs W
  mkdir path v = (false, v)

  unfoldable pub fclose : File W → W → Bool × W
  fclose file w = elim file.mount [
    | none ↦ (false, w)
    | some x ↦ elim x.fs.fclose [ none ↦ (false, w) | some close ↦ (true, close file.handle w) ]
  ]

  unfoldable pub exists : Text → Vfs W → Bool × Vfs W
  exists path v = elim (get_mount path v) [
    | none ↦ (false, v)
    | some (x, rel) ↦ elim x.fs.exists [
      | none ↦ (false, v)
      | some test ↦
          ((test x.volume rel v.world).0, record v { world = (test x.volume rel v.world).1 })
    ]
  ]

  unfoldable pub opendir : Text → Vfs W → Option (Dir W) × Vfs W
  opendir path v = elim (get_mount path v) [
    | none ↦ (none, v)
    | some (x, rel) ↦
        let (o, w) = x.fs.dopen x.volume rel v.world in
        elim o [
          | none ↦ (none, record v { world = w })
          | some d ↦ (some (record { mount = some x; internal = d }), record v { world = w })
        ]
  ]

  unfoldable pub readdir : Dir W → W → Option ℕ × W
  readdir dir w = elim dir.mount [
    | none ↦ (none, w)
    | some x ↦ elim x.fs.dread [ none ↦ (none, w) | some read ↦ read dir.internal w ]
  ]

  unfoldable pub closedir : Dir W → W → Bool × W
  closedir dir w = elim dir.mount [
    | none ↦ (false, w)
    | some x ↦ elim x.fs.dclose [ none ↦ (false, w) | some close ↦ close dir.internal w ]
  ]

  unfoldable pub ftell : File W → ℕ
  ftell file = file.ptr

  unfoldable pub fseek : File W → ℕ → ℕ → Bool × File W
  fseek file offset origin =
      if origin == 1
      then (true, record file { ptr = (file.ptr + offset) % u64_mod })
      else if origin == 0
      then (true, record file { ptr = offset })
      else if origin == 2
      then (true, record file { ptr = (file.handle.size + offset) % u64_mod })
      else (false, file)

  unfoldable pub rewind : File W → File W
  unfolding fseek
  rewind file = (fseek file 0 0).1

  -- fread on a readable file of a driver that reads n bytes, at most size * count: it returns at most
  -- count, ftell moves on by n, and n lies between the elements returned and one element more. Neither
  -- size * count nor the new position may reach 2 ^ 64, and size is not 0.
  fread-ftell :
      (size count n : ℕ) (file : File W) (w w1 : W) (x : FsMount W)
      (read : Handle → ℕ → ℕ → W → ℕ × W)
      → 0 < size
      → size * count < u64_mod
      → file.mount ≡ some x
      → x.fs.fread ≡ some read
      → (bit_and file.handle.flags 1 == 0) ≡ false
      → read file.handle file.ptr (size * count) w ≡ (n, w1)
      → n ≤ size * count
      → file.ptr + n < u64_mod
      → (elems : ℕ) × (after : File W) × (fread size count file w ≡ (elems, after, w1))
        × (elems ≤ count)
        × (ftell after ≡ ftell file + n)
        × (elems * size ≤ n)
        × (n < elems * size + size)
  unfolding fread ftell
  fread-ftell size count n file w w1 x read positive small mounted driver readable got enough fits =
      let whole : (size * count) % u64_mod ≡ size * count = omega (arith, small) in
      (
        n / size,
        record file { ptr = (file.ptr + n) % u64_mod },
        rw readable (simp (mounted, driver, whole, got) refl),
        div-le_of_le-mul size enough,
        omega (arith, fits),
        div-mul-le_self n size,
        lt-div-mul-add positive,
      )
