-- ===== src/Files/Mounts.antt =====
-- The table of mounts: no two mounts have the same mount point, mounting adds one, and unmounting
-- takes away the one it names.
use staxus.Base.{
  ℕ, zero, suc, ◌≡◌, refl, ◌≢◌, ◌↔◌, ◌⊎◌, inl, inr, sym, ap, ◌∙◌, subst, Bool, true, false, Option,
  none, some, List, [], ◌∷◌, ◌++◌, arith, All, All-append, All-map, Bool-cases, Option-cases,
  get_elem?, length, length-append, ◌<◌, ◌≤◌,
}
use staxus.Files.{
  max_mounted_devices, Text, same, FileSystem, FsMount, Allocator, Vfs, point_of, is_mounted,
  attach, mount_with, mount_file_system, find_mount, remove_at, unmount_found, unmount_file_system,
}
use staxus.Files.Table.{
  same_refl, same_eq, same-false, Other, Distinct, In, All-In, In-All, get-In, All-remove_at,
  remove_at-Distinct, remove_at-Other, In-remove_at,
}

module _ {W : Type 0} where
  -- The search finds an entry with the mount point, or there is none.
  abbrev removed : Allocator W → ℕ → FsMount W → Vfs W → Vfs W
  removed a i x v = record v {
    mounted = remove_at i x v.mounted;
    world = a.free x.at (a.free x.point_at (x.fs.unmount x.volume v.world));
  }

  abbrev Search : Text → List (FsMount W) → Option (ℕ × FsMount W) → Type 0
  Search point xs none = All (λ y. point_of y ≢ point) xs
  Search point xs (some (i, x)) = (get_elem? xs i ≡ some x) × (point_of x ≡ point)

  find_mount-Search : (point : Text) (xs : List (FsMount W)) → Search point xs (find_mount point xs)
  unfolding find_mount
  find_mount-Search point [] = tt
  find_mount-Search point (x ∷ xs) = elim (Bool-cases (same (point_of x) point)) [
    | inl hit ↦ rw hit (refl, same_eq (point_of x) point hit)
    | inr miss ↦
        rw miss (
          later point x xs (find_mount point xs) (same-false _ _ miss) (find_mount-Search point xs))
  ]
    where
      later :
          (point : Text) (x : FsMount W) (xs : List (FsMount W)) (r : Option (ℕ × FsMount W))
          → point_of x ≢ point
          → Search point xs r
          → Search point (x ∷ xs) (elim r [ none ↦ none | some (i, y) ↦ some (suc i, y) ])
      later point x xs none ne h = (ne, h)
      later point x xs (some (i, y)) ne h = h

  Other-point :
      (point : Text) (x : FsMount W) (xs : List (FsMount W))
      → point_of x ≡ point
      → All (Other x) xs
      → All (λ y. point_of y ≢ point) xs
  Other-point point x xs e h = All-map _ _ xs (λ y ne q. ne (e ∙ sym q)) h

  is_mounted-none :
      (point : Text) (xs : List (FsMount W))
      → All (λ y. point_of y ≢ point) xs
      → is_mounted point xs ≡ false
  is_mounted-none point [] h = refl
  is_mounted-none point (x ∷ xs) h = elim (Bool-cases (same (point_of x) point)) [
    | inl hit ↦ absurd (h.0 (same_eq (point_of x) point hit))
    | inr miss ↦ rw miss (is_mounted-none point xs h.1)
  ]

  not_is_mounted :
      (point : Text) (xs : List (FsMount W))
      → is_mounted point xs ≡ false
      → All (λ y. point_of y ≢ point) xs
  not_is_mounted point [] h = tt
  not_is_mounted point (x ∷ xs) h =
      (same-false _ _ (ground arith), not_is_mounted point xs (ground arith))

  is_mounted-some :
      (point : Text) (xs : List (FsMount W)) (i : ℕ) (x : FsMount W)
      → get_elem? xs i ≡ some x
      → point_of x ≡ point
      → is_mounted point xs ≡ true
  is_mounted-some point [] i x g e = absurd (ground arith)
  is_mounted-some point (y ∷ ys) zero x g e =
      let first : y ≡ x = cc in
      let hit : same (point_of y) point ≡ true = rw (first, e) (same_refl point) in rw hit refl
  is_mounted-some point (y ∷ ys) (suc i) x g e = ground (arith, is_mounted-some point ys i x g e)

  -- The call's result and the state it leaves: exactly the mounts with other mount points are left,
  -- no two of them have the same, and the result says whether there was a mount to take away.
  pub record Unmounted (point : Text) (v : Vfs W) (r : Bool × Vfs W) : Type 0 where
    pub distinct : Distinct r.1.mounted
    pub left : (y : FsMount W) → In y r.1.mounted ↔ (In y v.mounted × (point_of y ≢ point))
    pub result : r.0 ≡ is_mounted point v.mounted

  -- UnmountFileSystem takes away the mount with the mount point and no other, and returns whether
  -- there was one, if no two mounts have the same mount point.
  pub unmount-Unmounted :
      (a : Allocator W) (point : Text) (v : Vfs W)
      → Distinct v.mounted
      → Unmounted point v (unmount_file_system a point v)
  unmount-Unmounted a point v d = elim (Option-cases (find_mount point v.mounted)) [
    | inl gone ↦
        let others : All (λ y. point_of y ≢ point) v.mounted =
          subst (Search point v.mounted) gone (find_mount-Search point v.mounted) in
        let step : unmount_file_system a point v ≡ (false, v) =
          unfold unmount_file_system in ap (unmount_found a v) gone in
        subst (Unmounted point v) (sym step) (record {
          distinct = d;
          left = λ y. ((λ i. (i, All-In _ v.mounted y others i)), (λ i. i.0));
          result = sym (is_mounted-none point v.mounted others);
        })
    | inr ((i, x), found) ↦
        let (at_i, e) : (get_elem? v.mounted i ≡ some x) × (point_of x ≡ point) =
          subst (Search point v.mounted) found (find_mount-Search point v.mounted) in
        let rest = Other-point point x _ e (remove_at-Other i x v.mounted at_i d) in
        let kept =
          All-remove_at (λ y. In y v.mounted) i x v.mounted (get-In v.mounted i x at_i)
            (In-All (λ y. In y v.mounted) v.mounted (λ y j. j)) in
        let step : unmount_file_system a point v ≡ (true, removed a i x v) =
          unfold unmount_file_system in ap (unmount_found a v) found in
        subst (Unmounted point v) (sym step) (record {
          distinct = remove_at-Distinct i x v.mounted at_i d;
          left = λ y. (
            (λ j. (All-In _ _ y kept j, All-In _ _ y rest j)),
            (λ j. In-remove_at i x y v.mounted at_i j.0 (λ q. j.1 (q ∙ e))),
          );
          result = sym (is_mounted-some point v.mounted i x at_i e);
        })
  ]

  attach-point :
      (a : Allocator W) (fs : FileSystem W) (device : ℕ) (point : Text) (w w' : W) (x : FsMount W)
      → attach a fs device point w ≡ (some x, w')
      → point_of x ≡ point
  unfolding attach
  attach-point a fs device point w w' x e = ground arith

  mount_with-point :
      (a : Allocator W) (drivers : List (FileSystem W)) (device : ℕ) (point : Text) (w w' : W)
      (x : FsMount W)
      → mount_with a drivers device point w ≡ (some x, w')
      → point_of x ≡ point
  unfolding mount_with
  mount_with-point a [] device point w w' x e = absurd (ground arith)
  mount_with-point a (fs ∷ rest) device point w w' x e = elim (Bool-cases (fs.probe device w).0) [
    | inl claims ↦ attach-point a fs device point (fs.probe device w).1 w' x (rw claims at e)
    | inr other ↦ mount_with-point a rest device point (fs.probe device w).1 w' x (rw other at e)
  ]

  -- Either one mount with the mount point is added, or the mounts are as before; no two mounts have
  -- the same mount point.
  -- They fit in the array again.
  pub record Mounted (point : Text) (v : Vfs W) (r : Bool × Vfs W) : Type 0 where
    pub distinct : Distinct r.1.mounted
    pub fits : length r.1.mounted ≤ max_mounted_devices
    pub outcome :
        ((r.0 ≡ false) × (r.1.mounted ≡ v.mounted))
        ⊎ ((x : FsMount W) × (r.0 ≡ true)
            × (r.1.mounted ≡ v.mounted ++ (x ∷ []))
            × (point_of x ≡ point))

  Distinct-snoc :
      (xs : List (FsMount W)) (x : FsMount W)
      → Distinct xs
      → All (λ y. point_of y ≢ point_of x) xs
      → Distinct (xs ++ (x ∷ []))
  Distinct-snoc [] x d h = (tt, tt)
  Distinct-snoc (y ∷ ys) x d h =
      (All-append (Other y) ys (x ∷ []) d.0 (h.0, tt), Distinct-snoc ys x d.1 h.1)

  -- MountFileSystem, if there is a place left in the array of mounts (the source does not check this) and
  -- no two mounts have the same mount point, returns true and adds one mount with the given mount point,
  -- or returns false and leaves the mounts; no two mounts have the same mount point afterwards, and they
  -- fit in the array.
  pub mount-Mounted :
      (a : Allocator W) (device : ℕ) (point : Text) (v : Vfs W)
      → length v.mounted < max_mounted_devices
      → Distinct v.mounted
      → Mounted point v (mount_file_system a device point v)
  mount-Mounted a device point v room d = elim (Bool-cases (is_mounted point v.mounted)) [
    | inl taken ↦
        let step : mount_file_system a device point v ≡ (false, v) =
          unfold mount_file_system in rw taken refl in
        subst (Mounted point v) (sym step)
          (record { distinct = d; fits = omega (arith, room); outcome = inl (refl, refl) })
    | inr new ↦ elim (Option-cases (mount_with a v.file_systems device point v.world).0) [
      | inl failed ↦
          let step : mount_file_system a device point v
              ≡ (false, record v { world = (mount_with a v.file_systems device point v.world).1 }) =
            unfold mount_file_system in rw (new, failed) refl in
          subst (Mounted point v) (sym step)
            (record { distinct = d; fits = omega (arith, room); outcome = inl (refl, refl) })
      | inr (x, done) ↦
          let w = (mount_with a v.file_systems device point v.world).1 in
          let step : mount_file_system a device point v
              ≡ (true, record v { mounted = v.mounted ++ (x ∷ []); world = w }) =
            unfold mount_file_system in rw (new, done) refl in
          let e =
            mount_with-point a v.file_systems device point v.world w x (ap (λ o. (o, w)) done) in
          subst (Mounted point v) (sym step) (record {
            distinct =
                Distinct-snoc v.mounted x d (
                  All-map _ _ v.mounted (λ y ne q. ne (q ∙ e))
                    (not_is_mounted point v.mounted new));
            fits = omega (arith, length-append v.mounted (x ∷ []), room);
            outcome = inr (x, refl, refl, e);
          })
    ]
  ]
