-- ===== src/Files/Lookup.antt =====
-- getMount serves a path by the longest mount point that covers it.
use staxus.Base.{
  ℕ, ◌<◌, ◌≤◌, ◌≡◌, refl, ◌⊎◌, inl, inr, sym, subst, true, false, Option, none, some, List, [], ◌∷◌,
  ◌++◌, arith, leb, All, All-map, Bool-cases, Option-cases, length,
}
use staxus.Files.{
  Text, strip, relative, boundary, FsMount, Vfs, point_of, get_mount_from, get_mount,
}
use staxus.Files.Table.{In}

-- `strip` takes the mount point off the path.
strip-append : (point path rel : Text) → strip point path ≡ some rel → path ≡ point ++ rel
strip-append [] path rel e = cc
strip-append (x ∷ xs) [] rel e = absurd (ground arith)
strip-append (x ∷ xs) (y ∷ ys) rel e =
    let heads : x ≡ y = ground arith in
    let tails : ys ≡ xs ++ rel = strip-append xs ys rel (ground arith) in cc

relative-append : (point path rel : Text) → relative point path ≡ some rel → path ≡ point ++ rel
relative-append point path rel e = strip-append point path rel (ground arith)

relative-boundary :
    (point path rel : Text) → relative point path ≡ some rel → boundary point rel ≡ true
relative-boundary point path rel e = ground arith

empty_of_short : (t : Text) → length t ≤ 0 → t ≡ []
empty_of_short [] h = refl
empty_of_short (c ∷ cs) h = absurd (omega arith)

module _ {W : Type 0} where
  -- The mount point is no longer than `len`, or does not cover the path.
  abbrev pub Beaten : Text → ℕ → FsMount W → Type 0
  Beaten path len y = (length (point_of y) ≤ len) ⊎ (relative (point_of y) path ≡ none)

  -- The best of the mounts that have been looked at: the longest one that covers the path.
  pub record Best (path : Text) (longest : ℕ) (seen : List (FsMount W)) (x : FsMount W) (rel : Text)
      : Type 0 where
    pub listed : In x seen
    pub covers : relative (point_of x) path ≡ some rel
    pub long : longest < length (point_of x)
    pub beats : All (Beaten path (length (point_of x))) seen

  abbrev pub Winner :
      Text → ℕ → List (FsMount W) → Option (FsMount W × Text) → Option (FsMount W × Text) → Type 0
  Winner path longest xs best r =
      ((r ≡ best) × All (Beaten path longest) xs)
      ⊎ ((x : FsMount W) × (rel : Text) × (r ≡ some (x, rel)) × Best path longest xs x rel)

  Winner-skip :
      (path : Text) (longest : ℕ) (x : FsMount W) (xs : List (FsMount W))
      (best r : Option (FsMount W × Text))
      → Beaten path longest x
      → Winner path longest xs best r
      → Winner path longest (x ∷ xs) best r
  Winner-skip path longest x xs best r b (inl (e, h)) = inl (e, (b, h))
  Winner-skip path longest x xs best r b (inr (y, rel, e, h)) = inr (
    y,
    rel,
    e,
    record {
      listed = inr h.listed;
      covers = h.covers;
      long = h.long;
      beats =
          (elim b [ inl short ↦ inl (omega (arith, short, h.long)) | inr off ↦ inr off ], h.beats);
    },
  )

  Winner-take :
      (path : Text) (longest : ℕ) (x : FsMount W) (xs : List (FsMount W)) (rel : Text)
      (best r : Option (FsMount W × Text))
      → longest < length (point_of x)
      → relative (point_of x) path ≡ some rel
      → Winner path (length (point_of x)) xs (some (x, rel)) r
      → Winner path longest (x ∷ xs) best r
  Winner-take path longest x xs rel best r long c (inl (e, h)) = inr (
    x,
    rel,
    e,
    record { listed = inl refl; covers = c; long = long; beats = (inl (omega arith), h) },
  )
  Winner-take path longest x xs rel best r long c (inr (y, rel', e, h)) = inr (
    y,
    rel',
    e,
    record {
      listed = inr h.listed;
      covers = h.covers;
      long = omega (arith, long, h.long);
      beats = (inl (omega (arith, h.long)), h.beats);
    },
  )

  module _ (path : Text) (longest : ℕ) (best : Option (FsMount W × Text)) (x : FsMount W)
      (xs : List (FsMount W)) where
    get_mount_from_short :
        leb (length (point_of x)) longest ≡ true
        → get_mount_from path longest best (x ∷ xs) ≡ get_mount_from path longest best xs
    unfolding get_mount_from
    get_mount_from_short short = rw short refl

    get_mount_from_off :
        relative (point_of x) path ≡ none
        → get_mount_from path longest best (x ∷ xs) ≡ get_mount_from path longest best xs
    unfolding get_mount_from
    get_mount_from_off off = elim (Bool-cases (leb (length (point_of x)) longest)) [
      | inl short ↦ rw short refl
      | inr long ↦ rw (long, off) refl
    ]

    get_mount_from_take :
        (rel : Text)
        → leb (length (point_of x)) longest ≡ false
        → relative (point_of x) path ≡ some rel
        → get_mount_from path longest best (x ∷ xs)
          ≡ get_mount_from path (length (point_of x)) (some (x, rel)) xs
    unfolding get_mount_from
    get_mount_from_take rel long c = rw (long, c) refl

  get_mount_from-Winner :
      (path : Text) (longest : ℕ) (best : Option (FsMount W × Text)) (xs : List (FsMount W))
      → Winner path longest xs best (get_mount_from path longest best xs)
  get_mount_from-Winner path longest best [] = unfold get_mount_from in inl (refl, tt)
  get_mount_from-Winner path longest best (x ∷ xs) =
      elim (Bool-cases (leb (length (point_of x)) longest)) [
        | inl short ↦
            subst (Winner path longest (x ∷ xs) best)
              (sym (get_mount_from_short path longest best x xs short))
              (Winner-skip path longest x xs best _ (inl (ground arith))
                (get_mount_from-Winner path longest best xs))
        | inr long ↦ elim (Option-cases (relative (point_of x) path)) [
          | inl off ↦
              subst (Winner path longest (x ∷ xs) best)
                (sym (get_mount_from_off path longest best x xs off))
                (Winner-skip path longest x xs best _ (inr off)
                  (get_mount_from-Winner path longest best xs))
          | inr (rel, c) ↦
              subst (Winner path longest (x ∷ xs) best)
                (sym (get_mount_from_take path longest best x xs rel long c))
                (Winner-take path longest x xs rel best _ (ground arith) c
                  (get_mount_from-Winner path (length (point_of x)) (some (x, rel)) xs))
        ]
      ]

  -- What getMount promises of its result.
  abbrev pub Served : Text → Vfs W → Option (FsMount W × Text) → Type 0
  Served path v none = All (λ y. (point_of y ≡ []) ⊎ (relative (point_of y) path ≡ none)) v.mounted
  Served path v (some (x, rel)) =
      In x v.mounted
      × (path ≡ point_of x ++ rel)
      × (boundary (point_of x) rel ≡ true)
      × All (Beaten path (length (point_of x))) v.mounted

  unbeaten :
      (path : Text) (y : FsMount W)
      → Beaten path 0 y
      → (point_of y ≡ []) ⊎ (relative (point_of y) path ≡ none)
  unbeaten path y (inl short) = inl (empty_of_short (point_of y) short)
  unbeaten path y (inr off) = inr off

  -- getMount returns a mount whose point is a prefix of the path, ends at the path's end or at a '/'
  -- (or is "/"), and is the longest such; the second result is the rest of the path. It returns null
  -- only if no mount with a point that is not empty covers the path.
  pub get_mount-Served : (path : Text) (v : Vfs W) → Served path v (get_mount path v)
  unfolding get_mount
  get_mount-Served path v = elim (get_mount_from-Winner path 0 none v.mounted) [
    | inl (e, h) ↦ subst (Served path v) (sym e) (All-map _ _ v.mounted (unbeaten path) h)
    | inr (x, rel, e, h) ↦ subst (Served path v) (sym e) (
      h.listed,
      relative-append (point_of x) path rel h.covers,
      relative-boundary (point_of x) path rel h.covers,
      h.beats,
    )
  ]
