-- ===== src/Fat32/Resolve/Once.antt =====
-- findFAT32Entry, call by call.
use staxus.Base.{
  ℕ, zero, suc, ◌≡◌, refl, ◌≢◌, sym, ◌∙◌, subst, true, false, Option, none, some, [], ◌∷◌, length,
  ◌⊎◌, inl, inr, Bool-cases, ◌>>=◌,
}
use staxus.Files.{Text}
use staxus.Fat32.{Machine, FatMount}
use staxus.Fat32.Entries.{FatEntry}
use staxus.Fat32.Directory.{Iterator, destroy_iterator}
use staxus.Fat32.Listed.{OnCluster, Starts, create_cluster_iterator-Starts}
use staxus.Fat32.Parse.{entry_size}
use staxus.Fat32.Search.{
  match_from, component, skip_slash, ends_at, is_directory, find_step, find_once, find_entry,
  matched, root_at, root_named,
}
use staxus.Fat32.Resolve.{
  cons-nil, first_of, rest_of, IsNamed, Resolves, itself, at_end, through, Matches,
  match_from-Matches,
}

module _ {W : Type 0} (m : Machine W) (t : FatMount W) where
  -- One call of findFAT32Entry: an entry to which the path leads, or a directory in its first component.
  abbrev Once : Text → ℕ → Option ((Option FatEntry ⊎ ℕ) × W) → Type 0
  Once path start none = Unit
  Once path start (some (inl none, w)) = Unit
  Once path start (some (inl (some e), w)) = Resolves m t path start e
  Once path start (some (inr cluster, w)) =
      (d : FatEntry) × (skip_slash path ≢ [])
      × (ends_at (length (first_of path)) path ≡ false)
      × IsNamed m t start (first_of path) d
      × (is_directory d.attr ≡ true)
      × (d.cluster ≡ cluster)

  Once-matched :
      (path : Text) (start raw : ℕ) (r : Option (Option FatEntry × Iterator × W))
      → Matches m t start (first_of path) r
      → skip_slash path ≢ []
      → Once path start
          (do (o, j, w1) ← r; some (matched m t path (length (first_of path)) raw (o, j, w1)))
  Once-matched path start raw none h some_chars = tt
  Once-matched path start raw (some (none, j, w)) h some_chars = tt
  Once-matched path start raw (some (some e, j, w)) named some_chars =
      elim (Bool-cases (ends_at (length (first_of path)) path)) [
        | inl ends ↦ rw ends (at_end path start e some_chars ends named)
        | inr more ↦ elim (Bool-cases (is_directory e.attr)) [
          | inl dir ↦ rw (more, dir) (e, some_chars, more, named, dir, refl)
          | inr file ↦ rw (more, file) tt
        ]
      ]

  -- The entry of the directory itself.
  Once-root_named :
      (path : Text) (start at : ℕ) (r : Option ℕ × W)
      → skip_slash path ≡ []
      → Once path start (let (o, w1) = root_named m t start at r in some (inl o, w1))
  Once-root_named path start at (none, w) empty = tt
  Once-root_named path start at (some name_at, w) empty =
      itself path start _ empty (record { name = refl; cluster = refl; attr = refl; parent = refl })

  Once-root :
      (path : Text) (start : ℕ) (r : Option ℕ × W)
      → skip_slash path ≡ []
      → Once path start (let (o, w1) = root_at m t start r in some (inl o, w1))
  Once-root path start (none, w) empty = tt
  Once-root path start (some at, w) empty =
      Once-root_named path start at (m.memory.malloc 1 w) empty

  Once-step :
      (f : ℕ) (path : Text) (start raw : ℕ) (i : Iterator) (w : W) (name : Text)
      → skip_slash path ≡ name
      → OnCluster m t start i
      → Once path start (elim name [
        | [] ↦
            let (o, w1) =
              root_at m t start
                (m.memory.malloc entry_size (destroy_iterator m t i (m.memory.free raw w))) in
            some (inl o, w1)
        | ◌∷◌ c cs ↦ do
          (o, j, w1) ← match_from m t f (component (c ∷ cs)) i w
          some (matched m t path (length (component (c ∷ cs))) raw (o, j, w1))
      ])
  Once-step f path start raw i w [] empty here =
      Once-root path start
        (m.memory.malloc entry_size (destroy_iterator m t i (m.memory.free raw w))) empty
  Once-step f path start raw i w (c ∷ cs) same here =
      subst
        (λ name. Once path start (do
          (o, j, w1) ← match_from m t f (component name) i w
          some (matched m t path (length (component name)) raw (o, j, w1))))
        same
        (Once-matched path start raw (match_from m t f (first_of path) i w)
          (match_from-Matches m t f start (first_of path) i w here)
          (λ e. cons-nil c cs (sym same ∙ e)))

  find_step-Once :
      (f : ℕ) (path : Text) (start : ℕ) (i : Iterator) (r : Option ℕ × W)
      → OnCluster m t start i
      → Once path start (find_step m t f path start i r)
  find_step-Once f path start i (none, w) here = tt
  find_step-Once f path start i (some raw, w) here =
      Once-step f path start raw i w (skip_slash path) refl here

  find_once-Once :
      (f : ℕ) (path : Text) (start : ℕ) (r : Option Iterator × W)
      → Starts m t start r
      → Once path start (find_once m t f path start r)
  find_once-Once f path start (none, w) here = tt
  find_once-Once f path start (some i, w) here = find_step-Once f path start i _ here

  -- What a call leaves: an entry, and then the path leads to it.
  abbrev Resolved : Text → ℕ → Option (Option FatEntry × W) → Type 0
  Resolved path start none = Unit
  Resolved path start (some (none, w)) = Unit
  Resolved path start (some (some e, w)) = Resolves m t path start e

  Resolved-through :
      (path : Text) (start : ℕ) (d : FatEntry) (r : Option (Option FatEntry × W))
      → skip_slash path ≢ []
      → ends_at (length (first_of path)) path ≡ false
      → IsNamed m t start (first_of path) d
      → is_directory d.attr ≡ true
      → Resolved (rest_of path) d.cluster r
      → Resolved path start r
  Resolved-through path start d none some_chars more named dir h = tt
  Resolved-through path start d (some (none, w)) some_chars more named dir h = tt
  Resolved-through path start d (some (some e, w)) some_chars more named dir h =
      through path start d e some_chars more named dir h

  Resolved-Once :
      (f : ℕ) (path : Text) (start : ℕ) (r : Option ((Option FatEntry ⊎ ℕ) × W))
      → Once path start r
      → ((cluster : ℕ) (w : W)
          → Resolved (rest_of path) cluster (find_entry m t f (rest_of path) cluster w))
      → Resolved path start (do
        (found, w1) ← r
        elim found [
          | inl o ↦ some (o, w1)
          | inr cluster ↦ find_entry m t f (rest_of path) cluster w1
        ])
  Resolved-Once f path start none h later = tt
  Resolved-Once f path start (some (inl none, w)) h later = tt
  Resolved-Once f path start (some (inl (some e), w)) h later = h
  Resolved-Once f path start (some (inr cluster, w)) (d, some_chars, more, named, dir, same) later =
      Resolved-through path start d _ some_chars more named dir (
        subst (λ c. Resolved (rest_of path) c (find_entry m t f (rest_of path) cluster w))
          (sym same) (later cluster w))

  find_entry-Resolved :
      (f : ℕ) (path : Text) (start : ℕ) (w : W)
      → Resolved path start (find_entry m t f path start w)
  unfolding find_entry
  find_entry-Resolved zero path start w = tt
  find_entry-Resolved (suc f) path start w =
      Resolved-Once f path start _
        (find_once-Once f path start _ (create_cluster_iterator-Starts m t start w))
        (λ cluster w1. find_entry-Resolved f (rest_of path) cluster w1)

  pub find_entry-Resolves :
      (f : ℕ) (path : Text) (start : ℕ) (w after : W) (e : FatEntry)
      → find_entry m t f path start w ≡ some (some e, after)
      → Resolves m t path start e
  find_entry-Resolves f path start w after e found =
      subst (λ r. Resolved path start r) found (find_entry-Resolved f path start w)
