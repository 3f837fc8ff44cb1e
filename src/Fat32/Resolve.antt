-- ===== src/Fat32/Resolve.antt =====
-- What an entry that findFAT32Entry returns has to do with the path.
pub mod Once
pub mod Slash
use staxus.Base.{
  ℕ, zero, suc, ◌+◌, ◌≡◌, ◌≢◌, true, false, Option, none, some, [], ◌∷◌, length, drop, inl, inr,
  arith, Bool-cases, ◌>>=◌, if◌then◌else◌,
}
use staxus.Files.{Text}
use staxus.Fat32.{Machine, FatMount}
use staxus.Fat32.Entries.{FatEntry, destroy_entry}
use staxus.Fat32.Directory.{Iterator}
use staxus.Fat32.Listed.{Listed, OnCluster, Next, next_entry-Next}
use staxus.Fat32.Search.{
  next_entry, match_from, same_name, component, skip_slash, ends_at, bad_cluster, is_directory,
}

-- The first component of a path, and what follows it, as findFAT32Entry takes them.
abbrev pub first_of : Text → Text
first_of path = component (skip_slash path)

abbrev pub rest_of : Text → Text
rest_of path = drop (length (first_of path) + 1) path

pub cons-nil : (c : ℕ) (cs : Text) → (c ∷ cs) ≢ []
cons-nil c cs e = ground arith

-- The entry for the directory at `start` itself.
pub record IsRoot (start : ℕ) (e : FatEntry) : Type 0 where
  pub name : e.name ≡ []
  pub cluster : e.cluster ≡ start
  pub attr : e.attr ≡ 0x10
  pub parent : e.parent_cluster ≡ bad_cluster

module _ {W : Type 0} (m : Machine W) (t : FatMount W) where
  -- An entry of a record in use in the directory at `start`, whose name `stricmp` finds equal to `name`.
  pub record IsNamed (start : ℕ) (name : Text) (e : FatEntry) : Type 0 where
    pub listed : Listed m t start e
    pub same : same_name e.name name ≡ true

  -- The entry to which a path leads from the directory at `start`: the directory itself; an entry of it
  -- with the path's first component as name, where the path ends at the index of this component's end; or
  -- what the rest of the path leads to from the cluster of such an entry, which is a directory's.
  pub data Resolves : Text → ℕ → FatEntry → Type 0 where
    itself :
        (path : Text) (start : ℕ) (e : FatEntry)
        → skip_slash path ≡ []
        → IsRoot start e
        → Resolves path start e
    at_end :
        (path : Text) (start : ℕ) (e : FatEntry)
        → skip_slash path ≢ []
        → ends_at (length (first_of path)) path ≡ true
        → IsNamed start (first_of path) e
        → Resolves path start e
    through :
        (path : Text) (start : ℕ) (d e : FatEntry)
        → skip_slash path ≢ []
        → ends_at (length (first_of path)) path ≡ false
        → IsNamed start (first_of path) d
        → is_directory d.attr ≡ true
        → Resolves (rest_of path) d.cluster e
        → Resolves path start e

  -- A listed entry with the name that was asked for.
  abbrev pub Matches : ℕ → Text → Option (Option FatEntry × Iterator × W) → Type 0
  Matches start name none = Unit
  Matches start name (some (none, j, w)) = Unit
  Matches start name (some (some e, j, w)) = IsNamed start name e

  Matches-Next :
      (f start : ℕ) (name : Text) (r : Option (Option FatEntry × Iterator × W))
      → Next m t start r
      → ((j : Iterator) (w : W)
          → OnCluster m t start j
          → Matches start name (match_from m t f name j w))
      → Matches start name (do
        (o, j, w1) ← r
        elim o [
          | none ↦ some (none, j, w1)
          | some e ↦
              if same_name e.name name
              then some (some e, j, w1)
              else match_from m t f name j (destroy_entry m t e w1)
        ])
  Matches-Next f start name none next later = tt
  Matches-Next f start name (some (none, j, w)) next later = tt
  Matches-Next f start name (some (some e, j, w)) (listed, on) later =
      elim (Bool-cases (same_name e.name name)) [
        | inl same ↦ rw same (record { listed = listed; same = same })
        | inr other ↦ rw other (later j (destroy_entry m t e w) on)
      ]

  pub match_from-Matches :
      (f start : ℕ) (name : Text) (i : Iterator) (w : W)
      → OnCluster m t start i
      → Matches start name (match_from m t f name i w)
  unfolding match_from
  match_from-Matches zero start name i w on = tt
  match_from-Matches (suc f) start name i w on =
      Matches-Next f start name (next_entry m t f i w) (next_entry-Next m t f start i w on)
        (λ j w1 there. match_from-Matches f start name j w1 there)
