-- ===== src/Fat32/Transfer/Reads.antt =====
-- What readFAT32File returns, inside the file and behind its end.
use staxus.Base.{ℕ, ◌+◌, ◌-◌, ◌<◌, ◌≡◌, ◌⊎◌, false, Option, none, some}
use staxus.Fat32.{Machine, FatMount, read_cluster}
use staxus.Fat32.Chain.{get_next_cluster}
use staxus.Fat32.Transfer.{part_of, read_part}

module _ {W : Type 0} (m : Machine W) (t : FatMount W) where
  -- The read of a cluster fails in this round of the loop of readFAT32File, or in a later one. A round
  -- has its cluster, the offset there, what is left and what has been read, and the state it begins with.
  pub data ReadFails (buf dst : ℕ) : ℕ → ℕ → ℕ → ℕ → W → Type 0 where
    now :
        (cluster off left total : ℕ) (w : W)
        → 0 < left
        → (read_cluster t buf cluster w).0 ≡ false
        → ReadFails buf dst cluster off left total w
    later :
        (cluster off left total next : ℕ) (w w2 : W)
        → get_next_cluster m t cluster
            (read_part m t buf dst off left total (read_cluster t buf cluster w).1)
          ≡ (next, w2)
        → ReadFails buf dst next 0
            (left - part_of t.bytes_per_cluster off left)
            (total + part_of t.bytes_per_cluster off left)
            w2
        → ReadFails buf dst cluster off left total w

  -- A read that takes the whole of what is left, or whose result is 0 since a cluster could not be read.
  abbrev Ended : ℕ → ℕ → ℕ → ℕ → ℕ → ℕ → W → Option (ℕ × W) → Type 0
  Ended buf dst cluster off left total w none = ⊥
  Ended buf dst cluster off left total w (some (n, w')) =
      (n ≡ total + left) ⊎ ((n ≡ 0) × ReadFails buf dst cluster off left total w)

  -- There is no buffer, or a cluster cannot be read into it.
  abbrev pub NoRead : ℕ → ℕ → ℕ → ℕ → Option ℕ × W → Type 0
  NoRead dst cluster off len (none, w) = Unit
  NoRead dst cluster off len (some buf, w) = ReadFails buf dst cluster off len 0 w

  -- The whole read: all of its bytes, or 0 and a reason for it; `r` is the buffer's allocation.
  abbrev pub FileRead : ℕ → ℕ → ℕ → ℕ → Option ℕ × W → Option (ℕ × W) → Type 0
  FileRead dst cluster off len r none = ⊥
  FileRead dst cluster off len r (some (n, w')) =
      (n ≡ len) ⊎ ((n ≡ 0) × NoRead dst cluster off len r)

  -- A read that has not ended, or whose result is 0 for such a reason.
  abbrev pub Busy : ℕ → ℕ → ℕ → ℕ → Option ℕ × W → Option (ℕ × W) → Type 0
  Busy dst cluster off len r none = Unit
  Busy dst cluster off len r (some (n, w')) = (n ≡ 0) × NoRead dst cluster off len r

  module _ (buf dst cluster off left total : ℕ) (w : W) where
    -- The round's part of what is left, and where the next round begins.
    abbrev part : ℕ
    part = part_of t.bytes_per_cluster off left

    abbrev next_round : ℕ × W
    next_round =
        get_next_cluster m t cluster
          (read_part m t buf dst off left total (read_cluster t buf cluster w).1)

  -- A read with too few rounds for what is left goes on, or fails.
  abbrev Going : ℕ → ℕ → ℕ → ℕ → ℕ → ℕ → W → Option (ℕ × W) → Type 0
  Going buf dst cluster off left total w none = Unit
  Going buf dst cluster off left total w (some (n, w')) =
      (n ≡ 0) × ReadFails buf dst cluster off left total w
