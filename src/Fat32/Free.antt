-- ===== src/Fat32/Free.antt =====
-- findFreeEntries finds entries that are free, one behind the other.
use staxus.Base.{
  ℕ, zero, suc, ◌+◌, ◌-◌, ◌*◌, ◌%◌, ◌<◌, ◌≤◌, ◌≡◌, refl, ◌⊎◌, inl, inr, subst, Bool, true, false,
  leb, ◌==◌, if◌then◌else◌, arith, Bool-cases, ==_iff,
}
use native.Mathlib.Decide.{ℕ_discrete}
use staxus.Memory.Bytes.{Bytes, load8}
use staxus.Fat32.{end_of_chain}
use staxus.Fat32.Entries.{is_free, Scan, found_at, going_on, scan_cluster}

-- Entry `k` of the directory, in a cluster at `raw` whose first entry has the number `idx`, is free or
-- is in use.
abbrev pub EntryIs : Bool → ℕ → Bytes → ℕ → ℕ → Type 0
EntryIs free idx b raw k = is_free (load8 b (raw + 32 * (k - idx))) ≡ free

abbrev pub FreeEntry : ℕ → Bytes → ℕ → ℕ → Type 0
FreeEntry idx b raw k = EntryIs true idx b raw k

-- `found` free entries end before `idx`, the first of them `start`.
abbrev pub Run : ℕ → ℕ → ℕ → Type 0
Run start found idx = (found ≡ 0) ⊎ (start + found ≡ idx)

-- One of the `needed` entries from `j` on lies in the cluster and is in use.
abbrev pub Blocked : ℕ → ℕ → Bytes → ℕ → ℕ → Type 0
Blocked idx needed b raw j =
    (k : ℕ) × (idx ≤ k) × (j ≤ k) × (k < j + needed) × EntryIs false idx b raw k

-- The free entries at the end of the `n` entries are `found`, and no more: they and the `before` entries
-- in front are all free, or the entry before them is in use.
abbrev pub Longest : ℕ → ℕ → ℕ → Bytes → ℕ → ℕ → Type 0
Longest before idx n b raw found =
    (found ≡ before + n)
    ⊎ ((k : ℕ) × (idx ≤ k) × (k + found + 1 ≡ idx + n) × EntryIs false idx b raw k)

-- The outcome for `n` entries from `idx` on, with `before` free entries in front of them. Either the
-- first place for `needed` entries that ends here is returned: its entries that lie here are free, and
-- one of those of each earlier place is in use. Or there is no such place here, and fewer than `needed`
-- free entries, all that there are, reach the end.
abbrev pub Scanned : ℕ → ℕ → ℕ → ℕ → Bytes → ℕ → Scan → Type 0
Scanned before idx n needed b raw (found_at i) =
    (idx < i + needed)
    × (i + needed ≤ idx + n)
    × (idx ≤ i + before)
    × ((k : ℕ) → idx ≤ k → i ≤ k → k < i + needed → FreeEntry idx b raw k)
    × ((j : ℕ) → idx ≤ j + before → idx < j + needed → j < i → Blocked idx needed b raw j)
Scanned before idx n needed b raw (going_on start found) =
    Run start found (idx + n)
    × (found < needed)
    × Longest before idx n b raw found
    × ((k : ℕ) → idx ≤ k → idx + n ≤ k + found → k < idx + n → FreeEntry idx b raw k)
    × ((j : ℕ)
        → idx ≤ j + before
        → idx < j + needed
        → j + needed ≤ idx + n
        → Blocked idx needed b raw j)

-- An entry behind the first one.
EntryIs-later :
    (free : Bool) (idx : ℕ) (b : Bytes) (raw k : ℕ)
    → idx + 1 ≤ k
    → EntryIs free (idx + 1) b (raw + 32) k
    → EntryIs free idx b raw k
EntryIs-later free idx b raw k h is =
    let same : raw + 32 + 32 * (k - (idx + 1)) ≡ raw + 32 * (k - idx) = omega arith in
    subst (λ a. is_free (load8 b a) ≡ free) same is

EntryIs-first :
    (free : Bool) (idx : ℕ) (b : Bytes) (raw k : ℕ)
    → k ≡ idx
    → is_free (load8 b raw) ≡ free
    → EntryIs free idx b raw k
EntryIs-first free idx b raw k h is =
    let same : raw ≡ raw + 32 * (k - idx) = omega (arith, h) in
    subst (λ a. is_free (load8 b a) ≡ free) same is

FreeEntry-cons :
    (idx : ℕ) (b : Bytes) (raw k : ℕ)
    → is_free (load8 b raw) ≡ true
    → idx ≤ k
    → (idx + 1 ≤ k → FreeEntry (idx + 1) b (raw + 32) k)
    → FreeEntry idx b raw k
FreeEntry-cons idx b raw k free h later = elim (ℕ_discrete k idx) [
  | yes here ↦ EntryIs-first true idx b raw k here free
  | no other ↦ EntryIs-later true idx b raw k (omega (arith, other)) (later (omega (arith, other)))
]

Blocked-later :
    (idx needed : ℕ) (b : Bytes) (raw j : ℕ)
    → Blocked (idx + 1) needed b (raw + 32) j
    → Blocked idx needed b raw j
Blocked-later idx needed b raw j (k, lo, from, to, used) =
    (k, omega arith, from, to, EntryIs-later false idx b raw k lo used)

-- A place behind the first entry, which is in use, or a place that it blocks.
Blocked-used :
    (idx needed : ℕ) (b : Bytes) (raw j : ℕ)
    → is_free (load8 b raw) ≡ false
    → idx < j + needed
    → (idx + 1 ≤ j → Blocked (idx + 1) needed b (raw + 32) j)
    → Blocked idx needed b raw j
Blocked-used idx needed b raw j used reach later = elim (Bool-cases (leb j idx)) [
  | inl here ↦
      (idx, omega arith, ground (arith, here), reach, EntryIs-first false idx b raw idx refl used)
  | inr behind ↦ Blocked-later idx needed b raw j (later (ground (arith, behind)))
]

Longest-free :
    (before idx n : ℕ) (b : Bytes) (raw found : ℕ)
    → Longest (before + 1) (idx + 1) n b (raw + 32) found
    → Longest before idx (suc n) b raw found
Longest-free before idx n b raw found (inl all) = inl (omega (arith, all))
Longest-free before idx n b raw found (inr (k, lo, at, used)) =
    inr (k, omega arith, omega (arith, at), EntryIs-later false idx b raw k lo used)

Longest-used :
    (before idx n : ℕ) (b : Bytes) (raw found : ℕ)
    → is_free (load8 b raw) ≡ false
    → Longest 0 (idx + 1) n b (raw + 32) found
    → Longest before idx (suc n) b raw found
Longest-used before idx n b raw found used (inl all) =
    inr (idx, omega arith, omega (arith, all), EntryIs-first false idx b raw idx refl used)
Longest-used before idx n b raw found used (inr (k, lo, at, other)) =
    inr (k, omega arith, omega (arith, at), EntryIs-later false idx b raw k lo other)

Scanned-free :
    (before idx n needed : ℕ) (b : Bytes) (raw : ℕ) (r : Scan)
    → before + 1 < needed
    → is_free (load8 b raw) ≡ true
    → Scanned (before + 1) (idx + 1) n needed b (raw + 32) r
    → Scanned before idx (suc n) needed b raw r
Scanned-free before idx n needed b raw (found_at i) short free (lo, hi, run, all, first) = (
  omega arith,
  omega arith,
  omega arith,
  (λ k h from to. FreeEntry-cons idx b raw k free h (λ behind. all k behind from to)),
  (λ j far reach low.
      Blocked-later idx needed b raw j
        (first j (omega (arith, far)) (omega (arith, far, reach, short)) low)),
)
Scanned-free before idx n needed b raw (going_on start found) short free
      (run, few, longest, all, no_place) =
    (
      ground (arith, run),
      few,
      Longest-free before idx n b raw found longest,
      (λ k h from to.
          FreeEntry-cons idx b raw k free h
            (λ behind. all k behind (omega (arith, from)) (omega (arith, to)))),
      (λ j far reach fits. Blocked-later idx needed b raw j (
          no_place j (omega (arith, far)) (omega (arith, far, reach, short))
            (omega (arith, fits)))),
    )

Scanned-used :
    (before idx n needed : ℕ) (b : Bytes) (raw : ℕ) (r : Scan)
    → 0 < needed
    → is_free (load8 b raw) ≡ false
    → Scanned 0 (idx + 1) n needed b (raw + 32) r
    → Scanned before idx (suc n) needed b raw r
Scanned-used before idx n needed b raw (found_at i) positive used (lo, hi, run, all, first) = (
  omega arith,
  omega arith,
  omega arith,
  (λ k h from to.
      EntryIs-later true idx b raw k (omega (arith, from)) (all k (omega (arith, from)) from to)),
  (λ j far reach low.
      Blocked-used idx needed b raw j used reach
        (λ behind. first j (omega (arith, behind)) (omega (arith, behind, positive)) low)),
)
Scanned-used before idx n needed b raw (going_on start found) positive used
      (run, few, longest, all, no_place) =
    (
      ground (arith, run),
      few,
      Longest-used before idx n b raw found used longest,
      (λ k h from to.
          let behind : idx + 1 ≤ k = Longest-behind longest k from in
          EntryIs-later true idx b raw k behind
            (all k behind (omega (arith, from)) (omega (arith, to)))),
      (λ j far reach fits. Blocked-used idx needed b raw j used reach (λ behind.
          no_place j (omega (arith, behind)) (omega (arith, behind, positive))
            (omega (arith, fits)))),
    )
  where
    Longest-behind :
        Longest 0 (idx + 1) n b (raw + 32) found → (k : ℕ) → idx + suc n ≤ k + found → idx + 1 ≤ k
    Longest-behind (inl all) k from = omega (arith, all, from)
    Longest-behind (inr (u, lo, at, other)) k from = omega (arith, at, from, lo)

Scanned-done :
    (idx n needed start found : ℕ) (b : Bytes) (raw : ℕ)
    → is_free (load8 b raw) ≡ true
    → found + 1 ≡ needed
    → start + found ≡ idx
    → Scanned found idx (suc n) needed b raw (found_at start)
Scanned-done idx n needed start found b raw free last run = (
  omega (arith, last, run),
  omega (arith, last, run),
  omega (arith, run),
  (λ k h from to. EntryIs-first true idx b raw k (omega (arith, h, to, last, run)) free),
  (λ j far reach low. absurd (omega (arith, far, low, run))),
)

-- One cluster of findFreeEntries, with `found` free entries in front of it from `start` on, fewer than
-- the `needed` ones: if a place is returned, it is the first whose `needed` entries end in this cluster
-- with none of them in use; if not, there is no such place, and `found` and `start` describe the free
-- entries at the cluster's end, all that there are up to an entry in use. The entries have numbers below
-- 2 ^ 32.
pub scan_cluster-Scanned :
    (n idx needed start found : ℕ) (b : Bytes) (raw : ℕ)
    → Run start found idx
    → found < needed
    → idx + n < 4294967296
    → Scanned found idx n needed b raw (scan_cluster n idx needed start found b raw)
unfolding scan_cluster
scan_cluster-Scanned zero idx needed start found b raw run few small = (
  ground (arith, run),
  few,
  inl (omega arith),
  (λ k h from to. absurd (omega (arith, h, to))),
  (λ j far reach fits. absurd (omega (arith, reach, fits))),
)
scan_cluster-Scanned (suc n) idx needed start found b raw run few small =
    let start' = if found == 0 then idx % 4294967296 else start in
    let now : start' + found ≡ idx = ground arith in
    elim (Bool-cases (is_free (load8 b raw))) [
      | inl free ↦ elim (Bool-cases (found + 1 == needed)) [
        | inl last ↦
            rw (free, last)
              (Scanned-done idx n needed start' found b raw free
                ((==_iff (found + 1) needed).0 last) now)
        | inr more ↦
            let short : found + 1 < needed = ground (arith, more, few) in
            rw (free, more)
              (Scanned-free found idx n needed b raw _ short free (
                scan_cluster-Scanned n (idx + 1) needed start' (found + 1) b (raw + 32)
                  (inr (omega (arith, now))) short (omega arith)))
      ]
      | inr used ↦
          let positive : 0 < needed = omega (arith, few) in
          rw used (
            Scanned-used found idx n needed b raw _ positive used (
              scan_cluster-Scanned n (idx + 1) needed end_of_chain 0 b (raw + 32) (inl refl)
                positive (omega arith)))
    ]
