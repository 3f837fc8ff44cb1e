-- ===== src/Images/Exports.antt =====
-- The buckets of a library against the list of its exported functions.
use staxus.Base.{
  ℕ, zero, suc, ◌+◌, ◌*◌, ◌≡◌, refl, inl, inr, ap, ◌∙◌, sym, Option, none, some, List, [], ◌∷◌,
  ◌++◌, ◌==◌, if◌then◌else◌, Bool-cases, Option-cases, ◌>>=◌,
}
use staxus.Memory.Bytes.{load16, load32}
use staxus.Memory.Utils.{memhsh}
use staxus.Strings.Utils.{strlen}
use staxus.Storage.{Memory}
use staxus.Images.{
  CachedFunc, Buckets, find_hash, find_func, add_func, cached_func_size, cache_at, cache_from,
  cache_exports,
}
use staxus.Images.Lookup.{or_else, find_hash-append, find_func-add_func}

or_else_assoc : (a b c : Option CachedFunc) → or_else (or_else a b) c ≡ or_else a (or_else b c)
or_else_assoc none b c = refl
or_else_assoc (some f) b c = refl

or_else-none : (a : Option CachedFunc) → a ≡ or_else a none
or_else-none none = refl
or_else-none (some f) = refl

module _ {W : Type 0} (m : Memory W) where
  -- The reference: the exported functions in the order of their names, in one list.
  abbrev pub exported_at : ℕ → ℕ → ℕ → ℕ → ℕ → Option ℕ × W → Option (List CachedFunc × W)
  exported_at fuel image functions ordinal name (none, w) = some ([], w)
  exported_at fuel image functions ordinal name (some at, w) =
      let b = m.bytes w in
      do
        len ← strlen fuel name b
        some (
          record {
            at = at;
            name = name;
            hash = memhsh name len b;
            rva = load32 b (functions + 4 * ordinal);
            ordinal = ordinal;
          }
              ∷ [],
          w,
        )

  unfoldable pub exported_from : ℕ → ℕ → ℕ → ℕ → ℕ → ℕ → ℕ → W → Option (List CachedFunc × W)
  exported_from zero fuel image functions ordinals names i w = some ([], w)
  exported_from (suc n) fuel image functions ordinals names i w =
      let b = m.bytes w in
      if load32 b (names + 4 * i) == 0
      then exported_from n fuel image functions ordinals names (i + 1) w
      else (do
        (fs, w1) ←
            exported_at fuel image functions (load16 b (ordinals + 2 * i))
              (image + load32 b (names + 4 * i)) (m.malloc cached_func_size w)
        (gs, w2) ← exported_from n fuel image functions ordinals names (i + 1) w1
        some (fs ++ gs, w2))

  unfoldable pub exported : ℕ → ℕ → ℕ → W → Option (List CachedFunc × W)
  unfolding exported_from
  exported fuel image table w =
      let b = m.bytes w in
      exported_from (load32 b (table + 24)) fuel image (image + load32 b (table + 28))
        (image + load32 b (table + 36)) (image + load32 b (table + 32)) 0 w

  -- Both end or none does, with the same state, and a search in the buckets gives what it gave in
  -- `before`, or else what a search through the list gives.
  abbrev pub SameFuncs : Buckets → Option (Buckets × W) → Option (List CachedFunc × W) → Type 0
  SameFuncs before none none = Unit
  SameFuncs before none (some r) = ⊥
  SameFuncs before (some r) none = ⊥
  SameFuncs before (some (buckets, w)) (some (fs, w')) =
      (w ≡ w') × ((h : ℕ) → find_func h buckets ≡ or_else (find_func h before) (find_hash h fs))

  SameFuncs-append :
      (before more : Buckets) (fs : List CachedFunc) (o : Option (Buckets × W))
      (r : Option (List CachedFunc × W))
      → ((h : ℕ) → find_func h more ≡ or_else (find_func h before) (find_hash h fs))
      → SameFuncs more o r
      → SameFuncs before o (do (gs, w2) ← r; some (fs ++ gs, w2))
  SameFuncs-append before more fs none none step s = tt
  SameFuncs-append before more fs none (some r) step s = s
  SameFuncs-append before more fs (some r) none step s = s
  SameFuncs-append before more fs (some (buckets, w)) (some (gs, w')) step (same, found) = (
    same,
    λ h.
        found h
        ∙ ap (λ o. or_else o (find_hash h gs)) (step h)
        ∙ or_else_assoc (find_func h before) (find_hash h fs) (find_hash h gs)
        ∙ ap (λ o. or_else (find_func h before) o) (sym (find_hash-append h fs gs)),
  )

  cache_at-SameFuncs :
      (n fuel image functions ordinals names i ordinal name : ℕ) (buckets : Buckets)
      (o : Option ℕ × W)
      → ((before : Buckets) (w : W)
          → SameFuncs before
              (cache_from m n fuel image functions ordinals names i before w)
              (exported_from n fuel image functions ordinals names i w))
      → SameFuncs buckets
          (do
            (more, w1) ← cache_at m fuel image functions ordinal name buckets o
            cache_from m n fuel image functions ordinals names i more w1)
          (do
            (fs, w1) ← exported_at fuel image functions ordinal name o
            (gs, w2) ← exported_from n fuel image functions ordinals names i w1
            some (fs ++ gs, w2))
  unfolding find_hash
  cache_at-SameFuncs n fuel image functions ordinals names i ordinal name buckets (none, w1) rest =
      SameFuncs-append buckets buckets [] _ _ (λ h. or_else-none (find_func h buckets))
        (rest buckets w1)
  cache_at-SameFuncs n fuel image functions ordinals names i ordinal name buckets (some at, w1)
        rest =
      elim (Option-cases (strlen fuel name (m.bytes w1))) [
        | inl ends ↦ rw ends tt
        | inr (len, got) ↦
            let f : CachedFunc = record {
              at = at;
              name = name;
              hash = memhsh name len (m.bytes w1);
              rva = load32 (m.bytes w1) (functions + 4 * ordinal);
              ordinal = ordinal;
            } in
            rw got (
              SameFuncs-append buckets (add_func f buckets) (f ∷ []) _ _
                (λ h. find_func-add_func h f buckets) (rest (add_func f buckets) w1))
      ]

  cache_from-SameFuncs :
      (n fuel image functions ordinals names i : ℕ) (buckets : Buckets) (w : W)
      → SameFuncs buckets
          (cache_from m n fuel image functions ordinals names i buckets w)
          (exported_from n fuel image functions ordinals names i w)
  unfolding cache_from exported_from find_hash
  cache_from-SameFuncs zero fuel image functions ordinals names i buckets w =
      (refl, λ h. or_else-none (find_func h buckets))
  cache_from-SameFuncs (suc n) fuel image functions ordinals names i buckets w =
      let b = m.bytes w in
      let rest = cache_from-SameFuncs n fuel image functions ordinals names (i + 1) in
      elim (Bool-cases (load32 b (names + 4 * i) == 0)) [
        | inl skipped ↦ rw skipped (rest buckets w)
        | inr named ↦ rw named (
            cache_at-SameFuncs n fuel image functions ordinals names (i + 1)
              (load16 b (ordinals + 2 * i)) (image + load32 b (names + 4 * i)) buckets
              (m.malloc cached_func_size w) rest)
      ]

  -- For every table of exports the buckets are built exactly if the list of the exported functions is, with
  -- the same state; the search for a hash in them, which GetPEFunctionAddress makes, then gives the first
  -- function of the list with this hash, and none if there is none.
  pub cache_exports-SameFuncs :
      (fuel image table : ℕ) (w : W)
      → SameFuncs (λ i. []) (cache_exports m fuel image table w) (exported fuel image table w)
  unfolding cache_exports exported
  cache_exports-SameFuncs fuel image table w =
      cache_from-SameFuncs (load32 (m.bytes w) (table + 24)) fuel image
        (image + load32 (m.bytes w) (table + 28)) (image + load32 (m.bytes w) (table + 36))
        (image + load32 (m.bytes w) (table + 32)) 0 (λ i. []) w
