-- ===== src/Images/Lookup.antt =====
-- The functions of a library, found by the hash of their names.
use staxus.Base.{
  ℕ, ◌%◌, ◌≡◌, refl, inl, inr, Option, none, some, List, [], ◌∷◌, ◌++◌, ◌==◌, false, if◌then◌else◌,
  arith, Bool-cases,
}
use staxus.Images.{CachedFunc, Buckets, find_hash, find_func, add_func}

-- The first of two results that there is.
abbrev pub or_else : Option CachedFunc → Option CachedFunc → Option CachedFunc
or_else none o = o
or_else (some f) o = some f

pub find_hash-append :
    (h : ℕ) (fs gs : List CachedFunc)
    → find_hash h (fs ++ gs) ≡ or_else (find_hash h fs) (find_hash h gs)
unfolding find_hash
find_hash-append h [] gs = refl
find_hash-append h (f ∷ fs) gs = elim (Bool-cases (f.hash == h)) [
  | inl this ↦ rw this refl
  | inr other ↦ rw other (find_hash-append h fs gs)
]

-- A function that is added is found under its hash unless one with this hash was there before, and under
-- every other hash the same is found as before, also where the two hashes have one chain.
pub find_func-add_func :
    (h : ℕ) (f : CachedFunc) (buckets : Buckets)
    → find_func h (add_func f buckets)
      ≡ or_else (find_func h buckets) (if f.hash == h then some f else none)
unfolding find_func find_hash add_func
find_func-add_func h f buckets = elim (Bool-cases (h % 64 == f.hash % 64)) [
  | inl chain ↦ rw chain (find_hash-append h (buckets (h % 64)) (f ∷ []))
  | inr other ↦
      let differs : (f.hash == h) ≡ false = ground (arith, other) in
      rw (other, differs) (or_none (find_hash h (buckets (h % 64))))
]
  where
    or_none : (o : Option CachedFunc) → o ≡ or_else o none
    or_none none = refl
    or_none (some g) = refl
