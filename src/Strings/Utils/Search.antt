-- ===== src/Strings/Utils/Search.antt =====
-- strchr and wcschr on strings that are there.
use staxus.Base.{
  ℕ, zero, suc, ◌+◌, ◌<◌, ◌≡◌, refl, ap, ◌∙◌, inl, inr, Option, none, some, List, [], ◌∷◌, arith,
  ==_of_ne, Bool-cases, if◌then◌else◌, length,
}
use staxus.Base.Int.{ℤ, eq_ℤ}
use staxus.Memory.Bytes.{Bytes}
use staxus.Strings.Units.{Units, Holds}
use staxus.Strings.Utils.{find_from}

module _ (u : Units) (value : ℤ) where
  -- The position of the first unit that promotes to `value`.
  abbrev pub first_of : List ℕ → Option ℕ
  first_of [] = none
  first_of (x ∷ xs) =
      if eq_ℤ (u.int_of x) value
      then some 0
      else elim (first_of xs) [ none ↦ none | some k ↦ some (suc k) ]

  abbrev shift : ℕ → Option ℕ → Option ℕ
  shift i none = none
  shift i (some k) = some (i + k)

  find_from-first_of :
      (n i p : ℕ) (m : Bytes) (xs : List ℕ)
      → Holds u m p i xs
      → length xs < n
      → find_from u n i p value m ≡ some (shift i (first_of xs))
  unfolding find_from
  find_from-first_of zero i p m xs h fuel = absurd (omega arith)
  find_from-first_of (suc n) i p m [] h fuel = rw h
  find_from-first_of (suc n) i p m (x ∷ xs) (e, nonzero, h) fuel =
      rw (e, ==_of_ne x 0 (omega arith))
        (elim (Bool-cases (eq_ℤ (u.int_of x) value)) [
          | inl hit ↦ rw hit (ap (λ k. some (some k)) (omega arith))
          | inr miss ↦ rw miss (
              find_from-first_of n (i + 1) p m xs h (omega arith) ∙ ap some (moved i (first_of xs)))
        ])
    where
      moved :
          (i : ℕ) (r : Option ℕ)
          → shift (i + 1) r ≡ shift i (elim r [ none ↦ none | some k ↦ some (suc k) ])
      moved i none = refl
      moved i (some k) = ap some (omega arith)

  -- strchr and wcschr end on a string, with the position of the first unit that equals the value, and
  -- with null if there is none.
  find_from_first :
      (fuel p : ℕ) (m : Bytes) (xs : List ℕ)
      → Holds u m p 0 xs
      → length xs < fuel
      → find_from u fuel 0 p value m ≡ some (first_of xs)
  find_from_first fuel p m xs h enough =
      find_from-first_of fuel 0 p m xs h enough ∙ ap some (at_zero (first_of xs))
    where
      at_zero : (r : Option ℕ) → shift 0 r ≡ r
      at_zero none = refl
      at_zero (some k) = ap some (omega arith)
