-- ===== src/Strings/Tests.antt =====
-- The theorems on strings at small inputs.
use staxus.Base.{
  ℕ, ◌+◌, ◌≤◌, ◌≡◌, refl, ◌↔◌, inl, inr, some, List, [], ◌∷◌, ◌++◌, arith, ◌==◌, if◌then◌else◌,
}
use staxus.Base.Int.{ℤ, pos, ◌-ℤ◌}
use staxus.Memory.Bytes.{Bytes, load8}
use staxus.Strings.Format.{uint_to_string}
use staxus.Strings.Numerals.Values.{Numeral, uint_to_string-Numeral}
use staxus.Strings.Units.{char, Holds}
use staxus.Strings.Utils.{copy, concat, strcmp, stricmp, compare_from}
use staxus.Strings.Utils.Copy.{Copied, copy-Copied, concat-append}
use staxus.Strings.Utils.Compare.{strcmp-zero_iff}

-- "Ab" at 8 and "aB" at 16.
abbrev two_strings : Bytes
two_strings a =
    if a == 8
    then b'A'
    else if a == 9
    then b'b'
    else if a == 16
    then b'a'
    else if a == 17
    then b'B'
    else 0

abbrev upper : List ℕ
upper = b'A' ∷ b'b' ∷ []

abbrev lower : List ℕ
lower = b'a' ∷ b'B' ∷ []

upper-Holds : Holds char two_strings 8 0 upper
unfolding load8
upper-Holds = (refl, omega arith, (refl, omega arith, refl))

lower-Holds : Holds char two_strings 16 0 lower
unfolding load8
lower-Holds = (refl, omega arith, (refl, omega arith, refl))

copy-Copied_example :
    (after : Bytes) × (copy char 3 32 8 two_strings ≡ some after)
    × Copied char two_strings after 32 0 upper
copy-Copied_example =
    copy-Copied char 3 32 8 two_strings upper upper-Holds (omega arith) (inr (omega arith))

concat-append_example :
    (after : Bytes) × (concat char 3 8 16 two_strings ≡ some after)
    × Holds char after 8 0 (upper ++ lower)
concat-append_example =
    concat-append char 3 8 16 two_strings upper lower upper-Holds lower-Holds (omega arith)
      (omega arith) (inl (omega arith))

strcmp-zero_iff_example :
    (d : ℤ) × (strcmp 3 8 16 two_strings ≡ some d) × ((d ≡ pos 0) ↔ (upper ≡ lower))
strcmp-zero_iff_example =
    strcmp-zero_iff 3 8 16 two_strings upper lower upper-Holds lower-Holds (omega arith)

same_names : stricmp 3 8 16 two_strings ≡ some (pos 0)
unfolding stricmp compare_from load8 ◌-ℤ◌
same_names = refl

abbrev zeros : Bytes
zeros a = 0

uint_to_string-Numeral_example :
    (len : ℕ) × (m' : Bytes) × (uint_to_string 13 2748 64 16 zeros ≡ some (len, m'))
    × (len ≤ 12 + 1)
    × Numeral 16 b'A' 64 2748 len zeros m'
uint_to_string-Numeral_example =
    uint_to_string-Numeral 12 2748 64 16 zeros (omega arith) (omega arith) (omega arith)
      (omega arith)
