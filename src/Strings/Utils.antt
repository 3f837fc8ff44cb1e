-- ===== src/Strings/Utils.antt =====
-- string/utils.c. The source writes each function twice, for `char` and for `wchar`; here the body is
-- one function over the units, and the two C functions are its instances. A loop that runs to the
-- terminator takes fuel: `none` means that no terminator was met. An index never wraps, since a
-- string lies inside the address space.
pub mod Copy
pub mod Compare
pub mod Search
use staxus.Base.{
  ℕ, zero, suc, ◌+◌, ◌-◌, ◌/◌, ◌%◌, Bool, ◌&&◌, Option, none, some, ◌==◌, leb, not, if◌then◌else◌,
}
use staxus.Base.Int.{ℤ, ◌-ℤ◌, eq_ℤ, to_u64}
use staxus.Memory.Bytes.{Bytes}
use staxus.Memory.Utils.{fnv_basis, fnv_step}
use staxus.Strings.Units.{Units, char, wchar}

-- `c >= 'a' && c <= 'z'`: the same test for both kinds of units, since a byte from 128 on is a
-- negative `char`.
abbrev pub islower : ℕ → Bool
islower c = leb b'a' c && leb c b'z'

abbrev pub isupper : ℕ → Bool
isupper c = leb b'A' c && leb c b'Z'

abbrev pub toupper : ℕ → ℕ
toupper c = if islower c then c - 32 else c

abbrev pub tolower : ℕ → ℕ
tolower c = if isupper c then c + 32 else c

abbrev pub towupper : ℕ → ℕ
towupper = toupper

abbrev pub towlower : ℕ → ℕ
towlower = tolower

abbrev pub iswupper : ℕ → Bool
iswupper = isupper

abbrev pub iswlower : ℕ → Bool
iswlower = islower

module _ (u : Units) where
  -- `while(src[i] != '\0') i++; return i;`
  unfoldable pub end_from : ℕ → ℕ → ℕ → Bytes → Option ℕ
  end_from zero i src m = none
  end_from (suc f) i src m =
      let rest = end_from f (i + 1) src m in if u.load m src i == 0 then some i else rest

  -- Copies `src` from unit `j` on to `dst` from unit `i` on, with the terminator.
  unfoldable pub copy_from : ℕ → ℕ → ℕ → ℕ → ℕ → Bytes → Option Bytes
  copy_from zero i j dst src m = none
  copy_from (suc f) i j dst src m =
      let rest = copy_from f (i + 1) (j + 1) dst src (u.store m dst i (u.load m src j)) in
      if u.load m src j == 0 then some (u.store m dst i 0) else rest

  -- The memory that the call leaves; it returns `dst`.
  unfoldable pub copy : ℕ → ℕ → ℕ → Bytes → Option Bytes
  copy fuel dst src m = copy_from fuel 0 0 dst src m

  unfoldable pub concat : ℕ → ℕ → ℕ → Bytes → Option Bytes
  concat fuel dst src m = elim (end_from fuel 0 dst m) [
    | none ↦ none
    | some i ↦ copy_from fuel i 0 dst src m
  ]

  -- Compares up to the first difference or terminator, each unit through `fold`.
  unfoldable pub compare_from : (ℕ → ℕ) → ℕ → ℕ → ℕ → ℕ → Bytes → Option ℤ
  compare_from fold zero i a b m = none
  compare_from fold (suc f) i a b m =
      let rest = compare_from fold f (i + 1) a b m in
      let diff = u.int_of (fold (u.load m a i)) -ℤ u.int_of (fold (u.load m b i)) in
      if not (u.load m a i == 0) && not (u.load m b i == 0)
      then (if fold (u.load m a i) == fold (u.load m b i) then rest else some diff)
      else some diff

  -- The index of the first unit that equals `value`, before the terminator; the inner `none` is the
  -- null pointer.
  unfoldable pub find_from : ℕ → ℕ → ℕ → ℤ → Bytes → Option (Option ℕ)
  find_from zero i src value m = none
  find_from (suc f) i src value m =
      let rest = find_from f (i + 1) src value m in
      if u.load m src i == 0
      then some none
      else if eq_ℤ (u.int_of (u.load m src i)) value
      then some (some i)
      else rest

unfoldable pub strlen : ℕ → ℕ → Bytes → Option ℕ
strlen fuel src m = end_from char fuel 0 src m

unfoldable pub strcpy : ℕ → ℕ → ℕ → Bytes → Option Bytes
strcpy = copy char

unfoldable pub strcat : ℕ → ℕ → ℕ → Bytes → Option Bytes
strcat = concat char

unfoldable pub strcmp : ℕ → ℕ → ℕ → Bytes → Option ℤ
strcmp fuel a b m = compare_from char (λ c. c) fuel 0 a b m

unfoldable pub strchr : ℕ → ℕ → ℤ → Bytes → Option (Option ℕ)
strchr fuel src value m = find_from char fuel 0 src value m

unfoldable pub stricmp : ℕ → ℕ → ℕ → Bytes → Option ℤ
stricmp fuel a b m = compare_from char tolower fuel 0 a b m

unfoldable pub wcslen : ℕ → ℕ → Bytes → Option ℕ
wcslen fuel src m = end_from wchar fuel 0 src m

unfoldable pub wcscpy : ℕ → ℕ → ℕ → Bytes → Option Bytes
wcscpy = copy wchar

unfoldable pub wcscat : ℕ → ℕ → ℕ → Bytes → Option Bytes
wcscat = concat wchar

unfoldable pub wcscmp : ℕ → ℕ → ℕ → Bytes → Option ℤ
wcscmp fuel a b m = compare_from wchar (λ c. c) fuel 0 a b m

unfoldable pub wcschr : ℕ → ℕ → ℤ → Bytes → Option (Option ℕ)
wcschr fuel src value m = find_from wchar fuel 0 src value m

unfoldable pub wcsicmp : ℕ → ℕ → ℕ → Bytes → Option ℤ
wcsicmp fuel a b m = compare_from wchar towlower fuel 0 a b m

-- `hash ^= tolower(*p++)` widens the `char` to 64 bits with its sign.
unfoldable pub hash_from : ℕ → ℕ → ℕ → ℕ → Bytes → Option ℕ
hash_from zero i p hash m = none
hash_from (suc f) i p hash m =
    let c = char.load m p i in
    let rest = hash_from f (i + 1) p (fnv_step hash (to_u64 (char.int_of (tolower c)))) m in
    if c == 0 then some hash else rest

unfoldable pub strihsh : ℕ → ℕ → Bytes → Option ℕ
strihsh fuel src m = hash_from fuel 0 src fnv_basis m

-- Each `wchar` is hashed low byte first.
unfoldable pub wide_hash_from : ℕ → ℕ → ℕ → ℕ → Bytes → Option ℕ
wide_hash_from zero i p hash m = none
wide_hash_from (suc f) i p hash m =
    let c = wchar.load m p i in
    let l = towlower c in
    let rest = wide_hash_from f (i + 1) p (fnv_step (fnv_step hash (l % 256)) (l / 256)) m in
    if c == 0 then some hash else rest

unfoldable pub wcsihsh : ℕ → ℕ → Bytes → Option ℕ
wcsihsh fuel src m = wide_hash_from fuel 0 src fnv_basis m
