-- ===== src/Fat32/Names.antt =====
-- The checksum of a short name, the entries that a long name takes, and the fields of an entry.
use staxus.Base.{
  ℕ, zero, suc, ◌+◌, ◌*◌, ◌/◌, ◌%◌, ◌<◌, ◌≤◌, ◌≡◌, refl, ◌≢◌, ◌⊎◌, inl, inr, sym, ap, ◌↔◌, ◌∙◌,
  true, false, not, ◌&&◌, [], ◌∷◌, ◌==◌, length, ltb, All, arith, Bool-cases,
}
use staxus.Base.Int.{pos, signed8, eq_ℤ}
use staxus.Memory.Bytes.{Bytes, load8, load8-lt}
use staxus.Files.{Text, has_char}
use staxus.Strings.Utils.{islower}
use staxus.Fat32.Entries.{
  parse_fields, dot_at, fits_83, any_lower, long_entries, required_lfn_entries, checksum_step,
  checksum_from, checksum_83_name,
}

checksum_step-sum : (s u c : ℕ) → s < 256 → u < 256 → checksum_step s c ≡ checksum_step u c → s ≡ u
checksum_step-sum s u c hs hu e = omega arith

checksum_step-char : (s c d : ℕ) → c < 256 → d < 256 → checksum_step s c ≡ checksum_step s d → c ≡ d
checksum_step-char s c d hc hd e = omega arith

plus_zero : (a : ℕ) → a ≡ a + 0
plus_zero a = omega arith

next_plus : (a k : ℕ) → a + 1 + k ≡ a + (k + 1)
next_plus a k = omega arith

-- Equal characters, seen from the second one on.
tail-same :
    (n i : ℕ) (b : Bytes) (p q : ℕ)
    → ((k : ℕ) → k < suc n → k ≢ i → load8 b (p + k) ≡ load8 b (q + k))
    → (k : ℕ) → k < n
    → k + 1 ≢ i
    → load8 b (p + 1 + k) ≡ load8 b (q + 1 + k)
tail-same n i b p q same k small ne =
    ap (λ a. load8 b a) (next_plus p k)
    ∙ same (k + 1) (omega arith) ne
    ∙ ap (λ a. load8 b a) (sym (next_plus q k))

head-same : (b : Bytes) (p q : ℕ) → load8 b (p + 0) ≡ load8 b (q + 0) → load8 b p ≡ load8 b q
head-same b p q e = ap (λ a. load8 b a) (plus_zero p) ∙ e ∙ ap (λ a. load8 b a) (sym (plus_zero q))

-- Equal characters keep different sums apart.
checksum_from-sum :
    (n s u : ℕ) (b : Bytes) (p q : ℕ)
    → s < 256
    → u < 256
    → ((k : ℕ) → k < n → load8 b (p + k) ≡ load8 b (q + k))
    → checksum_from n s b p ≡ checksum_from n u b q
    → s ≡ u
unfolding checksum_from
checksum_from-sum zero s u b p q hs hu same e = e
checksum_from-sum (suc n) s u b p q hs hu same e =
    let first = head-same b p q (same 0 (omega arith)) in
    let later =
      checksum_from-sum n (checksum_step s (load8 b p)) (checksum_step u (load8 b q)) b (p + 1)
        (q + 1) (omega arith) (omega arith)
        (λ k small. tail-same n (suc n + 1) b p q (λ j lt ne. same j lt) k small (omega arith)) e in
    checksum_step-sum s u (load8 b q) hs hu (ap (λ c. checksum_step s c) (sym first) ∙ later)

checksum_from-differs :
    (n i s : ℕ) (b : Bytes) (p q : ℕ)
    → i < n
    → ((k : ℕ) → k < n → k ≢ i → load8 b (p + k) ≡ load8 b (q + k))
    → load8 b (p + i) ≢ load8 b (q + i)
    → checksum_from n s b p ≢ checksum_from n s b q
unfolding checksum_from
checksum_from-differs zero i s b p q small same ne e = absurd (omega arith)
checksum_from-differs (suc n) zero s b p q small same ne e =
    let sums =
      checksum_from-sum n (checksum_step s (load8 b p)) (checksum_step s (load8 b q)) b (p + 1)
        (q + 1) (omega arith) (omega arith) (λ k lt. tail-same n zero b p q same k lt (omega arith))
        e in
    let chars = checksum_step-char s (load8 b p) (load8 b q) (load8-lt b p) (load8-lt b q) sums in
    ne (ap (λ a. load8 b a) (sym (plus_zero p)) ∙ chars ∙ ap (λ a. load8 b a) (plus_zero q))
checksum_from-differs (suc n) (suc i) s b p q small same ne e =
    let first = head-same b p q (same 0 (omega arith) (omega arith)) in
    checksum_from-differs n i (checksum_step s (load8 b p)) b (p + 1) (q + 1) (omega arith)
      (λ k lt other. tail-same n (suc i) b p q same k lt (omega (arith, other)))
      (λ q'.
        ne (ap (λ a. load8 b a) (suc_plus p i) ∙ q' ∙ ap (λ a. load8 b a) (sym (suc_plus q i))))
      (e ∙ ap (λ c. checksum_from n (checksum_step s c) b (q + 1)) (sym first))
  where
    suc_plus : (a k : ℕ) → a + suc k ≡ a + 1 + k
    suc_plus a k = omega arith

-- Two names of 11 characters that differ in just one of them have different checksums.
pub checksum_83_name-differs :
    (b : Bytes) (p q i : ℕ)
    → i < 11
    → ((k : ℕ) → k < 11 → k ≢ i → load8 b (p + k) ≡ load8 b (q + k))
    → load8 b (p + i) ≢ load8 b (q + i)
    → checksum_83_name b p ≢ checksum_83_name b q
unfolding checksum_83_name
checksum_83_name-differs b p q i small same ne = checksum_from-differs 11 i 0 b p q small same ne

long_entries-bounds :
    (len : ℕ)
    → ((long_entries len ≡ 20) × (260 < len))
      ⊎ ((len ≤ 13 * long_entries len) × (13 * long_entries len < len + 13))
long_entries-bounds len = elim (Bool-cases (ltb 20 ((len + 12) / 13))) [
  | inl many ↦ rw many (inl (refl, ground (arith, many)))
  | inr few ↦ rw few (inr (omega arith, omega arith))
]

-- A character that a short name can have: no space, no '+', and no lower-case letter.
abbrev pub IsShort : ℕ → Type 0
IsShort c = (c ≢ b' ') × (c ≢ b'+') × (islower c ≡ false)

-- Eight characters, a dot and three more, all of them such characters.
abbrev pub IsShortName : Text → Type 0
IsShortName name = (dot_at name ≤ 8) × (length name ≤ dot_at name + 4) × All IsShort name

All-IsShort :
    (name : Text)
    → has_char b' ' name ≡ false
    → has_char b'+' name ≡ false
    → any_lower name ≡ false
    → All IsShort name
All-IsShort [] space plus lower = tt
All-IsShort (c ∷ cs) space plus lower = (
  ((λ e. ground (arith, space, e)), (λ e. ground (arith, plus, e)), ground (arith, lower)),
  All-IsShort cs (ground (arith, space)) (ground (arith, plus)) (ground (arith, lower)),
)

has_char-IsShort :
    (name : Text)
    → All IsShort name
    → (has_char b' ' name ≡ false) × (has_char b'+' name ≡ false) × (any_lower name ≡ false)
has_char-IsShort [] h = (refl, refl, refl)
has_char-IsShort (c ∷ cs) ((space, plus, lower), h) =
    let (spaces, pluses, lowers) = has_char-IsShort cs h in
    let here : (c == b' ') ≡ false = ground (arith, space) in
    let there : (c == b'+') ≡ false = ground (arith, plus) in
    (rw here spaces, rw there pluses, rw lower lowers)

fits_83-IsShortName :
    (name : Text) → ((fits_83 name && not (any_lower name)) ≡ true) ↔ IsShortName name
fits_83-IsShortName name = (
  (λ e. (
    ground (arith, e),
    ground (arith, e),
    All-IsShort name (ground (arith, e)) (ground (arith, e)) (ground (arith, e)),
  )),
  (λ h.
      let (base, most, chars) = h in
      let (spaces, pluses, lowers) = has_char-IsShort name chars in
      ground (arith, base, most, spaces, pluses, lowers)),
)

-- getRequiredLFNEntries of a name that is not empty, whatever its first character: 0 exactly for the names
-- that have at most eight characters in front of the first dot, at most four from there on, and no space,
-- '+' or lower-case letter; else 20 for a name of more than 260 characters, and for every other name the
-- least number of entries whose 13 characters each hold the name.
pub required_lfn_entries-bounds :
    (c : ℕ) (cs : Text)
    → ((required_lfn_entries (c ∷ cs) ≡ 0) ↔ IsShortName (c ∷ cs))
      × (required_lfn_entries (c ∷ cs) ≤ 20)
      × ((required_lfn_entries (c ∷ cs) ≡ 0)
          ⊎ ((required_lfn_entries (c ∷ cs) ≡ 20) × (260 < length (c ∷ cs)))
          ⊎ ((length (c ∷ cs) ≤ 13 * required_lfn_entries (c ∷ cs))
              × (13 * required_lfn_entries (c ∷ cs) < length (c ∷ cs) + 13)))
unfolding required_lfn_entries
required_lfn_entries-bounds c cs =
    let never : eq_ℤ (signed8 c) (pos 0xE5) ≡ false = ground arith in
    let len = length (c ∷ cs) in
    let some_chars : 0 < long_entries len = ground arith in
    let most : long_entries len ≤ 20 = ground arith in
    let (fits, unfit) = fits_83-IsShortName (c ∷ cs) in
    elim (Bool-cases (fits_83 (c ∷ cs) && not (any_lower (c ∷ cs)))) [
      | inl short ↦ rw (never, short) (((λ e. fits short), (λ e. refl)), omega arith, inl refl)
      | inr long ↦
          rw (never, long)
            (
              (
                (λ e. absurd (omega (arith, e, some_chars))),
                (λ h. absurd (ground (arith, unfit h, long))),
              ),
              most,
              inr (long_entries-bounds len),
            )
    ]

-- parseFAT32Entry takes the time of creation from the bytes of tenths and of the date, and the date of
-- the last write from the low half of the first cluster.
parse_fields-dates :
    (b : Bytes) (raw at name_at : ℕ) (name : Text)
    → ((parse_fields b raw at name_at name).wrt_date
        ≡ (parse_fields b raw at name_at name).cluster % 65536)
      × ((parse_fields b raw at name_at name).crt_time / 256
          ≡ (parse_fields b raw at name_at name).crt_time_tenth)
unfolding parse_fields
parse_fields-dates b raw at name_at name = (
  omega (arith, load8-lt b (raw + 26), load8-lt b (raw + 26 + 1)),
  omega (arith, load8-lt b (raw + 16), ap (λ p. load8 b p) (next_is raw)),
)
  where
    next_is : (p : ℕ) → p + 16 + 1 ≡ p + 17
    next_is p = omega arith
