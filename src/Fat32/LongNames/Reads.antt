-- ===== src/Fat32/LongNames/Reads.antt =====
-- What parseFAT32Entry collects from the entries of a long name, one after the other.
use staxus.Base.{
  ℕ, zero, suc, ◌+◌, ◌-◌, ◌*◌, ◌/◌, ◌%◌, ◌<◌, ◌≤◌, ◌≡◌, refl, ◌≢◌, ◌⊎◌, inl, inr, ap, ◌∙◌, Bool,
  true, false, ◌==◌, ltb, arith, Bool-cases,
}
use staxus.Memory.Bytes.{Bytes, load8, load8-store8_self, load8-store8_ne, load8-lt}
use staxus.Files.{Text}
use staxus.Fat32.Parse.{take_chars, long_name_place, store_long_name, mark_long_name, parse_long}
use staxus.Fat32.Write.{unit_at}
use staxus.Fat32.LongNames.Slots.{Apart, unit_off, Slot}

take_chars-Apart :
    (n p dst a : ℕ) (b : Bytes) → Apart a dst n → load8 (take_chars n p dst b) a ≡ load8 b a
unfolding take_chars
take_chars-Apart zero p dst a b apart = refl
take_chars-Apart (suc n) p dst a b apart =
    take_chars-Apart n (p + 2) (dst + 1) a _ (omega arith) ∙ load8-store8_ne b dst _ a (omega arith)

-- The two ranges have no address in common.
abbrev pub Disjoint : ℕ → ℕ → ℕ → ℕ → Type 0
Disjoint p n q k = (p + n ≤ q) ⊎ (q + k ≤ p)

take_chars-unit :
    (n p dst j : ℕ) (b : Bytes)
    → j < n
    → Disjoint p (2 * n) dst n
    → load8 (take_chars n p dst b) (dst + j) ≡ load8 b (p + 2 * j)
unfolding take_chars
take_chars-unit zero p dst j b small apart = absurd (omega arith)
take_chars-unit (suc n) p dst zero b small apart =
    let here : dst + 0 ≡ dst = omega arith in
    let there : p + 2 * 0 ≡ p = omega arith in
    rw (here, there)
      (take_chars-Apart n (p + 2) (dst + 1) dst _ (omega arith)
        ∙ load8-store8_self b dst _
        ∙ omega (arith, load8-lt b p))
take_chars-unit (suc n) p dst (suc j) b small apart =
    let here : dst + suc j ≡ dst + 1 + j = omega arith in
    let there : p + 2 * suc j ≡ p + 2 + 2 * j = omega arith in
    rw (here, there)
      (take_chars-unit n (p + 2) (dst + 1) j _ (omega arith) (omega arith)
        ∙ load8-store8_ne b dst _ (p + 2 + 2 * j) (omega arith))

store_long_name-Apart :
    (raw lfn_buf a : ℕ) (b : Bytes)
    → Apart a (long_name_place raw lfn_buf b) 14
    → load8 (store_long_name raw lfn_buf b) a ≡ load8 b a
unfolding store_long_name
store_long_name-Apart raw lfn_buf a b apart =
    let d = long_name_place raw lfn_buf b in
    load8-store8_ne _ (d + 13) 0 a (omega arith)
    ∙ take_chars-Apart 2 (raw + 28) (d + 11) a _ (omega arith)
    ∙ take_chars-Apart 6 (raw + 14) (d + 5) a _ (omega arith)
    ∙ take_chars-Apart 5 (raw + 1) d a b (omega arith)

store_long_name-unit :
    (raw lfn_buf d j : ℕ) (b : Bytes)
    → long_name_place raw lfn_buf b ≡ d
    → j < 13
    → Disjoint raw 32 d 14
    → load8 (store_long_name raw lfn_buf b) (d + j) ≡ load8 b (raw + unit_off j)
unfolding store_long_name
store_long_name-unit raw lfn_buf d j b place small apart =
    let b1 = take_chars 5 (raw + 1) d b in
    let b2 = take_chars 6 (raw + 14) (d + 5) b1 in
    rw place (
      load8-store8_ne (take_chars 2 (raw + 28) (d + 11) b2) (d + 13) 0 (d + j) (omega arith)
      ∙ elim (Bool-cases (ltb j 5)) [
        | inl first ↦
            let here : raw + (1 + 2 * j) ≡ raw + 1 + 2 * j = omega arith in
            rw (first, here)
              (take_chars-Apart 2 (raw + 28) (d + 11) (d + j) b2 (ground arith)
                ∙ take_chars-Apart 6 (raw + 14) (d + 5) (d + j) b1 (ground arith)
                ∙ take_chars-unit 5 (raw + 1) d j b (ground arith) (omega arith))
        | inr later ↦ elim (Bool-cases (ltb j 11)) [
          | inl second ↦
              let here : raw + (4 + 2 * j) ≡ raw + 14 + 2 * (j - 5) = ground arith in
              let there : d + j ≡ d + 5 + (j - 5) = ground arith in
              rw (later, second, here)
                (take_chars-Apart 2 (raw + 28) (d + 11) (d + j) b2 (ground arith)
                  ∙ ap (λ a. load8 b2 a) there
                  ∙ take_chars-unit 6 (raw + 14) (d + 5) (j - 5) b1 (ground arith) (omega arith)
                  ∙ take_chars-Apart 5 (raw + 1) d _ b (ground arith))
          | inr third ↦
              let here : raw + (6 + 2 * j) ≡ raw + 28 + 2 * (j - 11) = ground arith in
              let there : d + j ≡ d + 11 + (j - 11) = ground arith in
              rw (later, third, here)
                (ap (λ a. load8 (take_chars 2 (raw + 28) (d + 11) b2) a) there
                  ∙ take_chars-unit 2 (raw + 28) (d + 11) (j - 11) b2 (ground arith) (omega arith)
                  ∙ take_chars-Apart 6 (raw + 14) (d + 5) _ b1 (ground arith)
                  ∙ take_chars-Apart 5 (raw + 1) d _ b (ground arith))
        ]
      ])

store_long_name-stop :
    (raw lfn_buf d : ℕ) (b : Bytes)
    → long_name_place raw lfn_buf b ≡ d
    → load8 (store_long_name raw lfn_buf b) (d + 13) ≡ 0
unfolding store_long_name
store_long_name-stop raw lfn_buf d b place = rw place (load8-store8_self _ (d + 13) 0)

mark_long_name-ne :
    (raw lfn a : ℕ) (b : Bytes) → a ≢ lfn → load8 (mark_long_name raw lfn b) a ≡ load8 b a
mark_long_name-ne raw lfn a b other = elim (Bool-cases (load8 b raw / 64 % 2 == 1)) [
  | inl whole ↦ rw whole (load8-store8_ne b lfn 1 a other)
  | inr part ↦ rw part refl
]

mark_long_name-lfn :
    (raw lfn : ℕ) (b : Bytes) → load8 b raw / 64 % 2 ≡ 1 → load8 (mark_long_name raw lfn b) lfn ≡ 1
mark_long_name-lfn raw lfn b whole = rw whole (load8-store8_self b lfn 1)

-- What one entry of a long name adds to the array at `lfn_buf` and the flag behind it.
pub record Parsed (last : Bool) (k : ℕ) (name : Text) (lfn_buf : ℕ) (b b' : Bytes) : Type 0 where
  pub units : (j : ℕ) → j < 13 → load8 b' (lfn_buf + 13 * k + j) ≡ unit_at name (13 * k + j) % 256
  pub stop : k < 19 → load8 b' (lfn_buf + 13 * k + 13) ≡ 0
  pub flag : last ≡ true → load8 b' (lfn_buf + 260) ≡ 1
  pub keeps : (a : ℕ) → Apart a (lfn_buf + 13 * k) 14 → a ≢ lfn_buf + 260 → load8 b' a ≡ load8 b a

Slot-place :
    (last : Bool) (k : ℕ) (name : Text) (raw lfn_buf : ℕ) (b : Bytes)
    → k < 20
    → Slot last k name raw b
    → long_name_place raw lfn_buf b ≡ lfn_buf + 13 * k
Slot-place true k name raw lfn_buf b small s = omega (arith, s.number)
Slot-place false k name raw lfn_buf b small s = omega (arith, s.number)

Slot-whole :
    (last : Bool) (k : ℕ) (name : Text) (raw : ℕ) (b : Bytes)
    → k < 20
    → last ≡ true
    → Slot last k name raw b
    → load8 b raw / 64 % 2 ≡ 1
Slot-whole true k name raw b small whole s = omega (arith, s.number)
Slot-whole false k name raw b small whole s = absurd (ground arith)

pub parse_long-Parsed :
    (last : Bool) (k : ℕ) (name : Text) (raw lfn_buf : ℕ) (b : Bytes)
    → k < 20
    → Disjoint raw 32 lfn_buf 261
    → Slot last k name raw b
    → Parsed last k name lfn_buf b (parse_long raw lfn_buf (lfn_buf + 260) b)
unfolding parse_long
parse_long-Parsed last k name raw lfn_buf b small apart s =
    let b1 = store_long_name raw lfn_buf b in
    let place = Slot-place last k name raw lfn_buf b small s in
    let keep : (a : ℕ) → Apart a (lfn_buf + 13 * k) 14 → load8 b1 a ≡ load8 b a =
      λ a out. store_long_name-Apart raw lfn_buf a b (omega (arith, place)) in
    record {
      units = λ j inside.
          mark_long_name-ne raw (lfn_buf + 260) (lfn_buf + 13 * k + j) b1 (omega arith)
          ∙ store_long_name-unit raw lfn_buf (lfn_buf + 13 * k) j b place inside (omega arith)
          ∙ s.unit j inside;
      stop = λ early.
          mark_long_name-ne raw (lfn_buf + 260) (lfn_buf + 13 * k + 13) b1 (omega arith)
          ∙ store_long_name-stop raw lfn_buf (lfn_buf + 13 * k) b place;
      flag = λ whole. mark_long_name-lfn raw (lfn_buf + 260) b1 (
          ap (λ v. v / 64 % 2) (keep raw (omega arith))
          ∙ Slot-whole last k name raw b small whole s);
      keeps = λ a out other. mark_long_name-ne raw (lfn_buf + 260) a b1 other ∙ keep a out;
    }
