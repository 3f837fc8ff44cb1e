-- ===== src/Fat32/LongNames/RoundTrip.antt =====
-- A long name as writeFAT32Entry writes it and parseFAT32Entry reads it.
use staxus.Base.{
  if◌then◌else◌, ltb, none, ℕ, zero, suc, ◌+◌, ◌*◌, ◌%◌, ◌<◌, ◌≤◌, ◌≡◌, refl, inl, inr, sym, ap,
  ◌∙◌, false, some, [], ◌∷◌, ◌==◌, length, All, get_elem?, arith, Bool-cases,
}
use staxus.Memory.Bytes.{Bytes, load8}
use staxus.Files.{Text}
use staxus.Fat32.Parse.{text_from}
use staxus.Fat32.Write.{unit_at, slot_at, put_slots}
use staxus.Fat32.LongNames.Slots.{put_slots-Slot}
use staxus.Fat32.LongNames.Reads.{Disjoint}
use staxus.Fat32.LongNames.Collect.{read_slots, Slot-same, Collected, read_slots-Collected}

-- The string at `p` is spelled by the units of the name, its terminator included.
abbrev pub Spelled : Bytes → ℕ → Text → Type 0
Spelled b p name = (j : ℕ) → j ≤ length name → load8 b (p + j) ≡ unit_at name j % 256

unit_at-suc : (c j : ℕ) (cs : Text) → unit_at (c ∷ cs) (suc j) ≡ unit_at cs j
unit_at-suc c j cs =
    let same : (suc j == length (c ∷ cs)) ≡ (j == length cs) = ground arith in
    ap
      (λ stop. elim (get_elem? cs j) [
        | none ↦ if stop then 0 else 0xFFFF
        | some d ↦ if ltb d 128 then d else d + 65280
      ])
      same

Spelled-tail : (b : Bytes) (p c : ℕ) (cs : Text) → Spelled b p (c ∷ cs) → Spelled b (p + 1) cs
Spelled-tail b p c cs s j small =
    let here : p + 1 + j ≡ p + suc j = omega arith in
    ap (λ a. load8 b a) here ∙ s (suc j) (omega arith) ∙ ap (λ v. v % 256) (unit_at-suc c j cs)

-- A `char` that is not the terminator.
abbrev pub IsChar : ℕ → Type 0
IsChar c = (0 < c) × (c < 256)

unit_at-zero : (c : ℕ) (cs : Text) → IsChar c → unit_at (c ∷ cs) 0 % 256 ≡ c
unit_at-zero c cs char = ground arith

pub text_from-name :
    (name : Text) (f p : ℕ) (b : Bytes)
    → All IsChar name
    → length name < f
    → Spelled b p name
    → text_from f b p ≡ some name
unfolding text_from
text_from-name [] zero p b chars fuel s = absurd (omega arith)
text_from-name [] (suc f) p b chars fuel s =
    let here : p + 0 ≡ p = omega arith in
    let stop : load8 b p ≡ 0 = ap (λ a. load8 b a) (sym here) ∙ s 0 (omega arith) in rw stop refl
text_from-name (c ∷ cs) zero p b chars fuel s = absurd (omega arith)
text_from-name (c ∷ cs) (suc f) p b chars fuel s =
    let here : p + 0 ≡ p = omega arith in
    let first : load8 b p ≡ c =
      ap (λ a. load8 b a) (sym here) ∙ s 0 (omega arith) ∙ unit_at-zero c cs chars.0 in
    let more : (load8 b p == 0) ≡ false = ground (arith, chars.0, first) in
    rw (more, text_from-name cs f (p + 1) b chars.1 (omega arith) (Spelled-tail b p c cs s))
      (ap (λ v. some (v ∷ cs)) first)

unit_at-stop : (name : Text) → unit_at name (length name) ≡ 0
unit_at-stop [] = refl
unit_at-stop (c ∷ cs) = unit_at-suc c (length cs) cs ∙ unit_at-stop cs

Collected-Spelled :
    (n : ℕ) (name : Text) (lfn_buf : ℕ) (b : Bytes)
    → 0 < n
    → length name ≤ 13 * n
    → length name ≤ 259
    → Collected n n name lfn_buf b
    → Spelled b lfn_buf name
Collected-Spelled n name lfn_buf b some_read fits short c j small =
    elim (Bool-cases (ltb j (13 * n))) [
      | inl inside ↦ c.units j (ground arith)
      | inr behind ↦
          let last : j ≡ 13 * n = ground (arith, small, fits) in
          let whole : j ≡ length name = ground (arith, small, fits) in
          rw (last) (c.stop some_read (omega (arith, whole)))
          ∙ sym (ap (λ i. unit_at name i % 256) whole ∙ ap (λ v. v % 256) (unit_at-stop name))
    ]

-- The name that writeFAT32Entry has spread over `n` entries, numbered from `start` and all in one
-- cluster of `epc` entries, is what parseFAT32Entry has put together once it has read them in turn, and
-- the flag says so: the name has at most 259 characters, none of them the terminator, and the array at
-- `lfn_buf`, with its flag behind it, lies apart from the entries.
pub put_slots-read_slots :
    (n sum : ℕ) (name : Text) (buf epc start lfn_buf : ℕ) (b : Bytes)
    → length name ≤ 259
    → length name ≤ 13 * n
    → 0 < n
    → n ≤ 20
    → start % epc + n ≤ epc
    → Disjoint (slot_at buf epc start) (n * 32) lfn_buf 261
    → (let b2 =
          read_slots n (slot_at buf epc start) lfn_buf (put_slots n n sum name buf epc start b) in
        Spelled b2 lfn_buf name × (load8 b2 (lfn_buf + 260) ≡ 1))
put_slots-read_slots n sum name buf epc start lfn_buf b short fits some_slots few run apart =
    let b1 = put_slots n n sum name buf epc start b in
    let c =
      read_slots-Collected n 0 n name (slot_at buf epc start) lfn_buf b1 (omega arith) few apart
        (λ i small.
          Slot-same n i (0 + i) name _ _ b1 (omega arith) refl
            (put_slots-Slot n n sum name buf epc start b i small (omega arith) few run))
        (record {
          units = λ j none_yet. absurd (omega arith);
          stop = λ none_yet k. absurd (omega arith);
          flag = λ none_yet k. absurd (omega arith);
        }) in
    let b2 = read_slots n (slot_at buf epc start) lfn_buf b1 in
    (Collected-Spelled n name lfn_buf b2 some_slots fits short c, c.flag some_slots refl)
