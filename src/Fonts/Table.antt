-- ===== src/Fonts/Table.antt =====
-- What the loop of LoadFont makes of the table in the file: it ends, with each character's glyph.
use staxus.Base.{
  ℕ, zero, suc, ◌+◌, ◌*◌, ◌%◌, ◌<◌, ◌≤◌, ◌≡◌, refl, ◌⊎◌, inl, inr, ◌∙◌, sym, ap, Option, none, some,
  List, [], ◌∷◌, ◌==◌, ltb, if◌then◌else◌, true, false, arith, Bool-cases, length,
}
use staxus.Memory.Bytes.{Bytes, load8, load16, store16, load8-store16, load16-store16, load16_frame}
use staxus.Fonts.{fill_table}

-- The units of 16 bits from `p` on.
abbrev pub Reads : Bytes → ℕ → List ℕ → Type 0
Reads b p [] = Unit
Reads b p (u ∷ us) = (load16 b p ≡ u) × Reads b (p + 2) us

-- The glyphs that a table describes: each ends with 0xFFFF.
abbrev pub described : List ℕ → ℕ
described [] = 0
described (u ∷ us) = if u == 0xFFFF then described us + 1 else described us

-- The glyph of the character `c` by the table from `glyph` on: the last that lists it, of the first
-- `glyphs`, or `old`.
abbrev pub glyph_of : ℕ → ℕ → List ℕ → ℕ → ℕ → ℕ
glyph_of glyphs c [] glyph old = old
glyph_of glyphs c (u ∷ us) glyph old =
    let here =
      glyph_of glyphs c us (if u == 0xFFFF then glyph + 1 else glyph)
        (if u == 0xFFFF then old else if u == c then glyph else old) in
    if ltb glyph glyphs then here else old

-- The table of characters at `table` lies before or behind the units at `p`.
abbrev pub ApartFrom : ℕ → ℕ → ℕ → Type 0
ApartFrom table p n = (table + 2 * 0xFFFF ≤ p) ⊎ (p + 2 * n ≤ table)

load16-lt : (b : Bytes) (a : ℕ) → load16 b a < 65536
unfolding load16 load8
load16-lt b a = omega arith

load16-store16_ne :
    (b : Bytes) (a v p : ℕ) → (p + 2 ≤ a) ⊎ (a + 2 ≤ p) → load16 (store16 b a v) p ≡ load16 b p
load16-store16_ne b a v p apart =
    load16_frame (store16 b a v) b p (load8-store16 b a v p (ground (arith, apart)))
      (load8-store16 b a v (p + 1) (ground (arith, apart)))

Reads-store16 :
    (b : Bytes) (a v p : ℕ) (us : List ℕ)
    → (a + 2 ≤ p) ⊎ (p + 2 * length us ≤ a)
    → Reads b p us
    → Reads (store16 b a v) p us
Reads-store16 b a v p [] apart r = tt
Reads-store16 b a v p (u ∷ us) apart (this, rest) = (
  load16-store16_ne b a v p (ground (arith, apart)) ∙ this,
  Reads-store16 b a v (p + 2) us (ground (arith, apart)) rest,
)

-- The loop ends with a memory that gives each character its glyph.
abbrev pub Filled : ℕ → ℕ → List ℕ → ℕ → Bytes → Option Bytes → Type 0
Filled table glyphs us glyph b none = ⊥
Filled table glyphs us glyph b (some b') =
    (c : ℕ)
    → c < 0xFFFF
    → load16 b' (table + 2 * c) ≡ glyph_of glyphs c us glyph (load16 b (table + 2 * c))

stored :
    (b : Bytes) (table u c glyph : ℕ)
    → glyph < 65536
    → load16 (store16 b (table + 2 * u) glyph) (table + 2 * c)
      ≡ (if u == c then glyph else load16 b (table + 2 * c))
stored b table u c glyph small = elim (Bool-cases (u == c)) [
  | inl same ↦
      let here : table + 2 * c ≡ table + 2 * u = ground (arith, same) in
      rw (same, here) (load16-store16 b (table + 2 * u) glyph ∙ omega (arith, small))
  | inr other ↦
      let apart : (table + 2 * c + 2 ≤ table + 2 * u) ⊎ (table + 2 * u + 2 ≤ table + 2 * c) =
        ground (arith, other) in
      rw other (load16-store16_ne b (table + 2 * u) glyph (table + 2 * c) apart)
]

module _ (table glyphs : ℕ) where
  Filled-ended :
      (u glyph : ℕ) (us : List ℕ) (b : Bytes) (o : Option Bytes)
      → ltb glyph glyphs ≡ true
      → (u == 0xFFFF) ≡ true
      → Filled table glyphs us (glyph + 1) b o
      → Filled table glyphs (u ∷ us) glyph b o
  Filled-ended u glyph us b none inside ends h = h
  Filled-ended u glyph us b (some b') inside ends h = λ c lt. rw (inside, ends) (h c lt)

  Filled-listed :
      (u glyph : ℕ) (us : List ℕ) (b : Bytes) (o : Option Bytes)
      → ltb glyph glyphs ≡ true
      → (u == 0xFFFF) ≡ false
      → glyph < 65536
      → Filled table glyphs us glyph (store16 b (table + 2 * u) glyph) o
      → Filled table glyphs (u ∷ us) glyph b o
  Filled-listed u glyph us b none inside char small h = h
  Filled-listed u glyph us b (some b') inside char small h = λ c lt.
      rw (inside, char)
        (h c lt ∙ ap (λ old. glyph_of glyphs c us glyph old) (stored b table u c glyph small))

  fill_table-Filled_from :
      (f file_table tbl p glyph : ℕ) (us : List ℕ) (b : Bytes)
      → Reads b p us
      → p ≡ file_table + 2 * tbl
      → ApartFrom table p (length us)
      → tbl + length us < 65536
      → glyphs ≤ 512
      → glyphs ≤ glyph + described us
      → length us < f
      → Filled table glyphs us glyph b (fill_table f file_table table glyphs tbl glyph b)
  unfolding fill_table
  fill_table-Filled_from zero file_table tbl p glyph us b r at apart few most all enough =
      absurd (omega (arith, enough))
  fill_table-Filled_from (suc f) file_table tbl p glyph [] b r at apart few most all enough =
      let done : ltb glyph glyphs ≡ false = ground (arith, all) in rw done (λ c lt. refl)
  fill_table-Filled_from (suc f) file_table tbl p glyph (u ∷ us) b (this, r) at apart few most all
        enough =
      elim (Bool-cases (ltb glyph glyphs)) [
        | inr done ↦ rw done (λ c lt. rw done refl)
        | inl inside ↦
            let unit : load16 b (file_table + 2 * tbl) ≡ u = ap (λ q. load16 b q) (sym at) ∙ this in
            let next : (tbl + 1) % 65536 ≡ tbl + 1 = omega (arith, few) in
            elim (Bool-cases (u == 0xFFFF)) [
              | inl ends ↦
                  let more : (glyph + 1) % 65536 ≡ glyph + 1 = ground (arith, inside, most) in
                  let all1 : glyphs ≤ glyph + 1 + described us = ground (arith, ends, all) in
                  rw (inside, unit, ends, next, more)
                    (Filled-ended u glyph us b _ inside ends (
                      fill_table-Filled_from f file_table (tbl + 1) (p + 2) (glyph + 1) us b r
                        (omega (arith, at)) (ground (arith, apart)) (omega (arith, few)) most all1
                        (omega (arith, enough))))
              | inr char ↦
                  let low : u < 0xFFFF = ground (arith, char, load16-lt b p, this) in
                  let all1 : glyphs ≤ glyph + described us = ground (arith, char, all) in
                  let small : glyph < 65536 = ground (arith, inside, most) in
                  rw (inside, unit, char, next)
                    (Filled-listed u glyph us b _ inside char small (
                      fill_table-Filled_from f file_table (tbl + 1) (p + 2) glyph us
                        (store16 b (table + 2 * u) glyph)
                        (Reads-store16 b (table + 2 * u) glyph (p + 2) us
                          (ground (arith, apart, low)) r)
                        (omega (arith, at)) (ground (arith, apart)) (omega (arith, few)) most all1
                        (omega (arith, enough))))
            ]
      ]

  -- A table in the file of fewer than 65536 units that ends at least as many glyphs as the font has, at
  -- most 512, and that lies apart from the table of characters: with more fuel than it has units the loop
  -- ends, and each character below 0xFFFF then has the last of the font's glyphs that lists it, or what it
  -- had before.
  pub fill_table-Filled :
      (f file_table : ℕ) (us : List ℕ) (b : Bytes)
      → Reads b file_table us
      → ApartFrom table file_table (length us)
      → length us < 65536
      → glyphs ≤ 512
      → glyphs ≤ described us
      → length us < f
      → Filled table glyphs us 0 b (fill_table f file_table table glyphs 0 0 b)
  fill_table-Filled f file_table us b r apart few most all enough =
      fill_table-Filled_from f file_table 0 file_table 0 us b r (omega arith) apart
        (omega (arith, few)) most (omega (arith, all)) enough
