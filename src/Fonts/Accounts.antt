-- ===== src/Fonts/Accounts.antt =====
-- What LoadFont allocates and gives back.
use staxus.Base.{
  ℕ, ◌+◌, ◌-◌, ◌≡◌, refl, inl, inr, Option, none, some, List, [], ◌∷◌, arith, leb, ◌==◌, Bool-cases,
  length,
}
use staxus.Memory.Bytes.{Bytes, load16}
use staxus.Storage.Ledger.{Ledger}
use staxus.Fat32.{Machine}
use staxus.Files.{Text}
use staxus.Fonts.{
  FileCalls, FontAt, seek_set, seek_end, font_size, header_bytes, table_bytes, close_all,
  with_table, load_table, load_file_table, load_glyphs, load_header, load_opened, load_file,
  load_font,
}

-- An open file holds `per_file` allocations, which fclose gives back; the other calls keep what there is.
pub record FileLedger {W : Type 0} (m : Machine W) (files : FileCalls W) (live : W → ℕ)
    (per_file : ℕ) : Type 0 where
  pub fopen_some :
      (path : Text) (fp : ℕ) (w w' : W)
      → files.fopen path w ≡ (some fp, w')
      → live w' ≡ live w + per_file
  pub fopen_none : (path : Text) (w w' : W) → files.fopen path w ≡ (none, w') → live w' ≡ live w
  pub fclose : (fp : ℕ) (w : W) → live (files.fclose fp w) ≡ live w - per_file
  pub fread : (p size n fp : ℕ) (w : W) → live (files.fread p size n fp w) ≡ live w
  pub fseek : (fp offset origin : ℕ) (w : W) → live (files.fseek fp offset origin w) ≡ live w
  pub set_bytes : (b : Bytes) (w : W) → live (m.set_bytes b w) ≡ live w

-- The three or four allocations of a font.
abbrev pub parts_of : FontAt → ℕ
parts_of x = elim x.unicode_table [ none ↦ 3 | some table ↦ 4 ]

module _ {W : Type 0} (m : Machine W) (files : FileCalls W) (live : W → ℕ) (per_file : ℕ)
    (l : Ledger m.memory live) (f : FileLedger m files live per_file) where
  -- A font is live and nothing else, or nothing is left.
  abbrev pub Balanced : ℕ → Option (Option FontAt × W) → Type 0
  Balanced n none = Unit
  Balanced n (some (none, w)) = live w ≡ n
  Balanced n (some (some x, w)) = live w ≡ n + parts_of x

  close_all-live :
      (fp n : ℕ) (ps : List ℕ) (w : W)
      → live w ≡ n + per_file + length ps
      → live (close_all m files fp ps w) ≡ n
  unfolding close_all
  close_all-live fp n [] w h = omega (arith, h, f.fclose fp w)
  close_all-live fp n (p ∷ ps) w h =
      close_all-live fp n ps (m.memory.free p w) (omega (arith, h, l.free p w))

  with_table-Balanced :
      (n file_table table : ℕ) (x : FontAt) (w : W) (o : Option Bytes)
      → live w ≡ n + 5
      → Balanced n (with_table m files file_table (record x { unicode_table = some table }) w o)
  with_table-Balanced n file_table table x w none h = tt
  with_table-Balanced n file_table table x w (some b) h =
      omega (arith, h, f.set_bytes b w, l.free file_table (m.set_bytes b w))

  load_table-Balanced :
      (n fuel fp count bytes file_table : ℕ) (x : FontAt) (w : W) (o : Option ℕ × W)
      → live w ≡ n + per_file + 4
      → m.memory.malloc table_bytes w ≡ o
      → Balanced n (load_table m files fuel fp count bytes file_table x o)
  unfolding load_table
  load_table-Balanced n fuel fp count bytes file_table x w (none, w1) h e =
      close_all-live fp n (file_table ∷ x.glyph_buffer ∷ x.header ∷ x.at ∷ []) w1
        (omega (arith, h, l.malloc_none table_bytes w w1 e))
  load_table-Balanced n fuel fp count bytes file_table x w (some table, w1) h e =
      let w2 = files.fread file_table bytes 1 fp w1 in
      with_table-Balanced n file_table table x (files.fclose fp w2) _ (
        omega (
          arith,
          h,
          l.malloc_some table_bytes table w w1 e,
          f.fread file_table bytes 1 fp w1,
          f.fclose fp w2,
        ))

  load_file_table-Balanced :
      (n fuel fp count bytes : ℕ) (x : FontAt) (w : W) (o : Option ℕ × W)
      → live w ≡ n + per_file + 3
      → m.memory.malloc bytes w ≡ o
      → Balanced n (load_file_table m files fuel fp count bytes x o)
  unfolding load_file_table
  load_file_table-Balanced n fuel fp count bytes x w (none, w1) h e =
      close_all-live fp n (x.glyph_buffer ∷ x.header ∷ x.at ∷ []) w1
        (omega (arith, h, l.malloc_none bytes w w1 e))
  load_file_table-Balanced n fuel fp count bytes x w (some p, w1) h e =
      load_table-Balanced n fuel fp count bytes p x w1 _
        (omega (arith, h, l.malloc_some bytes p w w1 e)) refl

  load_glyphs-Balanced :
      (n fuel fp size count glyphs font header : ℕ) (w : W) (o : Option ℕ × W)
      → live w ≡ n + per_file + 2
      → m.memory.malloc glyphs w ≡ o
      → Balanced n (load_glyphs m files fuel fp size count glyphs font header o)
  unfolding load_glyphs
  load_glyphs-Balanced n fuel fp size count glyphs font header w (none, w1) h e =
      close_all-live fp n (header ∷ font ∷ []) w1 (omega (arith, h, l.malloc_none glyphs w w1 e))
  load_glyphs-Balanced n fuel fp size count glyphs font header w (some p, w1) h e =
      let w2 = files.fread p glyphs 1 fp w1 in
      let held : live w2 ≡ n + per_file + 3 =
        omega (arith, h, l.malloc_some glyphs p w w1 e, f.fread p glyphs 1 fp w1) in
      let x : FontAt = record {
        at = font;
        header = header;
        glyph_buffer = p;
        unicode_table = none;
      } in
      elim (Bool-cases (leb size (header_bytes + glyphs))) [
        | inl whole ↦ rw whole (omega (arith, held, f.fclose fp w2))
        | inr more ↦ rw more (
            load_file_table-Balanced n fuel fp count (size - header_bytes - glyphs) x w2 _ held
              refl)
      ]

  load_header-Balanced :
      (n fuel fp size font : ℕ) (w : W) (o : Option ℕ × W)
      → live w ≡ n + per_file + 1
      → m.memory.malloc header_bytes w ≡ o
      → Balanced n (load_header m files fuel fp size font o)
  unfolding load_header
  load_header-Balanced n fuel fp size font w (none, w1) h e =
      close_all-live fp n (font ∷ []) w1 (omega (arith, h, l.malloc_none header_bytes w w1 e))
  load_header-Balanced n fuel fp size font w (some p, w1) h e =
      let w2 = files.fread p header_bytes 1 fp w1 in
      let held : live w2 ≡ n + per_file + 2 =
        omega (arith, h, l.malloc_some header_bytes p w w1 e, f.fread p header_bytes 1 fp w1) in
      elim (Bool-cases (load16 (m.memory.bytes w2) p == 0x0436)) [
        | inl magic ↦ rw magic (load_glyphs-Balanced n fuel fp size _ _ font p w2 _ held refl)
        | inr wrong ↦ rw wrong (close_all-live fp n (p ∷ font ∷ []) w2 held)
      ]

  load_opened-Balanced :
      (n fuel fp size : ℕ) (w : W) (o : Option ℕ × W)
      → live w ≡ n + per_file
      → m.memory.malloc font_size w ≡ o
      → Balanced n (load_opened m files fuel fp size o)
  unfolding load_opened
  load_opened-Balanced n fuel fp size w (none, w1) h e =
      close_all-live fp n [] w1 (omega (arith, h, l.malloc_none font_size w w1 e))
  load_opened-Balanced n fuel fp size w (some p, w1) h e =
      load_header-Balanced n fuel fp size p w1 _
        (omega (arith, h, l.malloc_some font_size p w w1 e)) refl

  load_file-Balanced :
      (fuel : ℕ) (path : Text) (w : W) (o : Option ℕ × W)
      → files.fopen path w ≡ o
      → Balanced (live w) (load_file m files fuel o)
  load_file-Balanced fuel path w (none, w1) e = f.fopen_none path w w1 e
  load_file-Balanced fuel path w (some fp, w1) e =
      let w2 = files.fseek fp 0 seek_end w1 in
      load_opened-Balanced (live w) fuel fp (files.ftell fp w2) (files.fseek fp 0 seek_set w2) _
        (omega
          (arith, f.fopen_some path fp w w1 e, f.fseek fp 0 seek_end w1, f.fseek fp 0 seek_set w2))
        refl

  -- Where malloc and free keep the count of live allocations, an open file holds a fixed number of them, and
  -- no other call changes the count: when LoadFont ends without a font, whichever call failed, everything it
  -- allocated is given back and the file is closed; when it ends with a font, the font's three or four parts
  -- are the only new allocations, and the file is closed.
  pub load_font-Balanced :
      (fuel : ℕ) (path : Text) (w : W) → Balanced (live w) (load_font m files fuel path w)
  unfolding load_font
  load_font-Balanced fuel path w = load_file-Balanced fuel path w (files.fopen path w) refl
