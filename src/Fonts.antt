-- ===== src/Fonts.antt =====
-- file-formats/psf/krnl.c: LoadFont, which reads a font from a file. `none`: the fuel ran out.
pub mod Accounts
pub mod Table
pub mod Tests
use staxus.Base.{
  ℕ, zero, suc, ◌+◌, ◌-◌, ◌*◌, ◌%◌, Option, none, some, List, [], ◌∷◌, ◌==◌, ltb, leb,
  if◌then◌else◌,
}
use staxus.Memory.Bytes.{Bytes, load8, load16, store16}
use staxus.Files.{Text}
use staxus.Fat32.{Machine}

-- The calls of file-systems/file-system.h that are used here; a `FILE *` is its address.
pub record FileCalls (W : Type 0) : Type 0 where
  pub fopen : Text → W → Option ℕ × W
  pub fseek : ℕ → ℕ → ℕ → W → W
  pub ftell : ℕ → W → ℕ
  pub fread : ℕ → ℕ → ℕ → ℕ → W → W
  pub fclose : ℕ → W → W

-- `PSFFont`, with its address. Without a table in the file, `unicodeTable` is not set.
pub record FontAt : Type 0 where
  pub at : ℕ
  pub header : ℕ
  pub glyph_buffer : ℕ
  pub unicode_table : Option ℕ

abbrev pub seek_set : ℕ
seek_set = 0

abbrev pub seek_end : ℕ
seek_end = 2

-- `sizeof(PSFFont)`, `sizeof(PSFHeader)` and the bytes of a table of characters
abbrev pub font_size : ℕ
font_size = 24

abbrev pub header_bytes : ℕ
header_bytes = 4

abbrev pub table_bytes : ℕ
table_bytes = 2 * 0xFFFF

-- `(fontMode & PSF_MODE512) != 0 ? 512 : 256`
abbrev pub glyph_count : Bytes → ℕ → ℕ
glyph_count b header = if load8 b (header + 2) % 2 == 0 then 256 else 512

-- The loop over the file's table, from entry `tbl` and glyph `glyph` on; both indices have 16 bits.
-- Nothing compares `tbl` with the table's length.
unfoldable pub fill_table : ℕ → ℕ → ℕ → ℕ → ℕ → ℕ → Bytes → Option Bytes
fill_table zero file_table table glyphs tbl glyph b = none
fill_table (suc f) file_table table glyphs tbl glyph b =
    let c = load16 b (file_table + 2 * tbl) in
    let more = if c == 0xFFFF then (glyph + 1) % 65536 else glyph in
    let b1 = if c == 0xFFFF then b else store16 b (table + 2 * c) glyph in
    let rest = fill_table f file_table table glyphs ((tbl + 1) % 65536) more b1 in
    if ltb glyph glyphs then rest else some b

module _ {W : Type 0} (m : Machine W) (files : FileCalls W) where
  -- The allocations are freed in their order, and the file is closed.
  unfoldable pub close_all : ℕ → List ℕ → W → W
  close_all fp [] w = files.fclose fp w
  close_all fp (p ∷ ps) w = close_all fp ps (m.memory.free p w)

  abbrev pub with_table : ℕ → FontAt → W → Option Bytes → Option (Option FontAt × W)
  with_table file_table font w none = none
  with_table file_table font w (some b) =
      some (some font, m.memory.free file_table (m.set_bytes b w))

  unfoldable pub load_table : ℕ → ℕ → ℕ → ℕ → ℕ → FontAt → Option ℕ × W → Option (Option FontAt × W)
  unfolding close_all fill_table
  load_table fuel fp count bytes file_table font (none, w) =
      some (none, close_all fp (file_table ∷ font.glyph_buffer ∷ font.header ∷ font.at ∷ []) w)
  load_table fuel fp count bytes file_table font (some table, w) =
      let w1 = files.fclose fp (files.fread file_table bytes 1 fp w) in
      with_table file_table (record font { unicode_table = some table }) w1
        (fill_table fuel file_table table count 0 0 (m.memory.bytes w1))

  unfoldable pub load_file_table :
      ℕ → ℕ → ℕ → ℕ → FontAt → Option ℕ × W → Option (Option FontAt × W)
  unfolding load_table
  load_file_table fuel fp count bytes font (none, w) =
      some (none, close_all fp (font.glyph_buffer ∷ font.header ∷ font.at ∷ []) w)
  load_file_table fuel fp count bytes font (some file_table, w) =
      load_table fuel fp count bytes file_table font (m.memory.malloc table_bytes w)

  unfoldable pub load_glyphs : ℕ → ℕ → ℕ → ℕ → ℕ → ℕ → ℕ → Option ℕ × W → Option (Option FontAt × W)
  unfolding load_file_table
  load_glyphs fuel fp size count glyphs font header (none, w) =
      some (none, close_all fp (header ∷ font ∷ []) w)
  load_glyphs fuel fp size count glyphs font header (some buffer, w) =
      let w1 = files.fread buffer glyphs 1 fp w in
      let x : FontAt = record {
        at = font;
        header = header;
        glyph_buffer = buffer;
        unicode_table = none;
      } in
      let rest =
        load_file_table fuel fp count (size - header_bytes - glyphs) x
          (m.memory.malloc (size - header_bytes - glyphs) w1) in
      if leb size (header_bytes + glyphs) then some (some x, files.fclose fp w1) else rest

  -- `magic != PSF_MAGIC`
  unfoldable pub load_header : ℕ → ℕ → ℕ → ℕ → Option ℕ × W → Option (Option FontAt × W)
  unfolding load_glyphs
  load_header fuel fp size font (none, w) = some (none, close_all fp (font ∷ []) w)
  load_header fuel fp size font (some header, w) =
      let w1 = files.fread header header_bytes 1 fp w in
      let b = m.memory.bytes w1 in
      let count = glyph_count b header in
      let glyphs = load8 b (header + 3) * count in
      if load16 b header == 0x0436
      then load_glyphs fuel fp size count glyphs font header (m.memory.malloc glyphs w1)
      else some (none, close_all fp (header ∷ font ∷ []) w1)

  unfoldable pub load_opened : ℕ → ℕ → ℕ → Option ℕ × W → Option (Option FontAt × W)
  unfolding load_header
  load_opened fuel fp size (none, w) = some (none, close_all fp [] w)
  load_opened fuel fp size (some font, w) =
      load_header fuel fp size font (m.memory.malloc header_bytes w)

  abbrev pub load_file : ℕ → Option ℕ × W → Option (Option FontAt × W)
  load_file fuel (none, w) = some (none, w)
  load_file fuel (some fp, w) =
      let w1 = files.fseek fp 0 seek_end w in
      let w2 = files.fseek fp 0 seek_set w1 in
      load_opened fuel fp (files.ftell fp w1) (m.memory.malloc font_size w2)

  -- The font, or the null pointer.
  unfoldable pub load_font : ℕ → Text → W → Option (Option FontAt × W)
  unfolding load_opened
  load_font fuel path w = load_file fuel (files.fopen path w)
