-- ===== src/Fonts/Tests.antt =====
-- The theorems on fonts at a file without a table of characters, and at a table of two glyphs.
use staxus.Base.{ℕ, ◌+◌, ◌-◌, refl, inr, some, List, [], ◌∷◌, ◌==◌, if◌then◌else◌, arith}
use staxus.Memory.Bytes.{Bytes, load16, load8}
use staxus.Storage.Ledger.{Ledger}
use staxus.Fat32.{Machine}
use staxus.Fonts.{FileCalls, load_font, fill_table}
use staxus.Fonts.Accounts.{FileLedger, Balanced, load_font-Balanced}
use staxus.Fonts.Table.{Reads, Filled, fill_table-Filled}

-- The header at 100: 256 glyphs of 16 bytes.
abbrev font_header : Bytes
font_header a = if a == 100 then 0x36 else if a == 101 then 4 else if a == 103 then 16 else 0

-- The world is the number of live allocations.
abbrev counter : Machine ℕ
counter = record {
  memory = record {
    aalloc = λ size align w. (some 100, w + 1);
    malloc = λ size w. (some 100, w + 1);
    free = λ p w. w - 1;
    bytes = λ w. font_header;
  };
  set_bytes = λ b w. w;
}

abbrev font_file : FileCalls ℕ
font_file = record {
  fopen = λ path w. (some 7, w + 1);
  fseek = λ fp offset origin w. w;
  ftell = λ fp w. 4100;
  fread = λ p size count fp w. w;
  fclose = λ fp w. w - 1;
}

abbrev live : ℕ → ℕ
live w = w

counter-Ledger : Ledger counter.memory live
counter-Ledger = record {
  malloc_some = λ n p w w' e. ground (arith, e);
  malloc_none = λ n w w' e. absurd (ground (arith, e));
  aalloc_some = λ n k p w w' e. ground (arith, e);
  aalloc_none = λ n k w w' e. absurd (ground (arith, e));
  free = λ p w. refl;
}

font_file-Ledger : FileLedger counter font_file live 1
font_file-Ledger = record {
  fopen_some = λ path fp w w' e. ground (arith, e);
  fopen_none = λ path w w' e. absurd (ground (arith, e));
  fclose = λ fp w. refl;
  fread = λ p size n fp w. refl;
  fseek = λ fp offset origin w. refl;
  set_bytes = λ b w. refl;
}

load_font-Balanced_example :
    Balanced counter font_file live 1 counter-Ledger font_file-Ledger 5
      (load_font counter font_file 8 [] 5)
load_font-Balanced_example =
    load_font-Balanced counter font_file live 1 counter-Ledger font_file-Ledger 8 [] 5

-- The letter A is the first glyph, and the second glyph has no character.
abbrev letters : List ℕ
letters = b'A' ∷ 0xFFFF ∷ 0xFFFF ∷ []

abbrev letters_at : Bytes
letters_at a =
    if a == 4096
    then b'A'
    else if a == 4098
    then 255
    else if a == 4099
    then 255
    else if a == 4100
    then 255
    else if a == 4101
    then 255
    else 0

letters-Reads : Reads letters_at 4096 letters
unfolding load16 load8
letters-Reads = (refl, (refl, (refl, tt)))

fill_table-Filled_example :
    Filled 10000 2 letters 0 letters_at (fill_table 4 4096 10000 2 0 0 letters_at)
fill_table-Filled_example =
    fill_table-Filled 10000 2 4 4096 letters letters_at letters-Reads (inr (omega arith))
      (omega arith) (omega arith) (omega arith) (omega arith)
