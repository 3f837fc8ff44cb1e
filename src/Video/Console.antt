-- ===== src/Video/Console.antt =====
-- lprintf and printf of video/print.c: what is printed, drawn at the cursor. `% 65536` is the wrap of the
-- `u16`s `charX` and `charY`. `none`: the fuel ran out.
use staxus.Base.{
  ℕ, zero, suc, ◌+◌, ◌*◌, ◌%◌, Option, none, some, List, [], ◌==◌, leb, if◌then◌else◌, ◌>>=◌,
}
use staxus.Memory.Bytes.{Bytes, load16}
use staxus.Memory.Utils.{memset}
use staxus.Video.Screen.{FrameBuffer, Font, shift_screen_up, draw_char}
use staxus.Video.Print.{vslprintf, vsprintf, widen_from}

-- The static variables of the file.
pub record Console : Type 0 where
  pub default_fb : FrameBuffer
  pub default_font : Font
  pub char_x : ℕ
  pub char_y : ℕ

unfoldable pub initialize_print : FrameBuffer → Font → Console
initialize_print fb font = record { default_fb = fb; default_font = font; char_x = 0; char_y = 0 }

abbrev pub new_line : Console → Console
new_line c = record c { char_x = 0; char_y = (c.char_y + 1) % 65536 }

abbrev pub advance : Console → Console
advance c = record c { char_x = (c.char_x + 1) % 65536 }

-- The screen moves up by one line where the cursor's line ends at its end or below.
unfoldable pub scroll_screen : Console → Bytes → Console × Bytes
unfolding shift_screen_up
scroll_screen c b =
    if leb c.default_fb.height ((c.char_y + 1) * c.default_font.char_size)
    then (
      record c { char_y = (c.char_y + 65535) % 65536 },
      shift_screen_up c.default_fb c.default_font.char_size b,
    )
    else (c, b)

abbrev pub draw_at_cursor : Console → ℕ → Bytes → Bytes
draw_at_cursor c unit b =
    draw_char c.default_fb c.default_font unit (c.char_x * 8) (c.char_y * c.default_font.char_size)
      0x999999 b

-- The loop of lprintf over the units at `buf`. The screen moves only once, before the loop.
unfoldable pub draw_from : ℕ → ℕ → Console → Bytes → Option (Console × Bytes)
unfolding draw_char
draw_from zero buf c b = none
draw_from (suc f) buf c b =
    let unit = load16 b buf in
    let line = draw_from f (buf + 2) (new_line c) b in
    let back = draw_from f (buf + 2) (record c { char_x = 0 }) b in
    let rest = draw_from f (buf + 2) (advance c) (draw_at_cursor c unit b) in
    if unit == 0
    then some (c, b)
    else if unit == 10
    then line
    else if unit == 13
    then back
    else rest

module _ (float_to_string : ℕ → ℕ → ℕ → ℕ → Bytes → ℕ × Bytes) where
  -- `buf` is the static array of 1024 units.
  unfoldable pub lprintf : ℕ → ℕ → ℕ → List ℕ → Console → Bytes → Option (ℕ × Console × Bytes)
  unfolding vslprintf scroll_screen draw_from
  lprintf f buf fmt args c b = do
    (r, b1) ← vslprintf buf float_to_string f fmt args (memset buf 0 2048 b)
    let (c1, b2) = scroll_screen c b1
    (c2, b3) ← draw_from f buf c1 b2
    some (r, c2, b3)

  -- The static arrays of printf, vsprintf and lprintf.
  pub record Buffers : Type 0 where
    pub printf_buf : ℕ
    pub printf_wbuf : ℕ
    pub vsprintf_wbuf : ℕ
    pub vsprintf_wfmt : ℕ
    pub lprintf_buf : ℕ

  -- The string that vsprintf leaves is the format of the call of lprintf, which has no arguments.
  unfoldable pub printf : ℕ → Buffers → ℕ → List ℕ → Console → Bytes → Option (ℕ × Console × Bytes)
  unfolding vsprintf widen_from lprintf
  printf f s fmt args c b = do
    let b0 = memset s.printf_wbuf 0 2048 (memset s.printf_buf 0 1024 b)
    (r, b1) ← vsprintf float_to_string f s.vsprintf_wbuf s.vsprintf_wfmt s.printf_buf fmt args b0
    b2 ← widen_from f s.printf_buf s.printf_wbuf 0 b1
    lprintf f s.lprintf_buf s.printf_wbuf [] c b2
