-- ===== src/Video/Screen.antt =====
-- video/gop.c: pixels of 32 bits in the memory of the frame buffer. `% 4294967296` is the wrap of a
-- `u32`. A loop that no counter bounds takes fuel, and `none` means that it ran out.

pub mod Pixels
pub mod Shift
pub mod Endless
use staxus.Base.{
  ℕ, zero, suc, ◌+◌, ◌-◌, ◌*◌, ◌/◌, ◌%◌, ◌^◌, Bool, ◌&&◌, ◌||◌, Option, none, some, ◌==◌, ltb, leb,
  if◌then◌else◌,
}
use staxus.Memory.Bytes.{Bytes, load8, load16, load32, store32}

-- `FrameBuffer` without `BufferSize`, which no operation reads.
pub record FrameBuffer : Type 0 where
  pub base_addr : ℕ
  pub width : ℕ
  pub height : ℕ
  pub pixels_per_scan : ℕ

-- `(dword *) fb -> BaseAddr + y * fb -> PixelsPerScan + x`
abbrev pub pixel_at : FrameBuffer → ℕ → ℕ → ℕ
pixel_at fb x y = fb.base_addr + 4 * ((y * fb.pixels_per_scan + x) % 4294967296)

unfoldable pub set_pixel : FrameBuffer → ℕ → ℕ → ℕ → Bytes → Bytes
set_pixel fb x y color b =
    if leb fb.width x || leb fb.height y then b else store32 b (pixel_at fb x y) color

unfoldable pub get_pixel : FrameBuffer → ℕ → ℕ → Bytes → ℕ
get_pixel fb x y b = if leb fb.width x || leb fb.height y then 0 else load32 b (pixel_at fb x y)

-- `n` rounds of a loop over x, from `x` on.
unfoldable pub clear_row : FrameBuffer → ℕ → ℕ → ℕ → ℕ → Bytes → Bytes
clear_row fb color y zero x b = b
clear_row fb color y (suc n) x b =
    clear_row fb color y n (x + 1) (store32 b (pixel_at fb x y) color)

unfoldable pub clear_rows : FrameBuffer → ℕ → ℕ → ℕ → Bytes → Bytes
unfolding clear_row
clear_rows fb color zero y b = b
clear_rows fb color (suc n) y b = clear_rows fb color n (y + 1) (clear_row fb color y fb.width 0 b)

unfoldable pub clear_screen : FrameBuffer → ℕ → Bytes → Bytes
unfolding clear_rows
clear_screen fb color b = clear_rows fb color fb.height 0 b

-- `y + n >= fb -> Height ? 0 : GetPixel(fb, x, y + n)`
unfoldable pub pixel_below : FrameBuffer → ℕ → ℕ → ℕ → Bytes → ℕ
pixel_below fb n x y b =
    if leb fb.height ((y + n) % 4294967296) then 0 else get_pixel fb x ((y + n) % 4294967296) b

unfoldable pub shift_row : FrameBuffer → ℕ → ℕ → ℕ → ℕ → Bytes → Bytes
unfolding set_pixel pixel_below
shift_row fb n y zero x b = b
shift_row fb n y (suc k) x b =
    shift_row fb n y k (x + 1) (set_pixel fb x y (pixel_below fb n x y b) b)

unfoldable pub shift_rows : FrameBuffer → ℕ → ℕ → ℕ → Bytes → Bytes
unfolding shift_row
shift_rows fb n zero y b = b
shift_rows fb n (suc k) y b = shift_rows fb n k (y + 1) (shift_row fb n y fb.width 0 b)

unfoldable pub shift_screen_up : FrameBuffer → ℕ → Bytes → Bytes
unfolding shift_rows
shift_screen_up fb n b = if ltb fb.height n then b else shift_rows fb n fb.height 0 b

-- `x + n >= fb -> Width ? 0 : GetPixel(fb, x + n, y)`
unfoldable pub pixel_right : FrameBuffer → ℕ → ℕ → ℕ → Bytes → ℕ
unfolding get_pixel
pixel_right fb n x y b =
    if leb fb.width ((x + n) % 4294967296) then 0 else get_pixel fb ((x + n) % 4294967296) y b

unfoldable pub shift_left_row : FrameBuffer → ℕ → ℕ → ℕ → ℕ → Bytes → Bytes
unfolding set_pixel pixel_right
shift_left_row fb n y zero x b = b
shift_left_row fb n y (suc k) x b =
    shift_left_row fb n y k (x + 1) (set_pixel fb x y (pixel_right fb n x y b) b)

unfoldable pub shift_left_rows : FrameBuffer → ℕ → ℕ → ℕ → Bytes → Bytes
unfolding shift_left_row
shift_left_rows fb n zero y b = b
shift_left_rows fb n (suc k) y b =
    shift_left_rows fb n k (y + 1) (shift_left_row fb n y fb.width 0 b)

unfoldable pub shift_screen_left : FrameBuffer → ℕ → Bytes → Bytes
unfolding shift_left_rows
shift_screen_left fb n b = if ltb fb.width n then b else shift_left_rows fb n fb.height 0 b

-- `a - b` of two `u32`
abbrev pub sub32 : ℕ → ℕ → ℕ
sub32 a b = (a + (4294967296 - b % 4294967296)) % 4294967296

-- The row that ShiftScreenDown copies: `y - n < 0` never holds of a `u32`.
unfoldable pub shift_down_row : FrameBuffer → ℕ → ℕ → ℕ → ℕ → Bytes → Bytes
unfolding set_pixel get_pixel
shift_down_row fb n y zero x b = b
shift_down_row fb n y (suc k) x b =
    shift_down_row fb n y k (x + 1) (set_pixel fb x y (get_pixel fb x (sub32 y n) b) b)

-- `for(u32 y = …; y >= 0; y--)`, whose condition holds of every `u32`.
unfoldable pub shift_down_from : ℕ → FrameBuffer → ℕ → ℕ → Bytes → Option Bytes
unfolding shift_down_row
shift_down_from zero fb n y b = none
shift_down_from (suc f) fb n y b =
    let rest = shift_down_from f fb n (sub32 y 1) (shift_down_row fb n y fb.width 0 b) in
    if leb 0 y then rest else some b

unfoldable pub shift_screen_down : ℕ → FrameBuffer → ℕ → Bytes → Option Bytes
unfolding shift_down_from
shift_screen_down f fb n b =
    if ltb fb.height n then some b else shift_down_from f fb n (sub32 fb.height 1) b

-- The loop of ShiftScreenRight over x, of the same kind.
unfoldable pub shift_right_row : ℕ → FrameBuffer → ℕ → ℕ → ℕ → Bytes → Option Bytes
unfolding set_pixel get_pixel
shift_right_row zero fb n y x b = none
shift_right_row (suc f) fb n y x b =
    let rest =
      shift_right_row f fb n y (sub32 x 1) (set_pixel fb x y (get_pixel fb (sub32 x n) y b) b) in
    if leb 0 x then rest else some b

unfoldable pub shift_right_rows : ℕ → FrameBuffer → ℕ → ℕ → ℕ → Bytes → Option Bytes
unfolding shift_right_row
shift_right_rows f fb n zero y b = some b
shift_right_rows f fb n (suc k) y b = elim (shift_right_row f fb n y (sub32 fb.width 1) b) [
  | none ↦ none
  | some b1 ↦ shift_right_rows f fb n k (y + 1) b1
]

unfoldable pub shift_screen_right : ℕ → FrameBuffer → ℕ → Bytes → Option Bytes
unfolding shift_right_rows
shift_screen_right f fb n b =
    if ltb fb.width n then some b else shift_right_rows f fb n fb.height 0 b

-- `a <= b` of two `int`, given by their 32 bits.
abbrev pub sle : ℕ → ℕ → Bool
sle a b = leb ((a + 2147483648) % 4294967296) ((b + 2147483648) % 4294967296)

abbrev pub add32 : ℕ → ℕ → ℕ
add32 a b = (a + b) % 4294967296

-- The loop of DrawLine. The steps `sx` and `sy`, and `dx`, `dy` and `err`, are `int`s, given by their
-- bits. Both tests look at the same `e2`.
unfoldable pub line_from :
    ℕ → FrameBuffer → ℕ → ℕ → ℕ → ℕ → ℕ → ℕ → ℕ → ℕ → ℕ → ℕ → Bytes → Option Bytes
unfolding set_pixel
line_from zero fb x1 y1 color dx dy sx sy err x0 y0 b = none
line_from (suc f) fb x1 y1 color dx dy sx sy err x0 y0 b =
    let b1 = set_pixel fb x0 y0 color b in
    let e2 = (2 * err) % 4294967296 in
    let across = sle dy e2 in
    let down = sle e2 dx in
    let err1 = if across then add32 err dy else err in
    let err2 = if down then add32 err1 dx else err1 in
    let rest =
      line_from f fb x1 y1 color dx dy sx sy err2 (if across then add32 x0 sx else x0)
        (if down then add32 y0 sy else y0) b1 in
    if x0 == x1 && y0 == y1 then some b1 else rest

-- `dx` is `x1 - x0` and `dy` is its opposite for y, modulo 2 ^ 32: as `u32`s the differences are not
-- below 0.
unfoldable pub draw_line : ℕ → FrameBuffer → ℕ → ℕ → ℕ → ℕ → ℕ → Bytes → Option Bytes
unfolding line_from
draw_line f fb x0 y0 x1 y1 color b =
    let dx = sub32 x1 x0 in
    let dy = sub32 0 (sub32 y1 y0) in
    line_from f fb x1 y1 color dx dy (if ltb x0 x1 then 1 else 4294967295)
      (if ltb y0 y1 then 1 else 4294967295) (add32 dx dy) x0 y0 b

-- `PSFFont`, with `header -> charSize` in place of the header.
pub record Font : Type 0 where
  pub char_size : ℕ
  pub glyph_buffer : ℕ
  pub unicode_table : ℕ

-- The eight pixels of a row of a glyph, `k` of them left from `j` on.
unfoldable pub draw_row : FrameBuffer → ℕ → ℕ → ℕ → ℕ → ℕ → ℕ → Bytes → Bytes
unfolding set_pixel
draw_row fb row x y color zero j b = b
draw_row fb row x y color (suc k) j b =
    draw_row fb row x y color k (j + 1)
      (if load8 b row / 2 ^ (7 - j) % 2 == 0 then b else set_pixel fb (add32 x j) y color b)

unfoldable pub draw_rows : FrameBuffer → ℕ → ℕ → ℕ → ℕ → ℕ → ℕ → Bytes → Bytes
unfolding draw_row
draw_rows fb glyph x y color zero i b = b
draw_rows fb glyph x y color (suc k) i b =
    draw_rows fb glyph x y color k (i + 1) (draw_row fb (glyph + i) x (add32 y i) color 8 0 b)

unfoldable pub draw_char : FrameBuffer → Font → ℕ → ℕ → ℕ → ℕ → Bytes → Bytes
unfolding draw_rows
draw_char fb font chr x y color b =
    let glyph = font.glyph_buffer + load16 b (font.unicode_table + 2 * chr) * font.char_size in
    draw_rows fb glyph x y color font.char_size 0 b

unfoldable pub draw_string : ℕ → FrameBuffer → Font → ℕ → ℕ → ℕ → ℕ → Bytes → Option Bytes
unfolding draw_char
draw_string zero fb font str x y color b = none
draw_string (suc f) fb font str x y color b =
    let c = load16 b str in
    let rest =
      draw_string f fb font (str + 2) (add32 x 8) y color (draw_char fb font c x y color b) in
    if c == 0 then some b else rest
