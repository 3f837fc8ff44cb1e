-- ===== src/Video/Screen/Endless.antt =====
-- The loops of ShiftScreenDown and ShiftScreenRight, whose counters are unsigned.
use staxus.Base.{
  ℕ, zero, suc, ◌<◌, ◌≤◌, ◌≡◌, refl, ap, ◌+◌, true, false, none, some, ltb, leb, arith,
}
use staxus.Memory.Bytes.{Bytes}
use staxus.Video.Screen.{
  FrameBuffer, sub32, shift_down_row, shift_down_from, shift_screen_down, set_pixel, get_pixel,
  shift_right_row, shift_right_rows, shift_screen_right,
}

shift_down_from-none :
    (f : ℕ) (fb : FrameBuffer) (n y : ℕ) (b : Bytes) → shift_down_from f fb n y b ≡ none
unfolding shift_down_from
shift_down_from-none zero fb n y b = refl
shift_down_from-none (suc f) fb n y b =
    let always : leb 0 y ≡ true = ground arith in
    rw always (shift_down_from-none f fb n (sub32 y 1) (shift_down_row fb n y fb.width 0 b))

shift_right_row-none :
    (f : ℕ) (fb : FrameBuffer) (n y x : ℕ) (b : Bytes) → shift_right_row f fb n y x b ≡ none
unfolding shift_right_row
shift_right_row-none zero fb n y x b = refl
shift_right_row-none (suc f) fb n y x b =
    let always : leb 0 x ≡ true = ground arith in
    rw always (
      shift_right_row-none f fb n y (sub32 x 1) (set_pixel fb x y (get_pixel fb (sub32 x n) y b) b))

shift_right_rows-none :
    (f : ℕ) (fb : FrameBuffer) (n k y : ℕ) (b : Bytes) → shift_right_rows f fb n (suc k) y b ≡ none
unfolding shift_right_rows
shift_right_rows-none f fb n k y b =
    ap (λ r. elim r [ none ↦ none | some b1 ↦ shift_right_rows f fb n k (y + 1) b1 ])
      (shift_right_row-none f fb n y (sub32 fb.width 1) b)

rows-none :
    (f : ℕ) (fb : FrameBuffer) (n k : ℕ) (b : Bytes) → 0 < k → shift_right_rows f fb n k 0 b ≡ none
rows-none f fb n zero b positive = absurd (omega arith)
rows-none f fb n (suc k) b positive = shift_right_rows-none f fb n k 0 b

-- ShiftScreenDown by at most the height of the screen does not end, however many rounds it is given.
pub shift_screen_down-endless :
    (f : ℕ) (fb : FrameBuffer) (n : ℕ) (b : Bytes)
    → n ≤ fb.height
    → shift_screen_down f fb n b ≡ none
unfolding shift_screen_down
shift_screen_down-endless f fb n b high =
    let down : ltb fb.height n ≡ false = ground (arith, high) in
    rw down (shift_down_from-none f fb n (sub32 fb.height 1) b)

-- ShiftScreenRight by at most the width of a screen that has a row does not end, however many rounds it
-- is given.
pub shift_screen_right-endless :
    (f : ℕ) (fb : FrameBuffer) (n : ℕ) (b : Bytes)
    → n ≤ fb.width
    → 0 < fb.height
    → shift_screen_right f fb n b ≡ none
unfolding shift_screen_right
shift_screen_right-endless f fb n b wide some_rows =
    let right : ltb fb.width n ≡ false = ground (arith, wide) in
    rw right (rows-none f fb n fb.height b some_rows)
