-- ===== src/Video/Screen/Shift.antt =====
-- ShiftScreenUp moves each pixel up, also though it works in place.
use staxus.Base.{
  ℕ, zero, suc, ◌+◌, ◌%◌, ◌<◌, ◌≤◌, ◌≡◌, refl, inl, inr, sym, ap, ◌∙◌, true, false, ◌&&◌, ◌||◌,
  ◌==◌, leb, ltb, if◌then◌else◌, arith, Bool-cases,
}
use staxus.Memory.Bytes.{Bytes, load32-lt}
use staxus.Video.Screen.{
  FrameBuffer, pixel_at, set_pixel, get_pixel, pixel_below, shift_row, shift_rows, shift_screen_up,
}
use staxus.Video.Screen.Pixels.{Fits, get_pixel-set_pixel}

get_pixel-lt : (fb : FrameBuffer) (x y : ℕ) (b : Bytes) → get_pixel fb x y b < 4294967296
unfolding get_pixel
get_pixel-lt fb x y b = elim (Bool-cases (leb fb.width x || leb fb.height y)) [
  | inl outside ↦ rw outside (omega arith)
  | inr inside ↦ rw inside (load32-lt b (pixel_at fb x y))
]

pixel_below-lt : (fb : FrameBuffer) (n x y : ℕ) (b : Bytes) → pixel_below fb n x y b < 4294967296
unfolding pixel_below
pixel_below-lt fb n x y b = elim (Bool-cases (leb fb.height ((y + n) % 4294967296))) [
  | inl gone ↦ rw gone (omega arith)
  | inr there ↦ rw there (get_pixel-lt fb x ((y + n) % 4294967296) b)
]

-- What comes up to a place depends on the pixel `n` rows below it only.
pixel_below_ext :
    (fb : FrameBuffer) (n x y : ℕ) (b b' : Bytes)
    → y + n < 4294967296
    → (y + n < fb.height → get_pixel fb x (y + n) b' ≡ get_pixel fb x (y + n) b)
    → pixel_below fb n x y b' ≡ pixel_below fb n x y b
unfolding pixel_below
pixel_below_ext fb n x y b b' small same =
    let whole : (y + n) % 4294967296 ≡ y + n = omega (arith, small) in
    elim (Bool-cases (leb fb.height (y + n))) [
      | inl gone ↦ rw (whole, gone) refl
      | inr there ↦ rw (whole, there) (same (ground (arith, there)))
    ]

pixel_below_lem :
    (fb : FrameBuffer) (n x y : ℕ) (b : Bytes)
    → y + n < 4294967296
    → pixel_below fb n x y b ≡ (if ltb (y + n) fb.height then get_pixel fb x (y + n) b else 0)
unfolding pixel_below
pixel_below_lem fb n x y b small =
    let whole : (y + n) % 4294967296 ≡ y + n = omega (arith, small) in
    elim (Bool-cases (leb fb.height (y + n))) [
      | inl gone ↦
          let off : ltb (y + n) fb.height ≡ false = ground (arith, gone) in
          rw (whole, gone, off) refl
      | inr there ↦
          let on : ltb (y + n) fb.height ≡ true = ground (arith, there) in
          rw (whole, there, on) refl
    ]

module _ (fb : FrameBuffer) (fits : Fits fb) (n : ℕ) (small : fb.height + n < 4294967296) where
  shift_row-pixel :
      (k x y u v : ℕ) (b : Bytes)
      → x + k ≡ fb.width
      → y < fb.height
      → u < fb.width
      → v < fb.height
      → get_pixel fb u v (shift_row fb n y k x b)
        ≡ (if v == y && leb x u then pixel_below fb n u y b else get_pixel fb u v b)
  unfolding shift_row
  shift_row-pixel zero x y u v b all row ucol vrow =
      let none_left : (v == y && leb x u) ≡ false = ground arith in rw none_left refl
  shift_row-pixel (suc k) x y u v b all row ucol vrow =
      let c = pixel_below fb n x y b in
      let b1 = set_pixel fb x y c b in
      let law = λ (u' v' : ℕ) (uc : u' < fb.width) (vr : v' < fb.height).
        get_pixel-set_pixel fb x y u' v' c b fits uc vr (pixel_below-lt fb n x y b) in
      let later = shift_row-pixel k (x + 1) y u v b1 (omega arith) row ucol vrow in
      later ∙ elim (Bool-cases (v == y && leb (x + 1) u)) [
        | inl right ↦
            let here : (v == y && leb x u) ≡ true = ground (arith, right) in
            rw (right, here)
              (pixel_below_ext fb n u y b b1 (omega (arith, small, row)) (λ inside.
                let apart : (x == u && y == y + n) ≡ false = ground (arith, right) in
                law u (y + n) ucol inside ∙ rw apart refl))
        | inr other ↦ elim (Bool-cases (x == u && y == v)) [
          | inl this ↦
              let here : (v == y && leb x u) ≡ true = ground (arith, this) in
              let col : x ≡ u = ground (arith, this) in
              rw (other, here)
                (law u v ucol vrow ∙ rw (this) (ap (λ i. pixel_below fb n i y b) col))
          | inr apart ↦
              let left : (v == y && leb x u) ≡ false = ground (arith, other, apart) in
              rw (other, left) (law u v ucol vrow ∙ rw apart refl)
        ]
      ]

  shift_rows-pixel :
      (k y u v : ℕ) (b : Bytes)
      → y + k ≡ fb.height
      → u < fb.width
      → v < fb.height
      → get_pixel fb u v (shift_rows fb n k y b)
        ≡ (if leb y v then pixel_below fb n u v b else get_pixel fb u v b)
  unfolding shift_rows
  shift_rows-pixel zero y u v b all ucol vrow =
      let none_left : leb y v ≡ false = ground arith in rw none_left refl
  shift_rows-pixel (suc k) y u v b all ucol vrow =
      let b1 = shift_row fb n y fb.width 0 b in
      let law = λ (v' : ℕ) (vr : v' < fb.height).
        shift_row-pixel fb.width 0 y u v' b (omega arith) (omega arith) ucol vr in
      let later = shift_rows-pixel k (y + 1) u v b1 (omega arith) ucol vrow in
      later ∙ elim (Bool-cases (leb (y + 1) v)) [
        | inl below ↦
            let here : leb y v ≡ true = ground (arith, below) in
            rw (below, here)
              (pixel_below_ext fb n u v b b1 (omega (arith, small, vrow)) (λ inside.
                let apart : (v + n == y && leb 0 u) ≡ false = ground (arith, below) in
                law (v + n) inside ∙ rw apart refl))
        | inr done ↦ elim (Bool-cases (v == y)) [
          | inl this ↦
              let here : leb y v ≡ true = ground (arith, this) in
              let first : (v == y && leb 0 u) ≡ true = ground (arith, this) in
              let row : v ≡ y = ground (arith, this) in
              rw (done, here) (law v vrow ∙ rw first (ap (λ i. pixel_below fb n u i b) (sym row)))
          | inr apart ↦
              let above : leb y v ≡ false = ground (arith, done, apart) in
              let other : (v == y && leb 0 u) ≡ false = ground (arith, apart) in
              rw (done, above) (law v vrow ∙ rw other refl)
        ]
      ]

-- ShiftScreenUp by at most the height: each pixel of the screen is what stood `n` rows below it, and 0
-- where that is below the screen.
pub shift_screen_up-pixel :
    (fb : FrameBuffer) (n u v : ℕ) (b : Bytes)
    → Fits fb
    → fb.height + n < 4294967296
    → n ≤ fb.height
    → u < fb.width
    → v < fb.height
    → get_pixel fb u v (shift_screen_up fb n b)
      ≡ (if ltb (v + n) fb.height then get_pixel fb u (v + n) b else 0)
unfolding shift_screen_up
shift_screen_up-pixel fb n u v b fits small most ucol vrow =
    let runs : ltb fb.height n ≡ false = ground (arith, most) in
    let here : leb 0 v ≡ true = ground arith in
    rw runs (
      shift_rows-pixel fb fits n small fb.height 0 u v b (omega arith) ucol vrow
      ∙ rw here (pixel_below_lem fb n u v b (omega (arith, small, vrow))))
