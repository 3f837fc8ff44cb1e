-- ===== src/Video/Screen/Pixels.antt =====
-- A pixel that is set is read back, and no other pixel changes.
use staxus.Base.{
  ℕ, ◌+◌, ◌*◌, ◌<◌, ◌≤◌, ◌≡◌, refl, ◌≢◌, ◌⊎◌, inl, inr, ap, ◌∙◌, false, ◌&&◌, ◌||◌, ◌==◌, leb,
  if◌then◌else◌, arith, Bool-cases,
}
use native.Mathlib.Nat.{mod-eq_of_lt, mul-le-mul_right, add-mul}
use native.Mathlib.Decide.{ℕ_discrete}
use staxus.Memory.Bytes.{Bytes, store32, load32-store32, load32_frame, load8-store32}
use staxus.Video.Screen.{FrameBuffer, pixel_at, set_pixel, get_pixel}

-- The rows lie behind each other, below pixel 2 ^ 32.
pub record Fits (fb : FrameBuffer) : Type 0 where
  pub rows : fb.width ≤ fb.pixels_per_scan
  pub numbered : fb.height * fb.pixels_per_scan ≤ 4294967296

abbrev index : FrameBuffer → ℕ → ℕ → ℕ
index fb x y = y * fb.pixels_per_scan + x

index-lt :
    (fb : FrameBuffer) (x y z : ℕ)
    → Fits fb
    → x < fb.width
    → y < z
    → index fb x y < z * fb.pixels_per_scan
index-lt fb x y z fits col row =
    let next : (y + 1) * fb.pixels_per_scan ≤ z * fb.pixels_per_scan =
      mul-le-mul_right fb.pixels_per_scan (omega arith) in
    omega (arith, next, fits.rows, add-mul y 1 fb.pixels_per_scan)

pixel_at-index :
    (fb : FrameBuffer) (x y : ℕ)
    → Fits fb
    → x < fb.width
    → y < fb.height
    → pixel_at fb x y ≡ fb.base_addr + 4 * index fb x y
pixel_at-index fb x y fits col row =
    let small : index fb x y < 4294967296 =
      omega (arith, index-lt fb x y fb.height fits col row, fits.numbered) in
    ap (λ i. fb.base_addr + 4 * i) (mod-eq_of_lt small)

-- Different pixels have no byte in common.
pixel_at-apart :
    (fb : FrameBuffer) (x y u v : ℕ)
    → Fits fb
    → x < fb.width
    → y < fb.height
    → u < fb.width
    → v < fb.height
    → (x ≢ u) ⊎ (y ≢ v)
    → (pixel_at fb u v + 4 ≤ pixel_at fb x y) ⊎ (pixel_at fb x y + 4 ≤ pixel_at fb u v)
pixel_at-apart fb x y u v fits col row ucol vrow other =
    let here = pixel_at-index fb x y fits col row in
    let there = pixel_at-index fb u v fits ucol vrow in
    elim (ℕ_discrete y v) [
      | yes same ↦
          let line : y * fb.pixels_per_scan ≡ v * fb.pixels_per_scan =
            ap (λ i. i * fb.pixels_per_scan) same in
          ground (arith, here, there, line, other, same)
      | no differs ↦ elim (Bool-cases (leb y v)) [
        | inl above ↦
            let less = index-lt fb x y v fits col (ground (arith, above, differs)) in
            inr (omega (arith, here, there, less))
        | inr below ↦
            let less = index-lt fb u v y fits ucol (ground (arith, below)) in
            inl (omega (arith, here, there, less))
      ]
    ]

-- A pixel on the screen that is set to a color is read back with that color, and every other pixel as
-- before. Behind the edges SetPixel changes nothing.
pub get_pixel-set_pixel :
    (fb : FrameBuffer) (x y u v color : ℕ) (b : Bytes)
    → Fits fb
    → u < fb.width
    → v < fb.height
    → color < 4294967296
    → get_pixel fb u v (set_pixel fb x y color b)
      ≡ (if x == u && y == v then color else get_pixel fb u v b)
unfolding get_pixel set_pixel
get_pixel-set_pixel fb x y u v color b fits ucol vrow small =
    let seen : (leb fb.width u || leb fb.height v) ≡ false = ground (arith, ucol, vrow) in
    elim (Bool-cases (leb fb.width x || leb fb.height y)) [
      | inl outside ↦
          let other : (x == u && y == v) ≡ false = ground (arith, outside, ucol, vrow) in
          rw (outside, other) refl
      | inr inside ↦ elim (Bool-cases (x == u && y == v)) [
        | inl same ↦
            let col : x ≡ u = ground (arith, same) in
            let row : y ≡ v = ground (arith, same) in
            rw (inside, seen, same, col, row)
              (load32-store32 b (pixel_at fb u v) color ∙ omega (arith, small))
        | inr other ↦
            rw (inside, seen, other)
              (load32_frame (store32 b (pixel_at fb x y) color) b (pixel_at fb u v) (λ a lo hi.
                load8-store32 b (pixel_at fb x y) color a (
                  omega (
                    arith,
                    pixel_at-apart fb x y u v fits (ground (arith, inside)) (ground (arith, inside))
                        ucol vrow (ground (arith, other)),
                  ))))
      ]
    ]
