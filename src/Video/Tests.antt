-- ===== src/Video/Tests.antt =====
-- The theorems on the screen and on printing at small inputs.
use staxus.Base.{
  ℕ, ◌+◌, ltb, none, ◌≡◌, refl, inl, some, List, [], ◌∷◌, length, ◌==◌, if◌then◌else◌, arith,
}
use staxus.Memory.Bytes.{Bytes, load16, load8}
use staxus.Strings.Units.{wchar, Holds}
use staxus.Video.Screen.{
  FrameBuffer, get_pixel, shift_screen_up, shift_screen_down, shift_screen_right,
}
use staxus.Video.Screen.Pixels.{Fits}
use staxus.Video.Screen.Shift.{shift_screen_up-pixel}
use staxus.Video.Screen.Endless.{shift_screen_down-endless, shift_screen_right-endless}
use staxus.Video.Print.{vslprintf}
use staxus.Video.Print.Plain.{Plain, vslprintf-Plain}

-- The format "Hi" at 8.
abbrev greeting : Bytes
greeting a = if a == 8 then b'H' else if a == 10 then b'i' else 0

abbrev hi : List ℕ
hi = b'H' ∷ b'i' ∷ []

greeting-Plain : Plain greeting 8 hi
unfolding load16 load8
greeting-Plain =
    (refl, omega arith, (λ e. ground arith), (refl, omega arith, (λ e. ground arith), refl))

-- There is no floating point number in the format.
abbrev no_float : ℕ → ℕ → ℕ → ℕ → Bytes → ℕ × Bytes
no_float num str radix precision b = (0, b)

vslprintf-Plain_example :
    (after : Bytes) × (vslprintf 64 no_float 3 8 [] greeting ≡ some (length hi, after))
    × Holds wchar after 64 0 hi
vslprintf-Plain_example =
    vslprintf-Plain 64 no_float hi 3 8 [] greeting greeting-Plain (inl (omega arith)) (omega arith)

-- A screen of four columns and three rows, whose lines have five pixels.
abbrev small_screen : FrameBuffer
small_screen = record { base_addr = 4096; width = 4; height = 3; pixels_per_scan = 5 }

small_screen-Fits : Fits small_screen
small_screen-Fits = record { rows = omega arith; numbered = omega arith }

shift_screen_up-pixel_example :
    get_pixel small_screen 2 1 (shift_screen_up small_screen 1 greeting)
    ≡ (if ltb (1 + 1) 3 then get_pixel small_screen 2 (1 + 1) greeting else 0)
shift_screen_up-pixel_example =
    shift_screen_up-pixel small_screen 1 2 1 greeting small_screen-Fits (omega arith) (omega arith)
      (omega arith) (omega arith)

shift_screen_down-endless_example : shift_screen_down 100 small_screen 1 greeting ≡ none
shift_screen_down-endless_example =
    shift_screen_down-endless 100 small_screen 1 greeting (omega arith)

shift_screen_right-endless_example : shift_screen_right 100 small_screen 4 greeting ≡ none
shift_screen_right-endless_example =
    shift_screen_right-endless 100 small_screen 4 greeting (omega arith) (omega arith)
