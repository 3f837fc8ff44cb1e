-- ===== src/Video/Print/Plain.antt =====
-- vslprintf on a format without conversions.
use staxus.Base.{
  ℕ, zero, suc, ◌+◌, ◌*◌, ◌<◌, ◌≤◌, ◌≡◌, refl, ◌≢◌, ◌⊎◌, inl, sym, ap, ◌∙◌, some, List, [], ◌∷◌,
  ◌==◌, false, length, ◌>>=◌, arith,
}
use staxus.Memory.Bytes.{Bytes, load8, load16, load16_frame, load8-store16, load16-lt}
use staxus.Strings.Units.{wchar_self, wchar, Holds}
use staxus.Strings.Format.{put}
use staxus.Video.Print.{Printing, unit, skip, emit_unit, print_from, vslprintf}

-- At `fmt` stand the units `xs`, none of them a terminator or a '%', and then a terminator.
abbrev pub Plain : Bytes → ℕ → List ℕ → Type 0
Plain b fmt [] = load16 b fmt ≡ 0
Plain b fmt (x ∷ xs) = (load16 b fmt ≡ x) × (0 < x) × (x ≢ b'%') × Plain b (fmt + 2) xs

Plain-frame :
    (b b' : Bytes) (fmt : ℕ) (xs : List ℕ)
    → ((a : ℕ) → fmt ≤ a → a < fmt + 2 * length xs + 2 → load8 b' a ≡ load8 b a)
    → Plain b fmt xs
    → Plain b' fmt xs
Plain-frame b b' fmt [] same h =
    load16_frame b' b fmt (same fmt (omega arith) (omega arith))
      (same (fmt + 1) (omega arith) (omega arith))
    ∙ h
Plain-frame b b' fmt (x ∷ xs) same (here, positive, other, rest) = (
  load16_frame b' b fmt (same fmt (omega arith) (omega arith))
        (same (fmt + 1) (omega arith) (omega arith))
      ∙ here,
  positive,
  other,
  Plain-frame b b' (fmt + 2) xs (λ a lo hi. same a (omega arith) (omega arith)) rest,
)

module _ (buf : ℕ) (float_to_string : ℕ → ℕ → ℕ → ℕ → Bytes → ℕ × Bytes) where
  -- The units `xs` have been printed behind `before` others.
  record Printed (xs : List ℕ) (p q : Printing) : Type 0 where
    count : q.idx ≡ p.idx + length xs
    units :
        (b : Bytes)
        → ((a : ℕ) → a < buf + 2 * (p.idx + length xs) → load8 b a ≡ load8 q.bytes a)
        → load16 b (buf + 2 * (p.idx + length xs)) ≡ 0
        → Holds wchar b buf p.idx xs
    keeps : (a : ℕ) → a < buf + 2 * p.idx → load8 q.bytes a ≡ load8 p.bytes a

  print_from-Plain :
      (xs : List ℕ) (f : ℕ) (p : Printing)
      → Plain p.bytes p.fmt xs
      → (p.fmt + 2 * length xs + 2 ≤ buf + 2 * p.idx) ⊎ (buf + 2 * (p.idx + length xs) + 2 ≤ p.fmt)
      → length xs < f
      → (q : Printing) × (print_from buf float_to_string f p ≡ some q) × Printed xs p q
  unfolding print_from emit_unit
  print_from-Plain [] zero p plain apart fuel = absurd (omega arith)
  print_from-Plain [] (suc f) p plain apart fuel = (
    p,
    rw plain refl,
    record {
      count = omega arith;
      units = λ b same stop.
          let here : buf + 2 * (p.idx + 0) ≡ buf + 2 * p.idx = omega arith in
          ap (λ a. load16 b a) (sym here) ∙ stop;
      keeps = λ a before. refl;
    },
  )
  print_from-Plain (x ∷ xs) zero p plain apart fuel = absurd (omega arith)
  print_from-Plain (x ∷ xs) (suc f) p (here, positive, other, rest) apart fuel =
      let p1 = skip 1 (emit_unit buf (unit p) p) in
      let some_unit : (unit p == 0) ≡ false = ground (arith, here, positive) in
      let no_percent : (unit p == b'%') ≡ false = ground (arith, here, other) in
      let (q, ends, printed) =
        print_from-Plain xs f p1
          (Plain-frame p.bytes p1.bytes (p.fmt + 2) xs
            (λ a lo hi. load8-store16 p.bytes (buf + 2 * p.idx) (unit p) a (omega arith)) rest)
          (omega arith) (omega arith) in
      (
        q,
        rw (some_unit, no_percent) ends,
        record {
          count = omega (arith, printed.count);
          units = λ b same stop.
              let whole : p.idx + suc (length xs) ≡ p.idx + 1 + length xs = omega arith in
              (
                load16_frame b q.bytes (buf + 2 * p.idx) (same (buf + 2 * p.idx) (omega arith))
                      (same (buf + 2 * p.idx + 1) (omega arith))
                    ∙ load16_frame q.bytes p1.bytes (buf + 2 * p.idx)
                        (printed.keeps (buf + 2 * p.idx) (omega arith))
                        (printed.keeps (buf + 2 * p.idx + 1) (omega arith))
                    ∙ wchar_self p.bytes buf p.idx (unit p) (load16-lt p.bytes p.fmt)
                    ∙ here,
                positive,
                printed.units b (λ a before. same a (omega (arith, whole)))
                    (ap (λ k. load16 b (buf + 2 * k)) (sym whole) ∙ stop),
              );
          keeps = λ a before.
              printed.keeps a (omega arith)
              ∙ load8-store16 p.bytes (buf + 2 * p.idx) (unit p) a (inl (omega arith));
        },
      )

  -- vslprintf on a format without '%' copies it: it returns its length, and leaves the same string in a
  -- buffer that does not overlap the format.
  pub vslprintf-Plain :
      (xs : List ℕ) (f fmt : ℕ) (args : List ℕ) (b : Bytes)
      → Plain b fmt xs
      → (fmt + 2 * length xs + 2 ≤ buf) ⊎ (buf + 2 * length xs + 2 ≤ fmt)
      → length xs < f
      → (after : Bytes) × (vslprintf buf float_to_string f fmt args b ≡ some (length xs, after))
        × Holds wchar after buf 0 xs
  unfolding vslprintf
  vslprintf-Plain xs f fmt args b plain apart fuel =
      let start : Printing = record { fmt = fmt; idx = 0; args = args; bytes = b } in
      let (q, ends, printed) = print_from-Plain xs f start plain (omega arith) fuel in
      let count : q.idx ≡ length xs = omega (arith, printed.count) in
      let from_zero : 0 + length xs ≡ length xs = omega arith in
      let after = put q.bytes buf (length xs) 0 in
      (
        after,
        ap (λ r. r >>= λ p. some (p.idx, put p.bytes buf p.idx 0)) ends
            ∙ ap (λ k. some (k, put q.bytes buf k 0)) count,
        printed.units after
            (λ a before. load8-store16 q.bytes (buf + 2 * length xs) 0 a (inl (omega arith)))
            (ap (λ k. load16 after (buf + 2 * k)) from_zero
              ∙ wchar_self q.bytes buf (length xs) 0 (omega arith)),
      )
