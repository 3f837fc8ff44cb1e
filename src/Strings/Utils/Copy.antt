-- ===== src/Strings/Utils/Copy.antt =====
-- strlen, strcpy and strcat, and their wide versions, on strings that are there.
use staxus.Base.{
  ℕ, zero, suc, ◌+◌, ◌*◌, ◌≤◌, ◌<◌, ◌≡◌, ap, ◌∙◌, ◌⊎◌, inl, some, List, [], ◌∷◌, ◌++◌, arith,
  ==_of_ne, length,
}
use staxus.Memory.Bytes.{Bytes, load8}
use staxus.Strings.Units.{Units, Holds}
use staxus.Strings.Utils.{end_from, copy_from, copy, concat}

scale : (w a b : ℕ) → a ≤ b → w * a ≤ w * b
scale w a b h = grind arith

module _ (u : Units) where
  pub end_from-Holds :
      (f i p : ℕ) (m : Bytes) (xs : List ℕ)
      → Holds u m p i xs
      → length xs < f
      → end_from u f i p m ≡ some (i + length xs)
  unfolding end_from
  end_from-Holds zero i p m xs h fuel = absurd (omega arith)
  end_from-Holds (suc f) i p m [] h fuel = rw h (ap some (omega arith))
  end_from-Holds (suc f) i p m (x ∷ xs) (e, pos, h) fuel =
      rw (e, ==_of_ne x 0 (omega arith))
        (end_from-Holds f (i + 1) p m xs h (omega arith) ∙ ap some (omega arith))

  -- A string survives changes that spare its units.
  Holds-frame :
      (n m : Bytes) (p i : ℕ) (xs : List ℕ)
      → Holds u m p i xs
      → ((j : ℕ) → i ≤ j → j < i + length xs + 1 → u.load n p j ≡ u.load m p j)
      → Holds u n p i xs
  Holds-frame n m p i [] h same = same i (omega arith) (omega arith) ∙ h
  Holds-frame n m p i (x ∷ xs) (e, pos, h) same = (
    same i (omega arith) (omega arith) ∙ e,
    pos,
    Holds-frame n m p (i + 1) xs h (λ j q r. same j (omega arith) (omega arith)),
  )

  -- A copy of `xs` to the units of `dst` from `i` on, and what it spares.
  pub record Copied (m after : Bytes) (dst i : ℕ) (xs : List ℕ) : Type 0 where
    pub holds : Holds u after dst i xs
    pub units :
        (q k : ℕ)
        → (q + u.width * k + u.width ≤ dst + u.width * i)
          ⊎ (dst + u.width * i + u.width * (length xs + 1) ≤ q + u.width * k)
        → u.load after q k ≡ u.load m q k
    pub bytes :
        (a : ℕ)
        → (a < dst + u.width * i) ⊎ (dst + u.width * i + u.width * (length xs + 1) ≤ a)
        → load8 after a ≡ load8 m a

  copy_step :
      (m after : Bytes) (dst i x : ℕ) (xs : List ℕ)
      → x < u.limit
      → 0 < x
      → Copied (u.store m dst i x) after dst (i + 1) xs
      → Copied m after dst i (x ∷ xs)
  copy_step m after dst i x xs small pos c = record {
    holds = (c.units dst i (omega arith) ∙ u.load-store_self m dst i x small, pos, c.holds);
    units = λ q k out.
        c.units q k (omega (arith, u.width_pos))
        ∙ u.load-store_apart m dst i x q k (omega (arith, u.width_pos));
    bytes = λ a out.
        c.bytes a (omega (arith, u.width_pos))
        ∙ u.load8-store m dst i x a (omega (arith, u.width_pos));
  }

  pub copy_from-Copied :
      (f i j dst src : ℕ) (m : Bytes) (xs : List ℕ)
      → Holds u m src j xs
      → length xs < f
      → (dst + u.width * i + u.width * (length xs + 1) ≤ src + u.width * j)
        ⊎ (src + u.width * j + u.width * (length xs + 1) ≤ dst + u.width * i)
      → (after : Bytes) × (copy_from u f i j dst src m ≡ some after) × Copied m after dst i xs
  unfolding copy_from
  copy_from-Copied zero i j dst src m xs h fuel apart = absurd (omega arith)
  copy_from-Copied (suc f) i j dst src m [] h fuel apart = (
    u.store m dst i 0,
    rw h,
    record {
      holds = u.load-store_self m dst i 0 u.limit_pos;
      units = λ q k out. u.load-store_apart m dst i 0 q k (omega arith);
      bytes = λ a out. u.load8-store m dst i 0 a (omega arith);
    },
  )
  copy_from-Copied (suc f) i j dst src m (x ∷ xs) (e, pos, h) fuel apart =
      let m1 = u.store m dst i x in
      let small : x < u.limit = omega (arith, e, u.load-lt m src j) in
      let kept : Holds u m1 src (j + 1) xs = Holds-frame m1 m src (j + 1) xs h (λ k q r.
        u.load-store_apart m dst i x src k (
          omega (
            arith,
            scale u.width (j + 1) k q,
            scale u.width (k + 1) (j + 1 + length xs + 1) (omega arith),
          ))) in
      let (after, done, c) =
        copy_from-Copied f (i + 1) (j + 1) dst src m1 xs kept (omega arith) (omega arith) in
      (after, rw (e, ==_of_ne x 0 (omega arith)) done, copy_step m after dst i x xs small pos c)

-- strlen and wcslen: given a string of units `xs`, and enough fuel, the length of `xs`.
end_from-length :
    (u : Units) (fuel p : ℕ) (m : Bytes) (xs : List ℕ)
    → Holds u m p 0 xs
    → length xs < fuel
    → end_from u fuel 0 p m ≡ some (length xs)
end_from-length u fuel p m xs h enough =
    end_from-Holds u fuel 0 p m xs h enough ∙ ap some (omega arith)

-- strcpy and wcscpy: where the units of `dst` for the string and its terminator do not overlap those
-- of `src`, the call ends, `dst` holds the string, and no other byte has changed.
pub copy-Copied :
    (u : Units) (fuel dst src : ℕ) (m : Bytes) (xs : List ℕ)
    → Holds u m src 0 xs
    → length xs < fuel
    → (dst + u.width * (length xs + 1) ≤ src) ⊎ (src + u.width * (length xs + 1) ≤ dst)
    → (after : Bytes) × (copy u fuel dst src m ≡ some after) × Copied u m after dst 0 xs
unfolding copy
copy-Copied u fuel dst src m xs h enough apart =
    copy_from-Copied u fuel 0 0 dst src m xs h enough (omega arith)

-- The units of `p` from `i` on begin with the nonzero units `xs`.
abbrev Prefix : Units → Bytes → ℕ → ℕ → List ℕ → Type 0
Prefix u m p i [] = Unit
Prefix u m p i (x ∷ xs) = (u.load m p i ≡ x) × (0 < x) × Prefix u m p (i + 1) xs

Prefix-Holds :
    (u : Units) (m : Bytes) (p i j : ℕ) (xs ys : List ℕ)
    → Prefix u m p i xs
    → j ≡ i + length xs
    → Holds u m p j ys
    → Holds u m p i (xs ++ ys)
Prefix-Holds u m p i j [] ys pre e h = let same : i ≡ j = omega arith in rw same h
Prefix-Holds u m p i j (x ∷ xs) ys (e, pos, pre) eq h =
    (e, pos, Prefix-Holds u m p (i + 1) j xs ys pre (omega arith) h)

Holds-Prefix :
    (u : Units) (n m : Bytes) (p i : ℕ) (xs : List ℕ)
    → Holds u m p i xs
    → ((k : ℕ) → k < i + length xs → u.load n p k ≡ u.load m p k)
    → Prefix u n p i xs
Holds-Prefix u n m p i [] h same = tt
Holds-Prefix u n m p i (x ∷ xs) (e, pos, h) same =
    (same i (omega arith) ∙ e, pos, Holds-Prefix u n m p (i + 1) xs h (λ k q. same k (omega arith)))

-- strcat and wcscat: where `dst` holds `xs` and `src` holds `ys`, and the units that are written do
-- not overlap those of `src`, the call ends and `dst` holds `xs` followed by `ys`.
pub concat-append :
    (u : Units) (fuel dst src : ℕ) (m : Bytes) (xs ys : List ℕ)
    → Holds u m dst 0 xs
    → Holds u m src 0 ys
    → length xs < fuel
    → length ys < fuel
    → (dst + u.width * length xs + u.width * (length ys + 1) ≤ src)
      ⊎ (src + u.width * (length ys + 1) ≤ dst + u.width * length xs)
    → (after : Bytes) × (concat u fuel dst src m ≡ some after) × Holds u after dst 0 (xs ++ ys)
unfolding concat
concat-append u fuel dst src m xs ys hx hy fx fy apart =
    let (after, done, c) = copy_from-Copied u fuel (length xs) 0 dst src m ys hy fy (omega arith) in
    (
      after,
      rw (end_from-length u fuel dst m xs hx fx, concat) done,
      Prefix-Holds u after dst 0 (length xs) xs ys
          (Holds-Prefix u after m dst 0 xs hx (λ k q.
            c.units dst k (inl (omega (arith, scale u.width (k + 1) (length xs) (omega arith))))))
          (omega arith) c.holds,
    )
