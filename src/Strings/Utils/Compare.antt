-- ===== src/Strings/Utils/Compare.antt =====
-- strcmp, stricmp and their wide versions on strings that are there.
use staxus.Base.{
  ℕ, zero, suc, ◌+◌, ◌≤◌, ◌<◌, ◌≡◌, ◌↔◌, sym, refl, ap, ◌∙◌, ◌≢◌, ◌⊎◌, inl, inr, Option, some, List,
  [], ◌∷◌, map, arith, ==_refl, ==_of_ne, length,
}
use native.Mathlib.Decide.{ℕ_discrete}
use mathlib.Core.Path.{ap₂}
use staxus.Base.Int.{ℤ, pos, ◌-ℤ◌, -ℤ_zero, -ℤ_self, to_u64}
use staxus.Memory.Bytes.{Bytes}
use staxus.Memory.Utils.{fnv_basis, fnv_step}
use staxus.Strings.Units.{Units, Holds, char}
use staxus.Strings.Utils.{compare_from, strcmp, stricmp, hash_from, strihsh, tolower}

-- A unit is folded to a unit, and only the terminator to 0.
pub record IsFold (u : Units) (fold : ℕ → ℕ) : Type 0 where
  pub within : (c : ℕ) → c < u.limit → fold c < u.limit
  pub null : fold 0 ≡ 0
  pub nonnull : (c : ℕ) → 0 < c → 0 < fold c

pub id-IsFold : (u : Units) → IsFold u (λ c. c)
id-IsFold u = record { within = λ c h. h; null = refl; nonnull = λ c h. h }

module _ (u : Units) (fold : ℕ → ℕ) (f : IsFold u fold) where
  -- What the comparison of two strings gives: 0 exactly if they are equal up to `fold`.
  abbrev pub Compared : List ℕ → List ℕ → Option ℤ → Type 0
  Compared xs ys r =
      (d : ℤ) × (r ≡ some d)
      × ((d ≡ pos 0) → map fold xs ≡ map fold ys)
      × (map fold xs ≡ map fold ys → d ≡ pos 0)

  diff-zero :
      (a b : ℕ)
      → a < u.limit
      → b < u.limit
      → u.int_of (fold a) -ℤ u.int_of (fold b) ≡ pos 0
      → fold a ≡ fold b
  diff-zero a b ha hb h =
      u.int_injective (fold a) (fold b) (f.within a ha) (f.within b hb)
        (-ℤ_zero (u.int_of (fold a)) (u.int_of (fold b)) h)

  -- One round on units `x` and `y`: where it stops, and where it goes on.
  module _ (n i a b x y : ℕ) (m : Bytes) (ex : u.load m a i ≡ x) (ey : u.load m b i ≡ y) where
    compare_stop :
        (x ≡ 0) ⊎ (y ≡ 0) ⊎ (fold x ≢ fold y)
        → compare_from u fold (suc n) i a b m ≡ some (u.int_of (fold x) -ℤ u.int_of (fold y))
    unfolding compare_from
    compare_stop (inl zero_x) = rw (ex, ey, zero_x)
    compare_stop (inr (inl zero_y)) = rw (ex, ey, zero_y) (ground arith)
    compare_stop (inr (inr ne)) = rw (ex, ey, ==_of_ne (fold x) (fold y) ne) (ground arith)

    compare_more :
        0 < x
        → 0 < y
        → fold x ≡ fold y
        → compare_from u fold (suc n) i a b m ≡ compare_from u fold n (i + 1) a b m
    unfolding compare_from
    compare_more px py e =
        rw (ex, ey, ==_of_ne x 0 (omega arith), ==_of_ne y 0 (omega arith), e, ==_refl (fold y))

    small : (x < u.limit) × (y < u.limit)
    small = (omega (arith, ex, u.load-lt m a i), omega (arith, ey, u.load-lt m b i))

  compare_from-Compared :
      (n i a b : ℕ) (m : Bytes) (xs ys : List ℕ)
      → Holds u m a i xs
      → Holds u m b i ys
      → length xs < n
      → Compared xs ys (compare_from u fold n i a b m)
  compare_from-Compared zero i a b m xs ys hx hy fuel = absurd (omega arith)
  compare_from-Compared (suc n) i a b m [] [] hx hy fuel = (
    u.int_of (fold 0) -ℤ u.int_of (fold 0),
    compare_stop n i a b 0 0 m hx hy (inl refl),
    λ e. refl,
    λ e. -ℤ_self (u.int_of (fold 0)),
  )
  compare_from-Compared (suc n) i a b m [] (y ∷ ys) hx (ey, py, hy) fuel = (
    u.int_of (fold 0) -ℤ u.int_of (fold y),
    compare_stop n i a b 0 y m hx ey (inl refl),
    λ e. absurd (
        omega (
          arith,
          diff-zero 0 y u.limit_pos (small n i a b 0 y m hx ey).1 e,
          f.null,
          f.nonnull y py,
        )),
    λ e. cc,
  )
  compare_from-Compared (suc n) i a b m (x ∷ xs) [] (ex, px, hx) hy fuel = (
    u.int_of (fold x) -ℤ u.int_of (fold 0),
    compare_stop n i a b x 0 m ex hy (inr (inl refl)),
    λ e. absurd (
        omega (
          arith,
          diff-zero x 0 (small n i a b x 0 m ex hy).0 u.limit_pos e,
          f.null,
          f.nonnull x px,
        )),
    λ e. cc,
  )
  compare_from-Compared (suc n) i a b m (x ∷ xs) (y ∷ ys) (ex, px, hx) (ey, py, hy) fuel =
      elim (ℕ_discrete (fold x) (fold y)) [
        | yes e ↦
            let (d, got, to, from) =
              compare_from-Compared n (i + 1) a b m xs ys hx hy (omega arith) in
            (
              d,
              compare_more n i a b x y m ex ey px py e ∙ got,
              λ z. ap₂ ◌∷◌ e (to z),
              λ same. from (cc same),
            )
        | no ne ↦ (
          u.int_of (fold x) -ℤ u.int_of (fold y),
          compare_stop n i a b x y m ex ey (inr (inr ne)),
          λ z.
              absurd
                (ne (diff-zero x y (small n i a b x y m ex ey).0 (small n i a b x y m ex ey).1 z)),
          λ same. absurd (ne (cc same)),
        )
      ]

map_id : (xs : List ℕ) → map (λ c. c) xs ≡ xs
map_id [] = refl
map_id (x ∷ xs) = ap (λ r. x ∷ r) (map_id xs)

tolower-IsFold : (u : Units) → 128 ≤ u.limit → IsFold u tolower
tolower-IsFold u h = record {
  within = λ c k. ground arith;
  null = refl;
  nonnull = λ c k. ground arith;
}

-- strcmp ends on two strings, and returns 0 exactly if they are the same string.
pub strcmp-zero_iff :
    (fuel a b : ℕ) (m : Bytes) (xs ys : List ℕ)
    → Holds char m a 0 xs
    → Holds char m b 0 ys
    → length xs < fuel
    → (d : ℤ) × (strcmp fuel a b m ≡ some d) × ((d ≡ pos 0) ↔ (xs ≡ ys))
unfolding strcmp
strcmp-zero_iff fuel a b m xs ys hx hy enough =
    let (d, got, to, from) =
      compare_from-Compared char (λ c. c) (id-IsFold char) fuel 0 a b m xs ys hx hy enough in
    (d, got, (λ z. sym (map_id xs) ∙ to z ∙ map_id ys, λ e. from (ap (map (λ c. c)) e)))

-- stricmp ends on two strings, and returns 0 exactly if they are the same up to the case of the
-- letters A to Z.
stricmp-zero_iff :
    (fuel a b : ℕ) (m : Bytes) (xs ys : List ℕ)
    → Holds char m a 0 xs
    → Holds char m b 0 ys
    → length xs < fuel
    → (d : ℤ) × (stricmp fuel a b m ≡ some d) × ((d ≡ pos 0) ↔ (map tolower xs ≡ map tolower ys))
unfolding stricmp
stricmp-zero_iff fuel a b m xs ys hx hy enough =
    let (d, got, to, from) =
      compare_from-Compared char tolower (tolower-IsFold char (omega arith)) fuel 0 a b m xs ys hx
        hy enough in
    (d, got, (to, from))

-- The hash of a list of units, one at a time.
unfoldable pub hash_list : ℕ → List ℕ → ℕ
hash_list hash [] = hash
hash_list hash (c ∷ cs) = hash_list (fnv_step hash (to_u64 (char.int_of c))) cs

hash_from-hash_list :
    (n i p hash : ℕ) (m : Bytes) (xs : List ℕ)
    → Holds char m p i xs
    → length xs < n
    → hash_from n i p hash m ≡ some (hash_list hash (map tolower xs))
unfolding hash_from hash_list
hash_from-hash_list zero i p hash m xs h fuel = absurd (omega arith)
hash_from-hash_list (suc n) i p hash m [] h fuel = rw h
hash_from-hash_list (suc n) i p hash m (x ∷ xs) (e, nonzero, h) fuel =
    rw (e, ==_of_ne x 0 (omega arith))
      (hash_from-hash_list n (i + 1) p (fnv_step hash (to_u64 (char.int_of (tolower x)))) m xs h
        (omega arith))

-- Names that stricmp finds equal have the same strihsh.
strihsh_of_stricmp :
    (fuel a b : ℕ) (m : Bytes) (xs ys : List ℕ)
    → Holds char m a 0 xs
    → Holds char m b 0 ys
    → length xs < fuel
    → length ys < fuel
    → stricmp fuel a b m ≡ some (pos 0)
    → (hash : ℕ) × (strihsh fuel a m ≡ some hash) × (strihsh fuel b m ≡ some hash)
unfolding strihsh
strihsh_of_stricmp fuel a b m xs ys hx hy fx fy zero_diff =
    let (d, got, (to, from)) = stricmp-zero_iff fuel a b m xs ys hx hy fx in
    let same : d ≡ pos 0 = cc (got, zero_diff) in
    (
      hash_list fnv_basis (map tolower xs),
      hash_from-hash_list fuel 0 a fnv_basis m xs hx fx,
      hash_from-hash_list fuel 0 b fnv_basis m ys hy fy
          ∙ ap (λ l. some (hash_list fnv_basis l)) (sym (to same)),
    )
