-- ===== src/Files/Table.antt =====
-- Lists of mounts: no two with the same mount point, membership, and the removal of an entry.
use staxus.Base.{
  ℕ, zero, suc, ◌≡◌, refl, ◌≢◌, ◌⊎◌, inl, inr, sym, ap, ◌∙◌, subst, true, false, some, List, [],
  ◌∷◌, arith, All, set, get_elem?,
}
use staxus.Files.{Text, same, FsMount, point_of, last_of, drop_last, remove_at}

pub same_refl : (xs : Text) → same xs xs ≡ true
same_refl [] = refl
same_refl (x ∷ xs) = ground (arith, same_refl xs)

pub same_eq : (xs ys : Text) → same xs ys ≡ true → xs ≡ ys
same_eq [] [] h = refl
same_eq [] (y ∷ ys) h = absurd (ground arith)
same_eq (x ∷ xs) [] h = absurd (ground arith)
same_eq (x ∷ xs) (y ∷ ys) h =
    let heads : x ≡ y = ground arith in let tails : xs ≡ ys = same_eq xs ys (ground arith) in cc

pub same-false : (a b : Text) → same a b ≡ false → a ≢ b
same-false a b h e = absurd (ground (arith, same_refl a, subst (λ t. same a t ≡ false) (sym e) h))

module _ {W : Type 0} where
  abbrev pub Other : FsMount W → FsMount W → Type 0
  Other x y = point_of x ≢ point_of y

  -- No two mounts have the same mount point.
  abbrev pub Distinct : List (FsMount W) → Type 0
  Distinct [] = Unit
  Distinct (x ∷ xs) = All (Other x) xs × Distinct xs

  abbrev pub In : FsMount W → List (FsMount W) → Type 0
  In y [] = ⊥
  In y (x ∷ xs) = (x ≡ y) ⊎ In y xs

  pub All-In :
      (P : FsMount W → Type 0) (xs : List (FsMount W)) (y : FsMount W) → All P xs → In y xs → P y
  All-In P [] y h i = elim i [ ]
  All-In P (x ∷ xs) y h (inl e) = subst P e h.0
  All-In P (x ∷ xs) y h (inr i) = All-In P xs y h.1 i

  pub In-All :
      (P : FsMount W → Type 0) (xs : List (FsMount W))
      → ((y : FsMount W) → In y xs → P y)
      → All P xs
  In-All P [] h = tt
  In-All P (x ∷ xs) h = (h x (inl refl), In-All P xs (λ y i. h y (inr i)))

  pub get-In : (xs : List (FsMount W)) (i : ℕ) (x : FsMount W) → get_elem? xs i ≡ some x → In x xs
  get-In [] i x e = absurd (ground arith)
  get-In (y ∷ ys) zero x e = inl cc
  get-In (y ∷ ys) (suc i) x e = inr (get-In ys i x e)

  pub All_get :
      (P : FsMount W → Type 0) (xs : List (FsMount W)) (i : ℕ) (x : FsMount W)
      → All P xs
      → get_elem? xs i ≡ some x
      → P x
  All_get P [] i x h e = absurd (ground arith)
  All_get P (y ∷ ys) zero x h e = subst P (cc e) h.0
  All_get P (y ∷ ys) (suc i) x h e = All_get P ys i x h.1 e

  pub All-drop_last :
      (P : FsMount W → Type 0) (xs : List (FsMount W)) → All P xs → All P (drop_last xs)
  All-drop_last P [] h = tt
  All-drop_last P (x ∷ []) h = tt
  All-drop_last P (x ∷ y ∷ ys) h = (h.0, All-drop_last P (y ∷ ys) h.1)

  pub All-last_of :
      (P : FsMount W → Type 0) (x : FsMount W) (xs : List (FsMount W))
      → P x
      → All P xs
      → P (last_of x xs)
  All-last_of P x [] h hs = h
  All-last_of P x (y ∷ ys) h hs = All-last_of P y ys hs.0 hs.1

  pub All-set :
      (P : FsMount W → Type 0) (xs : List (FsMount W)) (i : ℕ) (v : FsMount W)
      → P v
      → All P xs
      → All P (set xs i v)
  All-set P [] i v h hs = tt
  All-set P (x ∷ xs) zero v h hs = (h, hs.1)
  All-set P (x ∷ xs) (suc i) v h hs = (hs.0, All-set P xs i v h hs.1)

  pub All-remove_at :
      (P : FsMount W → Type 0) (i : ℕ) (x : FsMount W) (xs : List (FsMount W))
      → P x
      → All P xs
      → All P (remove_at i x xs)
  unfolding remove_at
  All-remove_at P i x xs h hs =
      All-drop_last P (set xs i (last_of x xs))
        (All-set P xs i (last_of x xs) (All-last_of P x xs h hs) hs)

  -- The entries behind a removed one stay where they are.
  pub remove_at-suc :
      (k : ℕ) (x y z : FsMount W) (zs : List (FsMount W))
      → remove_at (suc k) x (y ∷ z ∷ zs) ≡ y ∷ remove_at k x (z ∷ zs)
  unfolding remove_at
  remove_at-suc zero x y z zs = refl
  remove_at-suc (suc k) x y z zs = refl

  pub drop_last-Distinct : (xs : List (FsMount W)) → Distinct xs → Distinct (drop_last xs)
  drop_last-Distinct [] d = tt
  drop_last-Distinct (x ∷ []) d = tt
  drop_last-Distinct (x ∷ y ∷ ys) d =
      (All-drop_last (Other x) (y ∷ ys) d.0, drop_last-Distinct (y ∷ ys) d.1)

  pub last_of-Other :
      (z : FsMount W) (zs : List (FsMount W))
      → Distinct (z ∷ zs)
      → All (Other (last_of z zs)) (drop_last (z ∷ zs))
  last_of-Other z [] d = tt
  last_of-Other z (w ∷ ws) d =
      ((λ e. All-last_of (Other z) w ws d.0.0 d.0.1 (sym e)), last_of-Other w ws d.1)

  pub remove_at-Distinct :
      (i : ℕ) (x : FsMount W) (xs : List (FsMount W))
      → get_elem? xs i ≡ some x
      → Distinct xs
      → Distinct (remove_at i x xs)
  remove_at-Distinct i x [] e d = unfold remove_at in tt
  remove_at-Distinct zero x (y ∷ []) e d = unfold remove_at in tt
  remove_at-Distinct (suc k) x (y ∷ []) e d = absurd (ground arith)
  remove_at-Distinct zero x (y ∷ z ∷ zs) e d =
      unfold remove_at in (last_of-Other z zs d.1, drop_last-Distinct (z ∷ zs) d.1)
  remove_at-Distinct (suc k) x (y ∷ z ∷ zs) e d = rw (remove_at-suc k x y z zs) (
    All-remove_at (Other y) k x (z ∷ zs) (All_get (Other y) (z ∷ zs) k x d.0 e) d.0,
    remove_at-Distinct k x (z ∷ zs) e d.1,
  )

  -- What is left has another mount point than the entry that is gone.
  pub remove_at-Other :
      (i : ℕ) (x : FsMount W) (xs : List (FsMount W))
      → get_elem? xs i ≡ some x
      → Distinct xs
      → All (Other x) (remove_at i x xs)
  remove_at-Other i x [] e d = unfold remove_at in tt
  remove_at-Other zero x (y ∷ []) e d = unfold remove_at in tt
  remove_at-Other (suc k) x (y ∷ []) e d = absurd (ground arith)
  remove_at-Other zero x (y ∷ z ∷ zs) e d =
      let same_entry : y ≡ x = cc in
      subst (λ t. All (Other t) (remove_at zero x (y ∷ z ∷ zs))) same_entry
        (unfold remove_at in
          (All-last_of (Other y) z zs d.0.0 d.0.1, All-drop_last (Other y) (z ∷ zs) d.0))
  remove_at-Other (suc k) x (y ∷ z ∷ zs) e d =
      rw (remove_at-suc k x y z zs)
        ((λ q. All_get (Other y) (z ∷ zs) k x d.0 e (sym q)), remove_at-Other k x (z ∷ zs) e d.1)

  pub In-last :
      (y z : FsMount W) (zs : List (FsMount W))
      → In y (z ∷ zs)
      → (last_of z zs ≡ y) ⊎ In y (drop_last (z ∷ zs))
  In-last y z [] (inl e) = inl e
  In-last y z [] (inr i) = elim i [ ]
  In-last y z (w ∷ ws) (inl e) = inr (inl e)
  In-last y z (w ∷ ws) (inr i) = elim (In-last y w ws i) [ inl e ↦ inl e | inr j ↦ inr (inr j) ]

  -- Every other entry is still there.
  pub In-remove_at :
      (i : ℕ) (x y : FsMount W) (xs : List (FsMount W))
      → get_elem? xs i ≡ some x
      → In y xs
      → Other y x
      → In y (remove_at i x xs)
  In-remove_at i x y [] e there ne = elim there [ ]
  In-remove_at i x y (z ∷ []) e (inr there) ne = elim there [ ]
  In-remove_at zero x y (z ∷ []) e (inl q) ne =
      absurd (ne (let first : z ≡ x = cc in ap point_of (sym q ∙ first)))
  In-remove_at (suc k) x y (z ∷ []) e (inl q) ne = absurd (ground arith)
  In-remove_at zero x y (z ∷ w ∷ ws) e (inl q) ne =
      absurd (ne (let first : z ≡ x = cc in ap point_of (sym q ∙ first)))
  In-remove_at zero x y (z ∷ w ∷ ws) e (inr there) ne = unfold remove_at in In-last y w ws there
  In-remove_at (suc k) x y (z ∷ w ∷ ws) e (inl q) ne = rw (remove_at-suc k x z w ws) (inl q)
  In-remove_at (suc k) x y (z ∷ w ∷ ws) e (inr there) ne =
      rw (remove_at-suc k x z w ws) (inr (In-remove_at k x y (w ∷ ws) e there ne))
