-- ===== src/Strings/Numerals/Turned.antt =====
-- The loop of UIntToString that turns the digits round.
use staxus.Base.{
  ℕ, zero, suc, ◌+◌, ◌-◌, ◌*◌, ◌/◌, ◌<◌, ◌≤◌, ◌≡◌, refl, ◌≢◌, ◌⊎◌, inl, ap, ◌∙◌, arith,
}
use native.Mathlib.Decide.{ℕ_discrete}
use staxus.Memory.Bytes.{Bytes, load8, load16-lt, load8-store16}
use staxus.Strings.Units.{wchar_self, wchar_apart}
use staxus.Strings.Format.{get, put, swap, swap_from}

pub put-get : (m : Bytes) (str i v k : ℕ) → k ≢ i → get (put m str i v) str k ≡ get m str k
put-get m str i v k other = wchar_apart m str i v str k (omega (arith, other))

-- `n` rounds from `j` on have turned round the units from j to i - 1 - j.
pub record Turned (j i str : ℕ) (m m' : Bytes) : Type 0 where
  pub inside : (k : ℕ) → j ≤ k → k + j < i → get m' str k ≡ get m str (i - 1 - k)
  pub outside : (k : ℕ) → (k < j) ⊎ (i ≤ k + j) → get m' str k ≡ get m str k
  pub keeps : (a : ℕ) → a < str → load8 m' a ≡ load8 m a

swap_low :
    (j i str : ℕ) (m : Bytes) → j + j + 1 < i → get (swap j i str m) str j ≡ get m str (i - j - 1)
unfolding swap
swap_low j i str m inside =
    put-get _ str (i - j - 1) _ j (omega arith)
    ∙ wchar_self m str j _ (load16-lt m (str + 2 * (i - j - 1)))

swap_high :
    (j i str : ℕ) (m : Bytes)
    → get m str j < 256
    → get (swap j i str m) str (i - j - 1) ≡ get m str j
unfolding swap
swap_high j i str m byte =
    wchar_self _ str (i - j - 1) _ (omega (arith, byte)) ∙ omega (arith, byte)

swap_other :
    (j i str k : ℕ) (m : Bytes) → k ≢ j → k ≢ i - j - 1 → get (swap j i str m) str k ≡ get m str k
unfolding swap
swap_other j i str k m low high = put-get _ str (i - j - 1) _ k high ∙ put-get m str j _ k low

swap-keeps : (j i str a : ℕ) (m : Bytes) → a < str → load8 (swap j i str m) a ≡ load8 m a
unfolding swap
swap-keeps j i str a m before =
    load8-store16 _ (str + 2 * (i - j - 1)) _ a (inl (omega arith))
    ∙ load8-store16 m (str + 2 * j) _ a (inl (omega arith))

swap-bytes :
    (j i str k : ℕ) (m : Bytes)
    → j + j + 1 < i
    → k < i
    → ((k : ℕ) → k < i → get m str k < 256)
    → get (swap j i str m) str k < 256
swap-bytes j i str k m inside small bytes = elim (ℕ_discrete k j) [
  | yes same ↦ omega (
    arith,
    ap (λ x. get (swap j i str m) str x) same,
    swap_low j i str m inside,
    bytes (i - j - 1) (omega arith),
  )
  | no low ↦ elim (ℕ_discrete k (i - j - 1)) [
    | yes same ↦ omega (
      arith,
      ap (λ x. get (swap j i str m) str x) same,
      swap_high j i str m (bytes j (omega arith)),
      bytes j (omega arith),
    )
    | no high ↦ omega (arith, swap_other j i str k m low high, bytes k small)
  ]
]

pub swap_from-Turned :
    (n j i str : ℕ) (m : Bytes)
    → j + n ≡ i / 2
    → ((k : ℕ) → k < i → get m str k < 256)
    → Turned j i str m (swap_from n j i str m)
unfolding swap_from
swap_from-Turned zero j i str m all bytes = record {
  inside = λ k lo hi. let same : k ≡ i - 1 - k = omega arith in ap (λ x. get m str x) same;
  outside = λ k out. refl;
  keeps = λ a before. refl;
}
swap_from-Turned (suc n) j i str m all bytes =
    let m1 = swap j i str m in
    let t =
      swap_from-Turned n (j + 1) i str m1 (omega arith)
        (λ k small. swap-bytes j i str k m (omega arith) small bytes) in
    record {
      inside = λ k lo hi. elim (ℕ_discrete k j) [
        | yes same ↦
            t.outside k (omega arith)
            ∙ ap (λ x. get m1 str x) same
            ∙ swap_low j i str m (omega arith)
            ∙ (let there : i - j - 1 ≡ i - 1 - k = omega arith in ap (λ x. get m str x) there)
        | no other ↦ elim (ℕ_discrete k (i - j - 1)) [
          | yes same ↦
              t.outside k (omega arith)
              ∙ ap (λ x. get m1 str x) same
              ∙ swap_high j i str m (bytes j (omega arith))
              ∙ (let there : j ≡ i - 1 - k = omega arith in ap (λ x. get m str x) there)
          | no high ↦
              t.inside k (omega (arith, other)) (omega (arith, high))
              ∙ swap_other j i str (i - 1 - k) m (omega (arith, high)) (omega (arith, other))
        ]
      ];
      outside =
          λ k out. t.outside k (omega arith) ∙ swap_other j i str k m (omega arith) (omega arith);
      keeps = λ a before. t.keeps a before ∙ swap-keeps j i str a m before;
    }
