-- ===== src/Memory/Identity/Aligned.antt =====
-- memory/managers/identity.c: idalloc_aalloc.
use native.Mathlib.Nat.{add_assoc, add-mod_right, mod-lt, div-add-mod, mul-mod_right}
use staxus.Base.{
  ◌≡◌, refl, ◌∙◌, ◌⊎◌, inl, inr, arith, Bool-cases, Option-cases, ◌≤◌, ◌<◌, ◌*◌, ◌/◌, ℕ, zero, suc,
  ◌+◌, ◌-◌, ◌%◌, not, ◌&&◌, ◌||◌, Option, none, some, ◌==◌, ltb, leb, if◌then◌else◌,
}
use staxus.Memory.Bytes.{Bytes}
use staxus.Memory.Identity.{
  header_size, add64, sub64, size_of, next_of, set_size, set_next, set_flags, in_use, Heap,
  split_block, mark_used, idalloc_malloc,
}

-- `while(padding <= sizeof(BlockHeader)) padding += align`, at most `n` times
unfoldable pub pad_from : ℕ → ℕ → ℕ → ℕ
pad_from zero padding align = padding
pad_from (suc n) padding align =
    let rest = pad_from n (padding + align) align in
    if leb padding header_size then rest else padding

-- The distance from `cur` to the header of the aligned block. From `align >= 2` on, 24 rounds are
-- enough.
unfoldable pub padding_for : ℕ → ℕ → ℕ
unfolding pad_from
padding_for cur align = pad_from 24 (align - (cur + header_size) % align) align

-- Cuts the front off a free block, and gives it to `prev` if that is free.
unfoldable pub cut_front : ℕ → ℕ → ℕ → Bytes → Bytes
cut_front prev cur padding m =
    let aligned = cur + padding in
    let m1 = set_size m aligned (sub64 (size_of m cur) padding) in
    let m2 = set_next m1 aligned (next_of m1 cur) in
    let m3 = set_flags m2 aligned 0 in
    let m4 = set_size m3 cur (sub64 padding header_size) in
    let m5 = set_next m4 cur aligned in
    if not (prev == 0) && not (in_use m5 prev)
    then (let m6 =
          set_size m5 prev (add64 (size_of m5 prev) (add64 (size_of m5 cur) header_size)) in
        set_next m6 prev aligned)
    else m5

unfoldable pub aalloc_from : ℕ → ℕ → ℕ → ℕ → ℕ → Bytes → Option (ℕ × Bytes)
aalloc_from zero size align prev cur m = none
aalloc_from (suc f) size align prev cur m =
    let skip = aalloc_from f size align cur (next_of m cur) m in
    let padding = padding_for cur align in
    if cur == 0
    then some (0, m)
    else if ltb (size_of m cur) size || in_use m cur
    then skip
    else if (cur + header_size) % align == 0
    then some (cur + header_size, mark_used cur (split_block cur size m))
    else if ltb (size_of m cur) (add64 size padding)
    then skip
    else some (
      cur + padding + header_size,
      mark_used (cur + padding) (split_block (cur + padding) size (cut_front prev cur padding m)),
    )

-- `malloc` is the loaded manager's, which is idalloc_malloc.
unfoldable pub idalloc_aalloc : ℕ → ℕ → ℕ → Heap → Option (ℕ × Heap)
idalloc_aalloc fuel size align h =
    if size == 0
    then some (0, h)
    else if ltb align 2
    then idalloc_malloc fuel size h
    else elim (aalloc_from fuel size align 0 h.first_block h.mem) [
      | none ↦ none
      | some (p, m) ↦ some (p, record h { mem = m })
    ]

pad_from-mod :
    (n x padding align : ℕ) → (x + pad_from n padding align) % align ≡ (x + padding) % align
unfolding pad_from
pad_from-mod zero x padding align = refl
pad_from-mod (suc n) x padding align = elim (Bool-cases (leb padding header_size)) [
  | inl short ↦
      let over : (x + (padding + align)) % align ≡ (x + padding) % align =
        rw (← add_assoc x padding align) (add-mod_right (x + padding) align) in
      rw short (pad_from-mod n x (padding + align) align ∙ over)
  | inr long ↦ rw long
]

pad_from-long :
    (n padding align : ℕ)
    → 0 < align
    → header_size < padding + n
    → header_size < pad_from n padding align
unfolding pad_from
pad_from-long zero padding align pos h = omega arith
pad_from-long (suc n) padding align pos h =
    ground (arith, pad_from-long n (padding + align) align pos (omega arith))

mul-suc_eq : (a q : ℕ) → a * (q + 1) ≡ a * q + a
mul-suc_eq a q = omega arith

-- From `x` to the next multiple of `align`.
up-mod : (x align : ℕ) → 0 < align → (x + (align - x % align)) % align ≡ 0
up-mod x align pos =
    let q = x / align in
    let whole : x + (align - x % align) ≡ align * (q + 1) =
      omega (arith, div-add-mod x align, mod-lt x pos, mul-suc_eq align q) in
    rw whole (mul-mod_right align (q + 1))

-- The padding puts the block behind the new header on a multiple of `align`, and leaves room for the
-- header of the block in front and at least one byte.
pub padding_lem :
    (cur align : ℕ)
    → 0 < align
    → ((cur + padding_for cur align + header_size) % align ≡ 0)
      × (header_size < padding_for cur align)
unfolding padding_for
padding_lem cur align pos =
    let x = cur + header_size in
    let first = align - x % align in
    let pad = pad_from 24 first align in
    let moved : cur + pad + header_size ≡ x + pad = omega arith in
    (
      rw moved (pad_from-mod 24 x first align ∙ up-mod x align pos),
      pad_from-long 24 first align pos (omega (arith, mod-lt x pos)),
    )

-- Each pointer that the walk returns is null or a multiple of `align`.
aalloc_from_aligned :
    (f size align prev cur p : ℕ) (m m' : Bytes)
    → 0 < align
    → aalloc_from f size align prev cur m ≡ some (p, m')
    → (p ≡ 0) ⊎ (p % align ≡ 0)
unfolding aalloc_from
aalloc_from_aligned zero size align prev cur p m m' pos h = cc
aalloc_from_aligned (suc f) size align prev cur p m m' pos h = ground (
  arith,
  aalloc_from_aligned f size align cur (next_of m cur) p m m' pos,
  padding_lem cur align pos,
)

-- Every pointer that idalloc_aalloc returns for an alignment of at least 2 is null or a multiple of
-- the alignment.
pub aalloc_aligned :
    (fuel size align p : ℕ) (h h' : Heap)
    → 2 ≤ align
    → idalloc_aalloc fuel size align h ≡ some (p, h')
    → (p ≡ 0) ⊎ (p % align ≡ 0)
unfolding idalloc_aalloc
aalloc_aligned fuel size align p h h' two e =
    elim (Option-cases (aalloc_from fuel size align 0 h.first_block h.mem)) [
      | inl out_of_fuel ↦ ground arith
      | inr ((q, m), got) ↦
          ground
            (arith, aalloc_from_aligned fuel size align 0 h.first_block q h.mem m (omega arith) got)
    ]
