-- ===== src/Memory/Identity/Split.antt =====
-- What `split_block` and `mark_used` do to the header at hand, and what they spare.
use staxus.Base.{ℕ, ◌+◌, ◌-◌, ◌%◌, ◌≤◌, ◌<◌, ◌≡◌, refl, ◌∙◌, ◌⊎◌, true, arith, ltb, lt→ltb}
use staxus.Memory.Bytes.{Bytes, load8}
use staxus.Memory.Identity.{
  header_size, u64_mod, add64, sub64, size_of, next_of, flags_of, set_size, set_next, set_flags,
  split_block,
}
use staxus.Memory.Identity.Header.{
  SameHeader, size-set_size, next-set_next, flags-set_flags, next-set_size, flags-set_size,
  flags-set_next, size-set_flags, next-set_flags, load8-set_size, load8-set_next, load8-set_flags,
  SameHeader-set_size, SameHeader-set_next, SameHeader-set_flags, next_of-lt,
}

-- The cut of the block at `cur`, to `size` bytes, as the headers of its two parts.
pub record IsCut (cur size : ℕ) (m n : Bytes) : Type 0 where
  pub front_size : size_of n cur ≡ size
  pub front_next : next_of n cur ≡ cur + header_size + size
  pub front_flags : flags_of n cur ≡ flags_of m cur
  pub rest_size : size_of n (cur + header_size + size) ≡ size_of m cur - size - header_size
  pub rest_next : next_of n (cur + header_size + size) ≡ next_of m cur
  pub rest_flags : flags_of n (cur + header_size + size) ≡ 0
  pub spared : (a : ℕ) → (a < cur) ⊎ (cur + header_size + size_of m cur ≤ a) → load8 n a ≡ load8 m a

-- The five writes, with the value that the fourth reads.
module _ (cur size new next old : ℕ) (m : Bytes) where
  abbrev cut : Bytes
  cut =
      set_size
        (set_next
          (set_flags (set_size (set_next m new next) new (sub64 (sub64 old size) header_size)) new
            0)
          cur new)
        cur size

  module _ (eq : new ≡ cur + header_size + size) (big : size + header_size < old)
      (inside : cur + header_size + old < u64_mod) where
    abbrev m1 : Bytes
    m1 = set_next m new next

    abbrev m2 : Bytes
    m2 = set_size m1 new (sub64 (sub64 old size) header_size)

    abbrev m3 : Bytes
    m3 = set_flags m2 new 0

    abbrev m4 : Bytes
    m4 = set_next m3 cur new

    front_headers :
        (size_of cut cur ≡ size) × (next_of cut cur ≡ new) × (flags_of cut cur ≡ flags_of m cur)
    front_headers = (
      omega (arith, size-set_size m4 cur size),
      omega (arith, next-set_size m4 cur size, next-set_next m3 cur new),
      flags-set_size m4 cur size
          ∙ flags-set_next m3 cur new
          ∙ (SameHeader-set_flags m2 new 0 cur (omega arith)).flags
          ∙ (SameHeader-set_size m1 new _ cur (omega arith)).flags
          ∙ (SameHeader-set_next m new next cur (omega arith)).flags,
    )

    rest_headers :
        (size_of cut new ≡ old - size - header_size)
        × (next_of cut new ≡ next % u64_mod)
        × (flags_of cut new ≡ 0)
    rest_headers =
        let s5 : SameHeader cut m4 new = SameHeader-set_size m4 cur size new (omega arith) in
        let s4 : SameHeader m4 m3 new = SameHeader-set_next m3 cur new new (omega arith) in
        (
          omega (
            arith,
            s5.size,
            s4.size,
            size-set_flags m2 new 0,
            size-set_size m1 new (sub64 (sub64 old size) header_size),
          ),
          s5.next
              ∙ s4.next
              ∙ next-set_flags m2 new 0
              ∙ next-set_size m1 new _
              ∙ next-set_next m new next,
          s5.flags ∙ s4.flags ∙ flags-set_flags m2 new 0,
        )

    cut_spared : (a : ℕ) → (a < cur) ⊎ (cur + header_size + old ≤ a) → load8 cut a ≡ load8 m a
    cut_spared a out =
        load8-set_size m4 cur size a (omega arith)
        ∙ load8-set_next m3 cur new a (omega arith)
        ∙ load8-set_flags m2 new 0 a (omega arith)
        ∙ load8-set_size m1 new _ a (omega arith)
        ∙ load8-set_next m new next a (omega arith)

module _ (cur size : ℕ) (m : Bytes) (enough : size ≤ size_of m cur)
    (inside : cur + header_size + size_of m cur < u64_mod) where
  pub split_small : size_of m cur ≤ size + header_size → split_block cur size m ≡ m
  unfolding split_block
  split_small h = ground arith

  pub split_large : size + header_size < size_of m cur → IsCut cur size m (split_block cur size m)
  unfolding split_block
  split_large h =
      let new = cur + header_size + size in
      let old = size_of m cur in
      let same : size_of (set_next m new (next_of m cur)) cur ≡ old =
        (SameHeader-set_next m new (next_of m cur) cur (omega arith)).size in
      let fits : ltb (add64 size header_size) old ≡ true = lt→ltb _ _ (omega arith) in
      let front = front_headers cur size new (next_of m cur) old m refl h inside in
      let rest = rest_headers cur size new (next_of m cur) old m refl h inside in
      rw (fits, same)
        (record {
          front_size = front.0;
          front_next = front.1;
          front_flags = front.2;
          rest_size = rest.0;
          rest_next = omega (arith, rest.1, next_of-lt m cur);
          rest_flags = rest.2;
          spared = cut_spared cur size new (next_of m cur) old m refl h inside;
        })
