-- ===== src/Memory/Identity/Release.antt =====
-- memory/managers/identity.c: idalloc_free, idalloc_realloc and the two counters.
use staxus.Base.{
  ℕ, zero, suc, ◌-◌, not, ◌&&◌, Option, none, some, ◌==◌, leb, if◌then◌else◌, bit_and,
}
use staxus.Memory.Bytes.{Bytes}
use staxus.Memory.Utils.{memcpy}
use staxus.Memory.Identity.{
  header_size, add64, sub64, size_of, next_of, flags_of, set_size, set_next, set_flags, in_use,
  Heap, split_block, idalloc_malloc,
}

-- `header` takes in the block behind it, if that is free.
unfoldable pub merge_next : ℕ → Bytes → Bytes
merge_next header m =
    let next = next_of m header in
    if not (next == 0) && not (in_use m next)
    then (let m1 =
          set_size m header (add64 (size_of m header) (add64 (size_of m next) header_size)) in
        set_next m1 header (next_of m1 (next_of m1 header)))
    else m

-- The block whose `next` is `header`, or null.
unfoldable pub find_prev : ℕ → ℕ → ℕ → Bytes → Option ℕ
find_prev zero header cur m = none
find_prev (suc f) header cur m =
    let rest = find_prev f header (next_of m cur) m in
    if cur == 0 then some 0 else if next_of m cur == header then some cur else rest

-- A free block in front of `header` takes it in.
unfoldable pub merge_prev : ℕ → ℕ → Bytes → Bytes
merge_prev prev header m =
    if prev == 0
    then m
    else if in_use m prev
    then m
    else (let m1 =
          set_size m prev (add64 (size_of m prev) (add64 (size_of m header) header_size)) in
        set_next m1 prev (next_of m1 header))

unfoldable pub free_at : ℕ → ℕ → ℕ → Bytes → Option Bytes
free_at fuel first header m =
    let m1 = set_flags m header (bit_and (flags_of m header) 0xfe) in
    let m2 = merge_next header m1 in
    elim (find_prev fuel header first m2) [
      | none ↦ none
      | some prev ↦ some (merge_prev prev header m2)
    ]

unfoldable pub idalloc_free : ℕ → ℕ → Heap → Option Heap
idalloc_free fuel ptr h =
    if ptr == 0 then some h else elim (free_at fuel h.first_block (ptr - header_size) h.mem) [
      | none ↦ none
      | some m ↦ some (record h { mem = m })
    ]

unfoldable pub idalloc_realloc : ℕ → ℕ → ℕ → Heap → Option (ℕ × Heap)
unfolding idalloc_malloc idalloc_free split_block
idalloc_realloc fuel ptr size h =
    let header = ptr - header_size in
    let m = h.mem in
    let next = next_of m header in
    let old_size = size_of m header in
    let size_dif = sub64 size old_size in
    if ptr == 0
    then idalloc_malloc fuel size h
    else if size == 0
    then elim (idalloc_free fuel ptr h) [ none ↦ none | some h' ↦ some (0, h') ]
    else if leb size old_size
    then some (ptr, h)
    else if not (next == 0)
        && not (in_use m next)
        && leb size_dif (add64 (size_of m next) header_size)
    then (let m1 = set_size m header (add64 old_size (add64 (size_of m next) header_size)) in
        let m2 = set_next m1 header (next_of m1 (next_of m1 header)) in
        some (ptr, record h { mem = split_block header size m2 }))
    else elim (idalloc_malloc fuel size h) [
      | none ↦ none
      | some (new, h1) ↦
          if new == 0
          then some (0, h1)
          else elim (idalloc_free fuel ptr (record h1 { mem = memcpy new ptr old_size h1.mem })) [
            | none ↦ none
            | some h2 ↦ some (new, h2)
          ]
    ]

unfoldable pub idalloc_get_useable : Heap → ℕ
idalloc_get_useable h = h.total_useable

unfoldable pub available_from : ℕ → ℕ → ℕ → Bytes → Option ℕ
available_from zero cur used m = none
available_from (suc f) cur used m =
    let rest =
      available_from f (next_of m cur) (if in_use m cur then used else add64 used (size_of m cur))
        m in
    if cur == 0 then some used else rest

unfoldable pub idalloc_get_available : ℕ → Heap → Option ℕ
idalloc_get_available fuel h = available_from fuel h.first_block 0 h.mem
