-- ===== src/Images/Tests.antt =====
-- The theorems on images at a block of relocations at 100, for a page at 4096.
use staxus.Base.{ℕ, ◌+◌, ◌≤◌, ◌<◌, ◌≡◌, refl, inl, inr, some, [], ◌==◌, if◌then◌else◌, arith}
use staxus.Memory.Bytes.{Bytes, load8, load16, load32}
use staxus.Images.{page_rva, relocate_entries, cache_exports}
use staxus.Images.Relocations.{OutsidePage, relocate_entries-outside}
use staxus.Images.Exports.{SameFuncs, exported, cache_exports-SameFuncs}
use staxus.Storage.{Memory}

-- The page is 4096, and the one entry has type 10.
abbrev block : Bytes
block a = if a == 101 then 16 else if a == 109 then 160 else 0

page_rva-block : page_rva block 100 ≡ 4096
unfolding load32 load16 load8
page_rva-block = refl

head-OutsidePage : (k : ℕ) → 100 ≤ k → k < 100 + 4 → OutsidePage (0 + page_rva block 100) k
head-OutsidePage k lo hi = inl (omega (arith, page_rva-block, hi))

relocate_entries-outside_example :
    load8 (relocate_entries 1 0 512 100 108 block).1 9000 ≡ load8 block 9000
relocate_entries-outside_example =
    relocate_entries-outside 1 0 512 100 108 9000 block head-OutsidePage
      (inr (omega (arith, page_rva-block)))

-- A library at 0 whose export table at 16 has the one function f.
abbrev library : Bytes
library a =
    if a == 40
    then 1
    else if a == 44
    then 200
    else if a == 48
    then 220
    else if a == 52
    then 240
    else if a == 200
    then 77
    else if a == 220
    then 230
    else if a == 230
    then b'f'
    else 0

abbrev loader : Memory ℕ
loader = record {
  aalloc = λ size align w. (some 4096, w + 1);
  malloc = λ size w. (some 4096, w + 1);
  free = λ p w. w;
  bytes = λ w. library;
}

cache_exports-SameFuncs_example :
    SameFuncs loader (λ i. []) (cache_exports loader 8 0 16 0) (exported loader 8 0 16 0)
cache_exports-SameFuncs_example = cache_exports-SameFuncs loader 8 0 16 0
