-- ===== src/Images/Relocations.antt =====
-- What the relocations of a block can change.
use staxus.Base.{
  ℕ, zero, suc, ◌+◌, ◌/◌, ◌%◌, ◌<◌, ◌≤◌, ◌≡◌, refl, ◌⊎◌, inl, inr, ◌∙◌, ◌==◌, arith, Bool-cases,
}
use staxus.Memory.Bytes.{
  Bytes, load8, load16, load32, load64, load32_frame, load8-store32, load8-store64,
}
use staxus.Memory.Identity.{add64}
use staxus.Images.{page_rva, relocate_entry, relocate_entries}

-- The address `a` does not lie in the page at `page` or in the 7 bytes behind it, which an entry at the
-- page's end reaches.
abbrev pub OutsidePage : ℕ → ℕ → Type 0
OutsidePage page a = (a < page) ⊎ (page + 4103 ≤ a)

relocate_entry-outside :
    (image delta cur entry a : ℕ) (b : Bytes)
    → OutsidePage (image + page_rva b cur) a
    → load8 (relocate_entry image delta cur entry b).1 a ≡ load8 b a
unfolding relocate_entry
relocate_entry-outside image delta cur entry a b outside =
    let place = image + page_rva b cur + entry % 4096 in
    elim (Bool-cases (entry / 4096 == 0)) [
      | inl abs ↦ rw abs refl
      | inr other ↦ elim (Bool-cases (entry / 4096 == 10)) [
        | inl wide ↦
            rw (other, wide)
              (load8-store64 b place (add64 (load64 b place) delta) a (omega (arith, outside)))
        | inr third ↦ elim (Bool-cases (entry / 4096 == 3)) [
          | inl short ↦
              rw (other, third, short)
                (load8-store32 b place ((load32 b place + delta) % 4294967296) a
                  (omega (arith, outside)))
          | inr unknown ↦ rw (other, third, unknown) refl
        ]
      ]
    ]

-- The entries of a block whose head lies outside its page, whichever they are and whether one is refused
-- or not, change no byte outside the page and the 7 bytes behind it.
pub relocate_entries-outside :
    (n image delta cur p a : ℕ) (b : Bytes)
    → ((k : ℕ) → cur ≤ k → k < cur + 4 → OutsidePage (image + page_rva b cur) k)
    → OutsidePage (image + page_rva b cur) a
    → load8 (relocate_entries n image delta cur p b).1 a ≡ load8 b a
unfolding relocate_entries
relocate_entries-outside zero image delta cur p a b head outside = refl
relocate_entries-outside (suc n) image delta cur p a b head outside =
    let entry = load16 b p in
    let b1 = (relocate_entry image delta cur entry b).1 in
    let ok = (relocate_entry image delta cur entry b).0 in
    let same : page_rva b1 cur ≡ page_rva b cur =
      load32_frame b1 b cur
        (λ k lo hi. relocate_entry-outside image delta cur entry k b (head k lo hi)) in
    let first = relocate_entry-outside image delta cur entry a b outside in
    elim (Bool-cases ok) [
      | inl applied ↦ rw applied (
          relocate_entries-outside n image delta cur (p + 2) a b1
            (λ k lo hi. rw same (head k lo hi)) (rw same outside)
          ∙ first)
      | inr refused ↦ rw refused first
    ]
