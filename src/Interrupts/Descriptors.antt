-- ===== src/Interrupts/Descriptors.antt =====
-- The addresses that descriptors carry in pieces.
use staxus.Base.{ℕ, ◌+◌, ◌*◌, ◌<◌, ◌≡◌, refl, ◌≢◌, true, false, ◌==◌, arith}
use staxus.Interrupts.{
  GdtEntry, tss_entry, tss_high_entry, tss_size, GateEntry, Interrupts, set_idt_entry,
}

-- The address that the processor puts together from the two entries of a task state segment, and the
-- limit of an entry.
abbrev pub base_of : GdtEntry → GdtEntry → ℕ
base_of low high =
    low.base_low
    + low.base_mid * 65536
    + low.base_high * 16777216
    + high.limit_low * 4294967296
    + high.base_low * 281474976710656

abbrev pub limit_of : GdtEntry → ℕ
limit_of e = e.limit_low + e.granularity * 65536

-- The entries that InitializeGDT writes for the task state segment give its address, below 2 ^ 64, and
-- the offset of its last byte.
tss_entry-base_of :
    (base : ℕ)
    → base < 18446744073709551616
    → (base_of (tss_entry base) (tss_high_entry base) ≡ base)
      × (limit_of (tss_entry base) + 1 ≡ tss_size)
unfolding tss_entry tss_high_entry
tss_entry-base_of base small = (omega (arith, small), omega arith)

-- The handler's address that the processor puts together from an entry.
abbrev pub offset_of : GateEntry → ℕ
offset_of e = e.l_off + e.m_off * 65536 + e.h_off * 4294967296

-- setIDTEntry: the entry gives the handler's address, below 2 ^ 64, and every other entry stays.
set_idt_entry-offset_of :
    (index addr sel flags other : ℕ) (s : Interrupts)
    → addr < 18446744073709551616
    → other ≢ index
    → (offset_of ((set_idt_entry index addr sel flags s).entries index) ≡ addr)
      × ((set_idt_entry index addr sel flags s).entries other ≡ s.entries other)
unfolding set_idt_entry
set_idt_entry-offset_of index addr sel flags other s small ne =
    let here : (index == index) ≡ true = ground arith in
    let apart : (other == index) ≡ false = ground (arith, ne) in
    (rw here (omega (arith, small)), rw apart refl)
