-- ===== src/Interrupts.antt =====
-- interrupt/gdt.c, idt.c, isr.c, irq.c and apic.c: the descriptors that are handed to the processor, the
-- tables of handlers, and the registers of the I/O APIC. A function pointer is the function's address.

pub mod Dispatch
pub mod Descriptors
pub mod Tests
use staxus.Base.{
  ℕ, zero, suc, ◌+◌, ◌-◌, ◌*◌, ◌/◌, ◌%◌, Bool, true, false, ◌&&◌, Option, none, some, List, [], ◌∷◌,
  ◌==◌, ltb, leb, if◌then◌else◌,
}

-- `GDTEntry`
pub record GdtEntry : Type 0 where
  pub limit_low : ℕ
  pub base_low : ℕ
  pub base_mid : ℕ
  pub access : ℕ
  pub granularity : ℕ
  pub base_high : ℕ

-- An entry that has only a limit, its access byte and its flags.
abbrev pub flat_entry : ℕ → GdtEntry
flat_entry access = record {
  limit_low = 0xFFFF;
  base_low = 0;
  base_mid = 0;
  access = access;
  granularity = 0xAF;
  base_high = 0;
}

abbrev pub null_entry : GdtEntry
null_entry = record {
  limit_low = 0;
  base_low = 0;
  base_mid = 0;
  access = 0;
  granularity = 0;
  base_high = 0;
}

-- `sizeof(TSS)`
abbrev pub tss_size : ℕ
tss_size = 104

-- The two entries of the task state segment at `base`.
unfoldable pub tss_entry : ℕ → GdtEntry
tss_entry base = record {
  limit_low = (tss_size - 1) % 65536;
  base_low = base % 65536;
  base_mid = base / 65536 % 256;
  access = 0x89;
  granularity = (tss_size - 1) / 65536 % 16;
  base_high = base / 16777216 % 256;
}

unfoldable pub tss_high_entry : ℕ → GdtEntry
tss_high_entry base = record null_entry {
  limit_low = base / 4294967296 % 65536;
  base_low = base / 281474976710656 % 65536;
}

-- `GDTPointer`, and the fields of `TSS` that are set.
pub record Gdt : Type 0 where
  pub entries : List GdtEntry
  pub size : ℕ
  pub offset : ℕ
  pub rsp0 : ℕ
  pub iomap_base : ℕ

-- The tables that InitializeGDT loads; `tss` and `entries` are the addresses of the static variables.
unfoldable pub initialize_gdt : ℕ → ℕ → ℕ → Gdt
unfolding tss_entry tss_high_entry
initialize_gdt r0_stack_top tss entries = record {
  entries =
      null_entry
      ∷ flat_entry 0x9A
      ∷ flat_entry 0x92
      ∷ flat_entry 0xFA
      ∷ flat_entry 0xF2
      ∷ tss_entry tss
      ∷ tss_high_entry tss
      ∷ [];
  size = 7 * 8 - 1;
  offset = entries;
  rsp0 = r0_stack_top;
  iomap_base = tss_size;
}

-- `InterruptTableEntry` without `zero`, which is always 0.
pub record GateEntry : Type 0 where
  pub l_off : ℕ
  pub sel : ℕ
  pub ist : ℕ
  pub flags : ℕ
  pub m_off : ℕ
  pub h_off : ℕ

-- A handler of isr.c: exceptionStub, which never returns, stub of irq.c, or another function.
pub data Handler : Type 0 where
  exception_stub : Handler
  irq_stub : Handler
  other : ℕ → Handler

-- The static variables, the registers of the I/O APIC, and the number of times that the end of an
-- interrupt has been signalled.
pub record Interrupts : Type 0 where
  pub entries : ℕ → GateEntry
  pub isr_handlers : ℕ → Option Handler
  pub irq_handlers : ℕ → Option ℕ
  pub io_apic : ℕ → ℕ
  pub ended : ℕ

-- `table[i] = v`
abbrev pub update {ℓ} : {A : Type ℓ} → (ℕ → A) → ℕ → A → ℕ → A
update table i v k = if k == i then v else table k

abbrev pub gate : ℕ → ℕ → ℕ → GateEntry
gate addr sel flags = record {
  l_off = addr % 65536;
  sel = sel;
  ist = 0;
  flags = flags;
  m_off = addr / 65536 % 65536;
  h_off = addr / 4294967296 % 4294967296;
}

unfoldable pub set_idt_entry : ℕ → ℕ → ℕ → ℕ → Interrupts → Interrupts
set_idt_entry index addr sel flags s = record s {
  entries = update s.entries index (gate addr sel flags);
}

-- `memset(entries, 0, sizeof(entries))`
unfoldable pub initialize_idt : Interrupts → Interrupts
initialize_idt s = record s {
  entries = λ i. record { l_off = 0; sel = 0; ist = 0; flags = 0; m_off = 0; h_off = 0 };
}

unfoldable pub install_isr : ℕ → Handler → Interrupts → Interrupts
install_isr idx handler s = record s { isr_handlers = update s.isr_handlers idx (some handler) }

-- The loops of initalizeISRs, `n` rounds from `i` on; `stubs` are the addresses of the 48 stubs.
unfoldable pub gates_from : (ℕ → ℕ) → ℕ → ℕ → Interrupts → Interrupts
unfolding set_idt_entry
gates_from stubs zero i s = s
gates_from stubs (suc n) i s = gates_from stubs n (i + 1) (set_idt_entry i (stubs i) 0x0008 0x8E s)

unfoldable pub exceptions_from : ℕ → ℕ → Interrupts → Interrupts
unfolding install_isr
exceptions_from zero i s = s
exceptions_from (suc n) i s = exceptions_from n (i + 1) (install_isr i exception_stub s)

unfoldable pub initialize_isrs : (ℕ → ℕ) → Interrupts → Interrupts
unfolding gates_from exceptions_from
initialize_isrs stubs s = exceptions_from 32 0 (gates_from stubs 48 0 s)

-- `WriteIOAPICRegister`
unfoldable pub write_io_apic : ℕ → ℕ → Interrupts → Interrupts
write_io_apic reg val s = record s { io_apic = update s.io_apic reg val }

-- `vector | (masked ? IOAPIC_INTERRUPT_DISABLED : 0)`, where the vector is a byte, and `apicID << 24`
unfoldable pub set_io_apic_redirection : ℕ → ℕ → ℕ → Bool → Interrupts → Interrupts
unfolding write_io_apic
set_io_apic_redirection irq vector apic_id masked s =
    let index = (16 + 2 * irq) % 256 in
    write_io_apic ((index + 1) % 256) (apic_id * 16777216)
      (write_io_apic index (if masked then vector + 65536 else vector) s)

-- `low & ~IOAPIC_INTERRUPT_DISABLED`
abbrev pub unmasked : ℕ → ℕ
unmasked low = low - low / 65536 % 2 * 65536

unfoldable pub clear_mask : ℕ → Interrupts → Interrupts
unfolding write_io_apic
clear_mask idx s =
    let index = (16 + 2 * idx) % 256 in
    if ltb 24 idx then s else write_io_apic index (unmasked (s.io_apic index)) s

-- `handlers[irqNum] = handler`, of an array of 32, which nothing compares with irqNum. The handler is a
-- function, so not the null pointer.
unfoldable pub install_irq : ℕ → ℕ → Interrupts → Interrupts
unfolding clear_mask
install_irq irq handler s =
    clear_mask irq (record s { irq_handlers = update s.irq_handlers irq (some handler) })

-- The loops of initalizeIRQs.
unfoldable pub redirect_from : ℕ → ℕ → ℕ → Interrupts → Interrupts
unfolding set_io_apic_redirection
redirect_from lapic_id zero irq s = s
redirect_from lapic_id (suc n) irq s =
    redirect_from lapic_id n (irq + 1) (set_io_apic_redirection irq (irq + 32) lapic_id true s)

unfoldable pub stubs_from : ℕ → ℕ → Interrupts → Interrupts
unfolding install_isr
stubs_from zero i s = s
stubs_from (suc n) i s = stubs_from n (i + 1) (install_isr (i + 32) irq_stub s)

-- disablePIC and EnableLAPIC write to other devices only, and are left out. `detected` is the result of
-- DetectLAPIC, and `max_entries` the byte that register 1 reports.
unfoldable pub initialize_irqs : Bool → ℕ → ℕ → Interrupts → Bool × Interrupts
unfolding redirect_from stubs_from
initialize_irqs false lapic_id max_entries s = (false, s)
initialize_irqs true lapic_id max_entries s = (
  true,
  stubs_from 16 0 (redirect_from lapic_id (if ltb max_entries 24 then max_entries + 1 else 24) 0 s),
)

-- `stub` of irq.c: the functions that are called, in their order.
unfoldable pub stub : ℕ → Interrupts → List ℕ × Interrupts
stub index s =
    let done = record s { ended = s.ended + 1 } in
    if leb index 47 && leb 32 index
    then elim (s.irq_handlers (index - 32)) [ none ↦ ([], done) | some h ↦ (h ∷ [], done) ]
    else ([], done)

-- The calls of a handler, and whether it returns.
abbrev pub run_handler : ℕ → Interrupts → Option Handler → Bool × List ℕ × Interrupts
run_handler idx s none = (true, [], s)
run_handler idx s (some exception_stub) = (false, [], s)
run_handler idx s (some irq_stub) = (true, (stub idx s).0, (stub idx s).1)
run_handler idx s (some (other f)) = (true, f ∷ [], s)

unfoldable pub handle_isr : ℕ → Interrupts → Bool × List ℕ × Interrupts
handle_isr idx s = run_handler idx s (s.isr_handlers idx)
