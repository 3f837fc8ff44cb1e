-- ===== src/Interrupts/Tests.antt =====
-- The theorems on interrupts at a system whose tables are empty.
use staxus.Base.{◌+◌, ◌≡◌, refl, none, true, [], ◌∷◌, arith}
use staxus.Interrupts.{Interrupts, install_irq, initialize_irqs, handle_isr}
use staxus.Interrupts.Dispatch.{low_register, install_irq-handle_isr}

abbrev idle : Interrupts
idle = record {
  entries = λ i. record { l_off = 0; sel = 0; ist = 0; flags = 0; m_off = 0; h_off = 0 };
  isr_handlers = λ i. none;
  irq_handlers = λ i. none;
  io_apic = λ i. 0;
  ended = 0;
}

abbrev keyboard_ready : Interrupts
keyboard_ready = install_irq 1 4096 (initialize_irqs true 0 23 idle).1

install_irq-handle_isr_example :
    (handle_isr (32 + 1) keyboard_ready
      ≡ (true, 4096 ∷ [], record keyboard_ready { ended = keyboard_ready.ended + 1 }))
    × (low_register 1 keyboard_ready ≡ 1 + 32)
install_irq-handle_isr_example =
    install_irq-handle_isr 1 4096 0 23 idle keyboard_ready (omega arith) (omega arith) refl
