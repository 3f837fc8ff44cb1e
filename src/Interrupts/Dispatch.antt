-- ===== src/Interrupts/Dispatch.antt =====
-- From an interrupt to its handler.
use staxus.Base.{
  ℕ, zero, suc, ◌+◌, ◌-◌, ◌*◌, ◌%◌, ◌<◌, ◌≤◌, ◌≡◌, refl, inl, inr, ap, ◌∙◌, true, false, ◌&&◌, some,
  [], ◌∷◌, ◌==◌, ltb, leb, if◌then◌else◌, arith, Bool-cases,
}
use native.Mathlib.Decide.{ℕ_discrete}
use staxus.Interrupts.{
  Interrupts, irq_stub, set_io_apic_redirection, unmasked, clear_mask, install_irq, install_isr,
  redirect_from, stubs_from, initialize_irqs, stub, handle_isr, run_handler,
}

-- The I/O APIC entry of an interrupt: its vector, and masked or not.
abbrev pub low_register : ℕ → Interrupts → ℕ
low_register irq s = s.io_apic (16 + 2 * irq)

redirect-other :
    (id irq vector k : ℕ) (s : Interrupts)
    → irq < 100
    → k < 16 + 2 * irq
    → (set_io_apic_redirection irq vector id true s).io_apic k ≡ s.io_apic k
unfolding set_io_apic_redirection
redirect-other id irq vector k s small before =
    let low : (k == (16 + 2 * irq) % 256) ≡ false = ground arith in
    let high : (k == ((16 + 2 * irq) % 256 + 1) % 256) ≡ false = ground arith in rw (high, low) refl

redirect-this :
    (id irq vector : ℕ) (s : Interrupts)
    → irq < 100
    → (set_io_apic_redirection irq vector id true s).io_apic (16 + 2 * irq) ≡ vector + 65536
unfolding set_io_apic_redirection
redirect-this id irq vector s small =
    let low : (16 + 2 * irq == (16 + 2 * irq) % 256) ≡ true = ground arith in
    let high : (16 + 2 * irq == ((16 + 2 * irq) % 256 + 1) % 256) ≡ false = ground arith in
    rw (high, low) refl

redirect_from-before :
    (n id irq k : ℕ) (s : Interrupts)
    → irq + n < 100
    → k < 16 + 2 * irq
    → (redirect_from id n irq s).io_apic k ≡ s.io_apic k
unfolding redirect_from
redirect_from-before zero id irq k s small before = refl
redirect_from-before (suc n) id irq k s small before =
    redirect_from-before n id (irq + 1) k _ (omega arith) (omega arith)
    ∙ redirect-other id irq (irq + 32) k s (omega arith) before

redirect_from-low_register :
    (n id irq k : ℕ) (s : Interrupts)
    → irq + n < 100
    → irq ≤ k
    → k < irq + n
    → low_register k (redirect_from id n irq s) ≡ k + 32 + 65536
unfolding redirect_from
redirect_from-low_register zero id irq k s small lo hi = absurd (omega arith)
redirect_from-low_register (suc n) id irq k s small lo hi = elim (ℕ_discrete k irq) [
  | yes same ↦ rw same (
      redirect_from-before n id (irq + 1) (16 + 2 * irq) _ (omega arith) (omega arith)
      ∙ redirect-this id irq (irq + 32) s (omega arith))
  | no later ↦
      redirect_from-low_register n id (irq + 1) k _ (omega arith) (omega arith) (omega arith)
]

stubs_from-handlers :
    (n i v : ℕ) (s : Interrupts)
    → (stubs_from n i s).isr_handlers v
      ≡ (if leb (i + 32) v && ltb v (i + 32 + n) then some irq_stub else s.isr_handlers v)
unfolding stubs_from install_isr
stubs_from-handlers zero i v s =
    let none_left : (leb (i + 32) v && ltb v (i + 32 + 0)) ≡ false = ground arith in
    rw none_left refl
stubs_from-handlers (suc n) i v s =
    stubs_from-handlers n (i + 1) v (install_isr (i + 32) irq_stub s)
    ∙ elim (Bool-cases (leb (i + 1 + 32) v && ltb v (i + 1 + 32 + n))) [
      | inl later ↦
          let here : (leb (i + 32) v && ltb v (i + 32 + suc n)) ≡ true = ground (arith, later) in
          rw (later, here) refl
      | inr other ↦ elim (Bool-cases (v == i + 32)) [
        | inl this ↦
            let here : (leb (i + 32) v && ltb v (i + 32 + suc n)) ≡ true = ground (arith, this) in
            rw (other, here, this) refl
        | inr apart ↦
            let gone : (leb (i + 32) v && ltb v (i + 32 + suc n)) ≡ false =
              ground (arith, other, apart) in
            rw (other, gone, apart) refl
      ]
    ]

stubs_from-io_apic : (n i : ℕ) (s : Interrupts) (k : ℕ) → (stubs_from n i s).io_apic k ≡ s.io_apic k
unfolding stubs_from install_isr
stubs_from-io_apic zero i s k = refl
stubs_from-io_apic (suc n) i s k = stubs_from-io_apic n (i + 1) (install_isr (i + 32) irq_stub s) k

module _ (irq handler : ℕ) (s : Interrupts) (small : irq < 16) where
  install_irq-isr_handlers : (v : ℕ) → (install_irq irq handler s).isr_handlers v ≡ s.isr_handlers v
  unfolding install_irq clear_mask
  install_irq-isr_handlers v = let few : ltb 24 irq ≡ false = ground (arith, small) in rw few refl

  install_irq-irq_handlers : (install_irq irq handler s).irq_handlers irq ≡ some handler
  unfolding install_irq clear_mask
  install_irq-irq_handlers =
      let few : ltb 24 irq ≡ false = ground (arith, small) in
      let here : (irq == irq) ≡ true = ground arith in rw (few, here) refl

  install_irq-low_register :
      low_register irq (install_irq irq handler s) ≡ unmasked (low_register irq s)
  unfolding install_irq clear_mask
  install_irq-low_register =
      let few : ltb 24 irq ≡ false = ground (arith, small) in
      let whole : (16 + 2 * irq) % 256 ≡ 16 + 2 * irq = omega (arith, small) in
      let here : (16 + 2 * irq == 16 + 2 * irq) ≡ true = ground arith in rw (few, whole, here) refl

stub-irq :
    (v handler : ℕ) (s : Interrupts)
    → 32 ≤ v
    → v < 48
    → s.irq_handlers (v - 32) ≡ some handler
    → stub v s ≡ (handler ∷ [], record s { ended = s.ended + 1 })
unfolding stub
stub-irq v handler s low high set =
    let inside : (leb v 47 && leb 32 v) ≡ true = ground (arith, low, high) in rw (inside, set) refl

handle_isr-irq :
    (v handler : ℕ) (s : Interrupts)
    → 32 ≤ v
    → v < 48
    → s.isr_handlers v ≡ some irq_stub
    → s.irq_handlers (v - 32) ≡ some handler
    → handle_isr v s ≡ (true, handler ∷ [], record s { ended = s.ended + 1 })
unfolding handle_isr
handle_isr-irq v handler s low high isr set =
    let calls = stub-irq v handler s low high set in
    ap (λ h. run_handler v s h) isr ∙ ap (λ r. (true, r.0, r.1)) calls

initialize_irqs-isr_handlers :
    (lapic_id max_entries irq : ℕ) (s : Interrupts)
    → irq < 16
    → (initialize_irqs true lapic_id max_entries s).1.isr_handlers (32 + irq) ≡ some irq_stub
unfolding initialize_irqs
initialize_irqs-isr_handlers lapic_id max_entries irq s small =
    let here : (leb (0 + 32) (32 + irq) && ltb (32 + irq) (0 + 32 + 16)) ≡ true =
      ground (arith, small) in
    let n = if ltb max_entries 24 then max_entries + 1 else 24 in
    let s1 = redirect_from lapic_id n 0 s in
    let stub_there : (if leb (0 + 32) (32 + irq) && ltb (32 + irq) (0 + 32 + 16)
          then some irq_stub
          else s1.isr_handlers (32 + irq))
        ≡ some irq_stub =
      rw here refl in
    stubs_from-handlers 16 0 (32 + irq) s1 ∙ stub_there

initialize_irqs-low_register :
    (lapic_id max_entries irq : ℕ) (s : Interrupts)
    → irq < 16
    → irq ≤ max_entries
    → low_register irq (initialize_irqs true lapic_id max_entries s).1 ≡ irq + 32 + 65536
unfolding initialize_irqs
initialize_irqs-low_register lapic_id max_entries irq s small there =
    let n = if ltb max_entries 24 then max_entries + 1 else 24 in
    let most : n ≤ 24 = ground arith in
    let enough : irq < n = ground (arith, small, there) in
    stubs_from-io_apic 16 0 (redirect_from lapic_id n 0 s) (16 + 2 * irq)
    ∙ redirect_from-low_register n lapic_id 0 irq s (omega (arith, most)) (omega arith)
        (omega (arith, enough))

-- Once the interrupts are initialized, and a handler is installed for one of the first 16 which the I/O
-- APIC has, an interrupt on its vector calls the handler, once, and signals its end, once; the I/O APIC
-- has its vector, and does not mask it.
pub install_irq-handle_isr :
    (irq handler lapic_id max_entries : ℕ) (s ready : Interrupts)
    → irq < 16
    → irq ≤ max_entries
    → ready ≡ install_irq irq handler (initialize_irqs true lapic_id max_entries s).1
    → (handle_isr (32 + irq) ready ≡ (true, handler ∷ [], record ready { ended = ready.ended + 1 }))
      × (low_register irq ready ≡ irq + 32)
install_irq-handle_isr irq handler lapic_id max_entries s ready small there same =
    let s1 = (initialize_irqs true lapic_id max_entries s).1 in
    let back : 32 + irq - 32 ≡ irq = omega arith in
    (
      handle_isr-irq (32 + irq) handler ready (omega arith) (omega (arith, small))
          (ap (λ x. x.isr_handlers (32 + irq)) same
            ∙ install_irq-isr_handlers irq handler s1 small (32 + irq)
            ∙ initialize_irqs-isr_handlers lapic_id max_entries irq s small)
          (ap (λ k. ready.irq_handlers k) back
            ∙ ap (λ x. x.irq_handlers irq) same
            ∙ install_irq-irq_handlers irq handler s1 small),
      ap (λ x. low_register irq x) same
          ∙ install_irq-low_register irq handler s1 small
          ∙ ap (λ v. unmasked v)
              (initialize_irqs-low_register lapic_id max_entries irq s small there)
          ∙ omega (arith, small),
    )
