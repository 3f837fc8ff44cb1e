-- ===== src/Pci/Search.antt =====
-- What PCIFindDevice finds, and what it does where there is nothing to find.
use staxus.Base.{
  ℕ, zero, suc, ◌+◌, ◌%◌, ◌<◌, ◌≤◌, ◌≡◌, refl, inl, inr, subst, true, Option, none, some, ltb,
  arith, Bool-cases,
}
use staxus.Pci.{PciDevice, matches, find_func_from, find_slot_from, find_bus_from, pci_find_device}

module _ (config : ℕ → ℕ) (class_code sub_class prog_if : ℕ) where
  -- A function of the bus that replies with the three codes.
  pub record Matched (d : PciDevice) : Type 0 where
    pub codes : matches config class_code sub_class prog_if d.bus d.slot d.func ≡ true
    pub slot-lt : d.slot < 32
    pub func-lt : d.func < 8

  abbrev AllMatched : Option PciDevice → Type 0
  AllMatched none = Unit
  AllMatched (some d) = Matched d

  find_func_from-AllMatched :
      (n bus slot func : ℕ)
      → slot < 32
      → func + n ≤ 8
      → AllMatched (find_func_from config class_code sub_class prog_if n bus slot func)
  unfolding find_func_from
  find_func_from-AllMatched zero bus slot func low few = tt
  find_func_from-AllMatched (suc n) bus slot func low few =
      elim (Bool-cases (matches config class_code sub_class prog_if bus slot func)) [
        | inl this ↦ rw this (record { codes = this; slot-lt = low; func-lt = omega arith })
        | inr other ↦ rw other (find_func_from-AllMatched n bus slot (func + 1) low (omega arith))
      ]

  AllMatched-or :
      (o rest : Option PciDevice)
      → AllMatched o
      → AllMatched rest
      → AllMatched (elim o [ none ↦ rest | some d ↦ some d ])
  AllMatched-or none rest h k = k
  AllMatched-or (some d) rest h k = h

  find_slot_from-AllMatched :
      (n bus slot : ℕ)
      → slot + n ≤ 32
      → AllMatched (find_slot_from config class_code sub_class prog_if n bus slot)
  unfolding find_slot_from
  find_slot_from-AllMatched zero bus slot few = tt
  find_slot_from-AllMatched (suc n) bus slot few =
      AllMatched-or (find_func_from config class_code sub_class prog_if 8 bus slot 0) _
        (find_func_from-AllMatched 8 bus slot 0 (omega arith) (omega arith))
        (find_slot_from-AllMatched n bus (slot + 1) (omega arith))

  -- A search that ends has found a function.
  abbrev Ended : Option (Option PciDevice) → Type 0
  Ended none = Unit
  Ended (some none) = ⊥
  Ended (some (some d)) = Matched d

  Ended-bus :
      (o : Option PciDevice) (rest : Option (Option PciDevice))
      → AllMatched o
      → Ended rest
      → Ended (elim o [ none ↦ rest | some d ↦ some (some d) ])
  Ended-bus none rest h k = k
  Ended-bus (some d) rest h k = h

  find_bus_from-Ended :
      (f bus : ℕ) → bus < 256 → Ended (find_bus_from config class_code sub_class prog_if f bus)
  unfolding find_bus_from
  find_bus_from-Ended zero bus small = tt
  find_bus_from-Ended (suc f) bus small =
      let inside : ltb bus 256 ≡ true = ground (arith, small) in
      rw inside (
        Ended-bus (find_slot_from config class_code sub_class prog_if 32 bus 0) _
          (find_slot_from-AllMatched 32 bus 0 (omega arith))
          (find_bus_from-Ended f ((bus + 1) % 256) (omega arith)))

  -- Whatever the fuel, PCIFindDevice ends with a function that replies with the three codes, in a slot
  -- below 32 and with a number below 8, or does not end: it never returns that there is none.
  pub pci_find_device-Matched :
      (f : ℕ) (r : Option PciDevice)
      → pci_find_device config class_code sub_class prog_if f ≡ some r
      → (d : PciDevice) × (r ≡ some d) × Matched d
  unfolding pci_find_device
  pci_find_device-Matched f none ends =
      absurd (subst (λ x. Ended x) ends (find_bus_from-Ended f 0 (omega arith)))
  pci_find_device-Matched f (some d) ends =
      (d, refl, subst (λ x. Ended x) ends (find_bus_from-Ended f 0 (omega arith)))
