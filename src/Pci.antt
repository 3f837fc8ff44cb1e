-- ===== src/Pci.antt =====
-- bus/pci.c: the search for a device. The reply of the configuration space to an address is a parameter;
-- reads do not change it. `none`: the fuel ran out.
pub mod Search
pub mod Tests
use staxus.Base.{
  ℕ, zero, suc, ◌+◌, ◌*◌, ◌/◌, ◌%◌, Bool, not, ◌&&◌, Option, none, some, ◌==◌, ltb, if◌then◌else◌,
}

-- `PCIDevice` that was found.
pub record PciDevice : Type 0 where
  pub bus : ℕ
  pub slot : ℕ
  pub func : ℕ

-- The address of a register. A slot has 5 bits, a function 3 and an offset is taken without its two
-- lowest bits, so the parts do not overlap and `|` adds them.
unfoldable pub config_address : ℕ → ℕ → ℕ → ℕ → ℕ
config_address bus slot func offset =
    bus * 65536 + slot * 2048 + func * 256 + offset / 4 * 4 % 256 + 2147483648

module _ (config : ℕ → ℕ) where
  unfoldable pub read_config_dword : ℕ → ℕ → ℕ → ℕ → ℕ
  unfolding config_address
  read_config_dword bus slot func offset = config (config_address bus slot func offset) % 4294967296

  -- `cls == classCode && sub == subClass && prog == progIF`
  unfoldable pub matches : ℕ → ℕ → ℕ → ℕ → ℕ → ℕ → Bool
  matches class_code sub_class prog_if bus slot func =
      let reply = read_config_dword bus slot func 0x08 in
      reply / 16777216 % 256 == class_code
      && (reply / 65536 % 256 == sub_class && reply / 256 % 256 == prog_if)

  module _ (class_code sub_class prog_if : ℕ) where
    -- `n` functions of a slot from `func` on.
    unfoldable pub find_func_from : ℕ → ℕ → ℕ → ℕ → Option PciDevice
    find_func_from zero bus slot func = none
    find_func_from (suc n) bus slot func =
        let rest = find_func_from n bus slot (func + 1) in
        if matches class_code sub_class prog_if bus slot func
        then some (record { bus = bus; slot = slot; func = func })
        else rest

    -- `n` slots of a bus from `slot` on.
    unfoldable pub find_slot_from : ℕ → ℕ → ℕ → Option PciDevice
    unfolding find_func_from
    find_slot_from zero bus slot = none
    find_slot_from (suc n) bus slot =
        let rest = find_slot_from n bus (slot + 1) in
        elim (find_func_from 8 bus slot 0) [ none ↦ rest | some d ↦ some d ]

    -- The loop over the buses. `bus` is a byte: after bus 255 the loop goes on with bus 0, since
    -- `bus < 256` always holds. The outer `none` is the end of the fuel.
    unfoldable pub find_bus_from : ℕ → ℕ → Option (Option PciDevice)
    unfolding find_slot_from
    find_bus_from zero bus = none
    find_bus_from (suc f) bus =
        let rest = find_bus_from f ((bus + 1) % 256) in
        if not (ltb bus 256)
        then some none
        else elim (find_slot_from 32 bus 0) [ none ↦ rest | some d ↦ some (some d) ]

    unfoldable pub pci_find_device : ℕ → Option (Option PciDevice)
    unfolding find_bus_from
    pci_find_device f = find_bus_from f 0

  unfoldable pub pci_read_bar : PciDevice → ℕ → ℕ
  unfolding read_config_dword
  pci_read_bar d bar = read_config_dword d.bus d.slot d.func ((16 + bar * 4) % 256)
