-- ===== src/Pci/Tests.antt =====
-- The theorem on the bus at one whose first function is a SATA controller.
use staxus.Base.{ℕ, ◌≡◌, refl, some}
use staxus.Pci.{PciDevice, pci_find_device, read_config_dword, matches}
use staxus.Pci.Search.{Matched, pci_find_device-Matched}

-- Class 1, subclass 6, interface 1, for every register.
abbrev replies : ℕ → ℕ
replies address = 17170688

abbrev first_func : PciDevice
first_func = record { bus = 0; slot = 0; func = 0 }

found_first : pci_find_device replies 1 6 1 2 ≡ some (some first_func)
unfolding pci_find_device matches read_config_dword
found_first = refl

pci_find_device-Matched_example :
    (d : PciDevice) × (some first_func ≡ some d) × Matched replies 1 6 1 d
pci_find_device-Matched_example =
    pci_find_device-Matched replies 1 6 1 2 (some first_func) found_first
