-- ===== src/Arch/Pci/Tests.antt =====
-- A bus with one device, and the theorems on pci.c applied there.
use mksd_old_archive.Base.{ℕ, ◌+◌, ◌*◌, ◌^◌, refl, [], ◌∷◌, ◌==◌, if◌then◌else◌}
use mksd_old_archive.Arch.Ports.{Access, Device}
use mksd_old_archive.Arch.Pci.{PciDevice, pci_find}
use mksd_old_archive.Arch.Pci.Address.{Mechanism}
use mksd_old_archive.Arch.Pci.Find.{has_ids, Finds, pci_find-Finds}

-- The RTL8139 in slot 3 of bus 0; each other dword reads as ones.
abbrev space : ℕ → ℕ
space a =
    if a == 2 ^ 31 + 3 * 2 ^ 11
    then 0x813910EC
    else if a == 2 ^ 31 + 3 * 2 ^ 11 + 8
    then 0x02000010
    else 0xFFFFFFFF

-- A host bridge that latches the last address.
abbrev bridge : Device
bridge (Access.outl port value ∷ log) p = space value
bridge log p = 0

follows : Mechanism bridge space
follows log a = refl

abbrev nic : PciDevice
nic = record { bars = []; bus = 0; slot = 3; func = 0; irq_line = 0 }

pci_find-Finds_example :
    Finds space 0 (has_ids space 0x10EC 0x8139) ((pci_find bridge 0 0x10EC 0x8139 []).0)
pci_find-Finds_example = pci_find-Finds bridge space 0 0x10EC 0x8139 [] follows
