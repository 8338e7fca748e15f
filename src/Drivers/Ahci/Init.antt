-- ===== src/Drivers/Ahci/Init.antt =====
-- init_ports and ahci_init of ahci.c: the ports of the HBA and their names in /dev, on Arch/Pci, Fs
-- and Text/Snprintf. Bit-and binds weaker than a comparison in C.
use mksd_old_archive.Base.{
  ℕ, zero, suc, ◌+◌, ◌*◌, ◌^◌, none, some, [], ◌∷◌, ◌==◌, if◌then◌else◌, Memory, memzero, get_or,
}
use mksd_old_archive.Base.Outcome.{Outcome, ◌>>=◌}
use mksd_old_archive.Base.Layout.{sizeof, offsetof}
use mksd_old_archive.Arch.Ports.{Log, Device}
use mksd_old_archive.Arch.Pci.{PciDevice, pci_find_any, pci_enable_bus_mastering}
use mksd_old_archive.Mm.Pmm.{Pmm}
use mksd_old_archive.Text.Snprintf.{snprintf}
use mksd_old_archive.Fs.{HashMap, Vfs, devfs_register_device}
use mksd_old_archive.Drivers.Ahci.{read, set_bits, clear_bits, has, get_drive_type, read_hba_cap}
use mksd_old_archive.Drivers.Ahci.Structs.{hba_port, hba_mem}
use mksd_old_archive.Drivers.Ahci.Handoff.{take_ownership}
use mksd_old_archive.Drivers.Ahci.Command.{Hba}
use mksd_old_archive.Drivers.Ahci.Ports.{Host, init_port_single}

-- The host, the ports of the PCI bus, what `pci_init_dev` finds in `irq_line`, the fuel of the
-- loops over strings, the addresses of `fops` and of the literals "sda" and "sda%d", and the
-- blocks from kmalloc: `drive_id`, and that of the node of each drive.
pub record Context : Type 0 where
  pub host : Host
  pub pci : Device
  pub irq_line : ℕ
  pub text_fuel : ℕ
  pub fops : ℕ
  pub sda : ℕ
  pub sda_format : ℕ
  pub drive_id : ℕ
  pub node : ℕ → ℕ

-- `abar` and the variables of `Hba` are those of ahci.c, `dec_string` is the buffer of dec2str.
pub record System (H : HashMap) : Type 0 where
  pub abar : ℕ
  pub n_hba_ports : ℕ
  pub hba : Hba
  pub pmm : Pmm
  pub vfs : Vfs H
  pub dec_string : Memory

abbrev pub set_log : {H : HashMap} → Log → System H → System H
set_log log s = let hba : Hba = record s.hba { log = log } in record s { hba = hba }

-- `&abar->ports[i]`
abbrev pub port_at : ℕ → ℕ → ℕ
port_at abar i = abar + offsetof hba_mem "ports" + sizeof hba_port * i

-- The name of drive `drive_count` and its node.
unfoldable pub register_drive : (H : HashMap) → Context → ℕ → System H → Outcome (System H)
register_drive H c drive_count s =
    if drive_count == 0
    then devfs_register_device H c.text_fuel (c.node 0) c.sda c.fops s.vfs
      >>= (λ vfs. Outcome.done (record s { vfs = vfs }))
    else snprintf c.text_fuel c.drive_id 23 c.sda_format (drive_count ∷ []) s.dec_string
        s.vfs.memory
      >>= (λ p.
          let named : Vfs H = record s.vfs { memory = p.memory } in
          devfs_register_device H c.text_fuel (c.node drive_count) c.drive_id c.fops named
          >>= (λ vfs. Outcome.done (record s { vfs = vfs; dec_string = p.dec_string })))

-- `memzero(drive_id, 23)`
abbrev pub clear_id : {H : HashMap} → ℕ → System H → System H
clear_id drive_id s =
    let vfs : Vfs _ = record s.vfs { memory = memzero drive_id 23 s.vfs.memory } in
    record s { vfs = vfs }

-- The case of a SATA drive, with the new `drive_count`.
unfoldable pub add_drive : (H : HashMap) → Context → ℕ → ℕ → System H → Outcome (ℕ × System H)
add_drive H c port drive_count s = init_port_single c.host port s.hba s.pmm >>= (λ (hba, pmm).
    let main_drive = if hba.main_drive == 0 then port else hba.main_drive in
    let chosen : Hba = record hba { main_drive = main_drive } in
    register_drive H c drive_count (record s { hba = chosen; pmm = pmm })
    >>= (λ s'. Outcome.done (drive_count + 1, clear_id c.drive_id s')))

-- A port that `pi` names.
unfoldable pub check_port : (H : HashMap) → Context → ℕ → ℕ → System H → Outcome (ℕ × System H)
check_port H c i drive_count s =
    let (dt, log) = get_drive_type c.host.disk (port_at s.abar i) s.hba.log in
    if dt == 1
    then add_drive H c (port_at s.abar i) drive_count (set_log log s)
    else Outcome.done (drive_count, set_log log s)

-- The loop from port `i` with `n` rounds left.
unfoldable pub ports_from : (H : HashMap) → Context → ℕ → ℕ → ℕ → ℕ → System H → Outcome (System H)
ports_from H c pi zero i drive_count s = Outcome.done s
ports_from H c pi (suc n) i drive_count s =
    (if has (2 ^ i) pi then check_port H c i drive_count s else Outcome.done (drive_count, s))
    >>= (λ (count, s'). ports_from H c pi n (i + 1) count s')

unfoldable pub init_ports : (H : HashMap) → Context → System H → Outcome (System H)
init_ports H c s =
    let (pi, log) = read c.host.disk (s.abar + offsetof hba_mem "pi") s.hba.log in
    ports_from H c pi 32 0 0 (set_log log s)

-- `ahci_init` once the HBA is the driver's.
unfoldable pub start_hba : (H : HashMap) → Context → System H → Outcome (System H)
start_hba H c s =
    let disk = c.host.disk in
    let log₁ = set_bits disk (s.abar + offsetof hba_mem "ghc") (2 ^ 31) s.hba.log in
    let (cap, log₂) =
      read_hba_cap disk s.abar (clear_bits disk (s.abar + offsetof hba_mem "ghc") (2 ^ 1) log₁) in
    elim cap [
      | none ↦ Outcome.done (set_log log₂ s)
      | some (n_hba_ports, n_cmdslots) ↦
          let hba : Hba = record s.hba { n_cmdslots = n_cmdslots; log = log₂ } in
          init_ports H c (record s { n_hba_ports = n_hba_ports; hba = hba })
    ]

-- `ahci_init` once the device is found.
unfoldable pub attach : (H : HashMap) → Context → PciDevice → System H → Outcome (System H)
attach H c dev s =
    let abar = get_or dev.bars 5 0 in
    let log₁ = pci_enable_bus_mastering c.pci dev s.hba.log in
    let (failed, _, log₂) = take_ownership c.host.disk abar log₁ in
    let s₁ : System H = record (set_log log₂ s) { abar = abar } in
    if failed == 0 then start_hba H c s₁ else Outcome.done s₁

unfoldable pub ahci_init : (H : HashMap) → Context → System H → Outcome (System H)
ahci_init H c s =
    let (found, log) = pci_find_any c.pci c.irq_line 0x1 0x6 0xFF s.hba.log in
    elim found [ none ↦ Outcome.done (set_log log s) | some dev ↦ attach H c dev (set_log log s) ]
