-- ===== src/Drivers/Ahci/Ports.antt =====
-- get_port_info and init_port_single of ahci.c: the set-up of one port.
use mksd_old_archive.Base.{
  ℕ, zero, suc, ◌+◌, ◌*◌, bit_or, Option, none, some, u32, u64, ◌<<<◌, ◌>>>◌, Memory, store,
  store_word, memzero, memcpy,
}
use mksd_old_archive.Base.Outcome.{Outcome, ◌>>=◌}
use mksd_old_archive.Base.Layout.{sizeof, offsetof}
use mksd_old_archive.Arch.Ports.{Log, Device}
use mksd_old_archive.Mm.Pmm.{Pmm, pmm_alloc}
use mksd_old_archive.Drivers.Ahci.Structs.{fis_reg_h2d, hba_cmd_header, hba_prdt_entry, hba_cmd_tbl}
use mksd_old_archive.Drivers.Ahci.{
  register, read, write, find_cmdslot, stop_cmd_engine, start_cmd_engine, send_cmd, swap_endianess,
}
use mksd_old_archive.Drivers.Ahci.Command.{Hba, set_field, build_header, table_of}

-- The disk, what it has written to memory after the accesses of a log, the fuel of the waits,
-- VMM_HIGHER_HALF, and the two blocks from kmalloc in `get_port_info`.
pub record Host : Type 0 where
  pub disk : Device
  pub dma : Log → Memory → Memory
  pub fuel : ℕ
  pub higher_half : ℕ
  pub serial_num : ℕ
  pub model_num : ℕ

abbrev pub or_undefined {ℓ} : {A : Type ℓ} → Option A → Outcome A
or_undefined none = Outcome.undefined
or_undefined (some a) = Outcome.done a

abbrev pub or_waits {ℓ} : {A : Type ℓ} → Option A → Outcome A
or_waits none = Outcome.waits
or_waits (some a) = Outcome.done a

-- The table of the command IDENTIFY, and its buffer.
unfoldable pub build_identify : ℕ → ℕ → ℕ → Memory → Memory
build_identify higher_half tbl buf m =
    let entry = tbl + offsetof hba_cmd_tbl "prdt" in
    let m₁ = memzero (u64 (buf + higher_half)) 4096 (memzero tbl (sizeof hba_cmd_tbl) m) in
    let m₂ = store_word 4 (entry + offsetof hba_prdt_entry "dba") (u32 buf) m₁ in
    let m₃ = store_word 4 (entry + offsetof hba_prdt_entry "dbau") (u32 (buf >>> 32)) m₂ in
    let m₄ = store_word 4 (entry + offsetof hba_prdt_entry "dbc") 511 m₃ in
    let m₅ = store (tbl + offsetof fis_reg_h2d "command") 0xEC m₄ in
    let m₆ = set_field (tbl + 1) 7 1 1 m₅ in store tbl 0x27 m₆

-- The serial number and the model, as they are printed.
unfoldable pub copy_identity : Host → ℕ → Memory → Memory
copy_identity h buf m =
    let m₁ = swap_endianess h.serial_num 20 (memcpy h.serial_num (buf + 20) 20 m) in
    swap_endianess h.model_num 40 (memcpy h.model_num (buf + 54) 40 m₁)

-- `get_port_info` once it has a command slot.
unfoldable pub identify : Host → ℕ → ℕ → Hba → Pmm → Outcome (Hba × Pmm)
identify h port slot s pmm =
    let (clbu, log₁) = read h.disk (register port "clbu") s.log in
    let (clb, log₂) = read h.disk (register port "clb") log₁ in
    let hdr = u64 (bit_or (u64 (clbu <<< 32)) clb + h.higher_half + sizeof hba_cmd_header * slot) in
    let m₁ = build_header hdr 0 s.memory in
    let tbl = u64 (table_of hdr m₁ + h.higher_half) in
    or_undefined (pmm_alloc 1 pmm) >>= (λ (buf, pmm').
      or_waits (send_cmd h.disk h.fuel port slot log₂) >>= (λ log₃.
        let m₂ = h.dma log₃ (build_identify h.higher_half tbl buf m₁) in
        Outcome.done (record s { log = log₃; memory = copy_identity h buf m₂ }, pmm')))

unfoldable pub get_port_info : Host → ℕ → Hba → Pmm → Outcome (Hba × Pmm)
get_port_info h port s pmm =
    let (_, log₁) = read h.disk (register port "cmd") s.log in
    let (_, log₂) = read h.disk (register port "cmd") log₁ in
    let (cmdslot, log₃) = find_cmdslot h.disk s.n_cmdslots port log₂ in
    let s₁ : Hba = record s { log = log₃ } in
    elim cmdslot [ none ↦ Outcome.done (s₁, pmm) | some slot ↦ identify h port slot s₁ pmm ]

-- The loop over the 32 headers from `i` with `n` rounds left.
unfoldable pub alloc_tables : ℕ → ℕ → ℕ → Memory → Pmm → Option (Memory × Pmm)
alloc_tables zero i hdr m pmm = some (m, pmm)
alloc_tables (suc n) i hdr m pmm = elim (pmm_alloc 1 pmm) [
  | none ↦ none
  | some (desc_base, pmm') ↦
      let h = hdr + sizeof hba_cmd_header * i in
      let m₁ = store_word 4 (h + offsetof hba_cmd_header "ctba") (u32 desc_base) m in
      let m₂ = store_word 4 (h + offsetof hba_cmd_header "ctbau") (u32 (desc_base >>> 32)) m₁ in
      alloc_tables n (i + 1) hdr m₂ pmm'
]

-- The registers of the port for the command list and for received FISes.
abbrev pub set_bases : ℕ → ℕ → ℕ → Log → Log
set_bases port clb fb log = write (register port "fbu") (u32 (fb >>> 32)) (
    write (register port "fb") (u32 fb)
      (write (register port "clbu") (u32 (clb >>> 32)) (write (register port "clb") (u32 clb) log)))

unfoldable pub init_port_single : Host → ℕ → Hba → Pmm → Outcome (Hba × Pmm)
init_port_single h port s pmm = or_waits (stop_cmd_engine h.disk h.fuel port s.log) >>= (λ log₁.
    or_undefined (pmm_alloc 1 pmm) >>= (λ (clb, pmm₁).
      or_undefined (pmm_alloc 1 pmm₁) >>= (λ (fb, pmm₂).
        let (base, log₂) = read h.disk (register port "clb") (set_bases port clb fb log₁) in
        let hdr = u64 (base + h.higher_half) in
        or_undefined (alloc_tables 32 0 hdr s.memory pmm₂) >>= (λ (m, pmm₃).
          or_waits (start_cmd_engine h.disk h.fuel port log₂) >>= (λ log₃.
            get_port_info h port (record s { log = log₃; memory = store_word 2 (hdr + 2) 1 m })
              pmm₃)))))
