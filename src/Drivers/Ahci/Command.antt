-- ===== src/Drivers/Ahci/Command.antt =====
-- prep_rw_op, ahci_read_drive and ahci_write_drive of ahci.c: a command in the memory that the HBA
-- reads. Bit fields stand in the order in which GCC lays them out on x86-64, the lowest bit first.
use mksd_old_archive.Base.{
  ℕ, ◌+◌, ◌-◌, ◌*◌, ◌/◌, ◌%◌, ◌^◌, bit_and, bit_or, Option, none, some, if◌then◌else◌, ◌==◌, u8,
  u32, u64, ◌<<<◌, ◌>>>◌, complement, Memory, store, store_word, memzero,
}
use mksd_old_archive.Base.Layout.{sizeof, offsetof, member}
use mksd_old_archive.Arch.Ports.{Log, Device}
use mksd_old_archive.Drivers.Ahci.Structs.{fis_reg_h2d, hba_cmd_header, hba_prdt_entry, hba_cmd_tbl}
use mksd_old_archive.Drivers.Ahci.{register, read, find_cmdslot, send_cmd}

-- The variables of ahci.c that commands use, the memory that the HBA shares, and the log.
pub record Hba : Type 0 where
  pub main_drive : ℕ
  pub n_cmdslots : ℕ
  pub memory : Memory
  pub log : Log

-- `x->field = value` for a field of `width` bits from bit `shift` of the byte at `p`.
unfoldable pub set_field : ℕ → ℕ → ℕ → ℕ → Memory → Memory
set_field p shift width value m =
    store p
      (bit_or (bit_and (u8 (m p)) (complement 8 ((2 ^ width - 1) * 2 ^ shift)))
        (value % 2 ^ width * 2 ^ shift))
      m

-- `sizeof(FIS_REG_H2D)/sizeof(uint32_t)`
abbrev pub fis_words : ℕ
fis_words = sizeof fis_reg_h2d / 4

-- The command header at `hdr`.
unfoldable pub build_header : ℕ → ℕ → Memory → Memory
build_header hdr write m =
    let m₁ = store_word 2 (hdr + offsetof hba_cmd_header "prdtl") 1 m in
    let m₂ = set_field hdr 0 5 fis_words m₁ in
    let m₃ = set_field hdr 6 1 write m₂ in set_field hdr 7 1 0 m₃

-- The address of the command table that the header at `hdr` names.
unfoldable pub table_of : ℕ → Memory → ℕ
table_of hdr m =
    bit_or (u64 (member hba_cmd_header "ctbau" m hdr <<< 32)) (member hba_cmd_header "ctba" m hdr)

-- The entry of the table `tbl` for a buffer of `n_sectors`.
unfoldable pub build_prdt : ℕ → ℕ → ℕ → Memory → Memory
build_prdt tbl buf n_sectors m =
    let entry = tbl + offsetof hba_cmd_tbl "prdt" in
    let m₁ = store_word 4 (entry + offsetof hba_prdt_entry "dba") (u32 buf) m in
    let m₂ = store_word 4 (entry + offsetof hba_prdt_entry "dbau") (u32 (buf >>> 32)) m₁ in
    let m₃ =
      store_word 4 (entry + offsetof hba_prdt_entry "dbc") (u32 (n_sectors * 512 + 2 ^ 32 - 1))
        m₂ in
    set_field (entry + offsetof hba_prdt_entry "i") 0 1 0 m₃

-- The command FIS at the start of the table.
unfoldable pub build_fis : ℕ → ℕ → ℕ → ℕ → Memory → Memory
build_fis cmd lba n_sectors write m =
    let m₁ = store (cmd + offsetof fis_reg_h2d "fis_type") 0x27 m in
    let m₂ = store (cmd + offsetof fis_reg_h2d "command") (if write == 0 then 0x25 else 0x35) m₁ in
    let m₃ = set_field (cmd + 1) 7 1 1 m₂ in
    let m₄ = store (cmd + offsetof fis_reg_h2d "lba0") (u8 lba) m₃ in
    let m₅ = store (cmd + offsetof fis_reg_h2d "lba1") (u8 (lba >>> 8)) m₄ in
    let m₆ = store (cmd + offsetof fis_reg_h2d "lba2") (u8 (lba >>> 16)) m₅ in
    let m₇ = store (cmd + offsetof fis_reg_h2d "device") 64 m₆ in
    let m₈ = store (cmd + offsetof fis_reg_h2d "lba3") (u8 (lba >>> 24)) m₇ in
    let m₉ = store (cmd + offsetof fis_reg_h2d "lba4") (u8 (lba >>> 32)) m₈ in
    let m₁₀ = store (cmd + offsetof fis_reg_h2d "lba5") (u8 (lba >>> 40)) m₉ in
    let m₁₁ = store (cmd + offsetof fis_reg_h2d "countl") (u8 n_sectors) m₁₀ in
    store (cmd + offsetof fis_reg_h2d "counth") (u8 (n_sectors >>> 8)) m₁₁

-- The header, the empty table, its entry and the command.
unfoldable pub build_command : ℕ → ℕ → ℕ → ℕ → ℕ → ℕ → Memory → Memory
build_command higher_half hdr lba buf n_sectors write m =
    let m₁ = build_header hdr write m in
    let tbl = u64 (table_of hdr m₁ + higher_half) in
    let m₂ = memzero tbl (sizeof hba_cmd_tbl) m₁ in
    build_fis tbl lba n_sectors write (build_prdt tbl buf n_sectors m₂)

-- `higher_half` is VMM_HIGHER_HALF.
unfoldable pub prep_rw_op : Device → ℕ → ℕ → ℕ → ℕ → ℕ → ℕ → Hba → Hba
prep_rw_op device higher_half lba buf_phys n_sectors cmdslot write s =
    let (clbu, log₁) = read device (register s.main_drive "clbu") s.log in
    let (clb, log₂) = read device (register s.main_drive "clb") log₁ in
    let hdr =
      u64 (bit_or (u64 (clbu <<< 32)) clb + higher_half + sizeof hba_cmd_header * cmdslot) in
    record s {
      log = log₂;
      memory = build_command higher_half hdr lba buf_phys n_sectors write s.memory;
    }

-- The body that `ahci_read_drive` and `ahci_write_drive` share.
unfoldable pub access_drive : Device → ℕ → ℕ → ℕ → ℕ → ℕ → ℕ → Hba → Option (ℕ × Hba)
access_drive device fuel higher_half write lba buf_phys n_sectors s =
    let (cmdslot, log₁) = find_cmdslot device s.n_cmdslots s.main_drive s.log in
    let s₁ : Hba = record s { log = log₁ } in
    elim cmdslot [
      | none ↦ some (1, s₁)
      | some slot ↦
          let s₂ = prep_rw_op device higher_half lba buf_phys n_sectors slot write s₁ in
          elim (send_cmd device fuel s₂.main_drive slot s₂.log) [
            | none ↦ none
            | some log₃ ↦ some (0, record s₂ { log = log₃ })
          ]
    ]

abbrev pub ahci_write_drive : Device → ℕ → ℕ → ℕ → ℕ → ℕ → Hba → Option (ℕ × Hba)
ahci_write_drive device fuel higher_half = access_drive device fuel higher_half 1

abbrev pub ahci_read_drive : Device → ℕ → ℕ → ℕ → ℕ → ℕ → Hba → Option (ℕ × Hba)
ahci_read_drive device fuel higher_half = access_drive device fuel higher_half 0
