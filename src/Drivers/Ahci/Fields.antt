-- ===== src/Drivers/Ahci/Fields.antt =====
-- What the HBA reads of a command that prep_rw_op of ahci.c has built, by the names of the fields.
use mksd_old_archive.Base.{
  ℕ, ◌+◌, ◌*◌, ◌/◌, ◌%◌, ◌^◌, ◌<◌, ◌≡◌, ap, sym, subst, ◌∙◌, arith, if◌then◌else◌, ◌==◌, u8, Memory,
  load,
}
use mksd_old_archive.Base.Layout.{sizeof, member}
use mksd_old_archive.Drivers.Ahci.Structs.{fis_reg_h2d, hba_cmd_header, hba_prdt_entry, hba_cmd_tbl}
use mksd_old_archive.Drivers.Ahci.Command.{table_of, build_command}
use mksd_old_archive.Drivers.Ahci.Fis.{IsFis, IsPrdt}
use mksd_old_archive.Drivers.Ahci.Built.{IsHeader, Placed, build_command-IsFis}

-- The command header at `hdr`: one entry in the table, a command as long as a FIS, and the direction.
pub record Header (m : Memory) (hdr write : ℕ) : Type 0 where
  pub prdtl : member hba_cmd_header "prdtl" m hdr ≡ 1
  pub cfl : 4 * member hba_cmd_header "cfl" m hdr ≡ sizeof fis_reg_h2d
  pub w : member hba_cmd_header "w" m hdr ≡ write
  pub p : member hba_cmd_header "p" m hdr ≡ 0

-- The table entry at `e`: the address of the buffer, and its bytes less 1.
pub record PrdtEntry (m : Memory) (e buf n : ℕ) : Type 0 where
  pub dba : member hba_prdt_entry "dba" m e ≡ buf % 2 ^ 32
  pub dbau : member hba_prdt_entry "dbau" m e ≡ buf / 2 ^ 32
  pub dbc : member hba_prdt_entry "dbc" m e + 1 ≡ 512 * n

-- The command FIS at `t`: a command to the drive itself, with 48 bits of block address.
pub record RegH2d (m : Memory) (t lba n write : ℕ) : Type 0 where
  pub fis_type : member fis_reg_h2d "fis_type" m t ≡ 0x27
  pub pmport : member fis_reg_h2d "pmport" m t ≡ 0
  pub c : member fis_reg_h2d "c" m t ≡ 1
  pub command : member fis_reg_h2d "command" m t ≡ (if write == 0 then 0x25 else 0x35)
  pub device : member fis_reg_h2d "device" m t ≡ 64
  pub block :
      member fis_reg_h2d "lba0" m t
        + 2 ^ 8 * member fis_reg_h2d "lba1" m t
        + 2 ^ 16 * member fis_reg_h2d "lba2" m t
        + 2 ^ 24 * member fis_reg_h2d "lba3" m t
        + 2 ^ 32 * member fis_reg_h2d "lba4" m t
        + 2 ^ 40 * member fis_reg_h2d "lba5" m t
      ≡ lba
  pub count : member fis_reg_h2d "countl" m t + 2 ^ 8 * member fis_reg_h2d "counth" m t ≡ n

load-byte : (m : Memory) (a b : ℕ) → a ≡ b → load 1 m a ≡ u8 (m b)
unfolding load
load-byte m a b e = ap (load 1 m) e ∙ omega arith

IsHeader-Header :
    (m : Memory) (hdr write : ℕ) → write < 2 → IsHeader m hdr write → Header m hdr write
IsHeader-Header m hdr write l h =
    let byte = load-byte m (hdr + 0) hdr (omega arith) in
    record {
      prdtl = h.prdtl;
      cfl = omega (arith, byte, h.cfl);
      w = omega (arith, byte, h.w);
      p = omega (arith, byte, h.w);
    }

IsPrdt-PrdtEntry :
    (m : Memory) (t buf n : ℕ)
    → IsPrdt m t buf n
    → PrdtEntry m (member hba_cmd_tbl "prdt" m t) buf n
IsPrdt-PrdtEntry m t buf n h = record {
  dba = ap (load 4 m) (omega arith) ∙ h.dba;
  dbau = ap (load 4 m) (omega arith) ∙ h.dbau;
  dbc = ap (λ (a : ℕ). load 4 m a + 1) (omega arith) ∙ h.dbc;
}

IsFis-RegH2d : (m : Memory) (t lba n write : ℕ) → IsFis m t lba n write → RegH2d m t lba n write
IsFis-RegH2d m t lba n write h =
    let byte : (i : ℕ) → load 1 m (t + i) ≡ u8 (m (t + i)) =
      λ i. load-byte m (t + i) (t + i) (omega arith) in
    record {
      fis_type = omega (arith, load-byte m (t + 0) t (omega arith), h.fis_type);
      pmport = omega (arith, byte 1, h.is_command);
      c = omega (arith, byte 1, h.is_command);
      command = byte 2 ∙ ground (arith, h.command);
      device = omega (arith, byte 7, h.device);
      block = omega (arith, byte 4, byte 5, byte 6, byte 8, byte 9, byte 10, h.sets_lba);
      count = omega (arith, byte 12, byte 13, h.sets_count);
    }

-- Where the table that a header names has its place: after `prep_rw_op` has built a command for 1 to
-- 255 sectors, the fields of the header, of the entry of the table and of the command FIS, at the
-- places that C gives them in the structs of ahci.h, hold one table entry, the length of a FIS and
-- the direction; the buffer and its size; and the operation, the block address and the number of
-- sectors that were asked for.
pub build_command-Fields :
    (higher_half hdr lba buf n write : ℕ) (m : Memory)
    → Placed higher_half hdr m
    → lba < 2 ^ 48
    → buf < 2 ^ 64
    → 0 < n
    → n < 256
    → write < 2
    → let whole = build_command higher_half hdr lba buf n write m in
      let t = table_of hdr m + higher_half in
      Header whole hdr write
      × PrdtEntry whole (member hba_cmd_tbl "prdt" whole t) buf n
      × RegH2d whole (member hba_cmd_tbl "cfis" whole t) lba n write
build_command-Fields higher_half hdr lba buf n write m placed small_lba small pos l dir =
    let whole = build_command higher_half hdr lba buf n write m in
    let t = table_of hdr m + higher_half in
    let (header, prdt, fis) =
      build_command-IsFis higher_half hdr lba buf n write m placed small_lba small pos l dir in
    let at_start : t + 0 ≡ t = omega arith in
    (
      IsHeader-Header whole hdr write dir header,
      IsPrdt-PrdtEntry whole t buf n prdt,
      subst (λ (p : ℕ). RegH2d whole p lba n write) (sym at_start)
          (IsFis-RegH2d whole t lba n write fis),
    )
