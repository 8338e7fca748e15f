-- ===== src/Drivers/Ahci/Structs.antt =====
-- The structs of sys/include/drivers/hdd/ahci.h: the registers and the tables that the HBA reads.
use mksd_old_archive.Base.{◌-◌, false, [], ◌∷◌}
use mksd_old_archive.Base.Layout.{Struct, Field, sizeof, align}

-- `FIS_REG_H2D`
abbrev pub fis_reg_h2d : Struct
fis_reg_h2d = record {
  packed = false;
  fields =
      Field.scalar "fis_type" 1
      ∷ Field.bit_field "pmport" 1 4
      ∷ Field.bit_field "r0" 1 3
      ∷ Field.bit_field "c" 1 1
      ∷ Field.scalar "command" 1
      ∷ Field.scalar "featurel" 1
      ∷ Field.scalar "lba0" 1
      ∷ Field.scalar "lba1" 1
      ∷ Field.scalar "lba2" 1
      ∷ Field.scalar "device" 1
      ∷ Field.scalar "lba3" 1
      ∷ Field.scalar "lba4" 1
      ∷ Field.scalar "lba5" 1
      ∷ Field.scalar "featureh" 1
      ∷ Field.scalar "countl" 1
      ∷ Field.scalar "counth" 1
      ∷ Field.scalar "icc" 1
      ∷ Field.scalar "control" 1
      ∷ Field.array "r1" 1 4
      ∷ [];
}

-- `HBA_PORT`
abbrev pub hba_port : Struct
hba_port = record {
  packed = false;
  fields =
      Field.scalar "clb" 4
      ∷ Field.scalar "clbu" 4
      ∷ Field.scalar "fb" 4
      ∷ Field.scalar "fbu" 4
      ∷ Field.scalar "is" 4
      ∷ Field.scalar "ie" 4
      ∷ Field.scalar "cmd" 4
      ∷ Field.scalar "r0" 4
      ∷ Field.scalar "tfd" 4
      ∷ Field.scalar "sig" 4
      ∷ Field.scalar "ssts" 4
      ∷ Field.scalar "sctl" 4
      ∷ Field.scalar "serr" 4
      ∷ Field.scalar "sact" 4
      ∷ Field.scalar "ci" 4
      ∷ Field.scalar "sntf" 4
      ∷ Field.scalar "fbs" 4
      ∷ Field.array "r1" 4 11
      ∷ Field.array "vendor" 4 4
      ∷ [];
}

-- `HBA_MEM`
abbrev pub hba_mem : Struct
hba_mem = record {
  packed = false;
  fields =
      Field.scalar "cap" 4
      ∷ Field.scalar "ghc" 4
      ∷ Field.scalar "is" 4
      ∷ Field.scalar "pi" 4
      ∷ Field.scalar "vs" 4
      ∷ Field.scalar "ccc_ctl" 4
      ∷ Field.scalar "ccc_pts" 4
      ∷ Field.scalar "em_loc" 4
      ∷ Field.scalar "em_ctl" 4
      ∷ Field.scalar "cap2" 4
      ∷ Field.scalar "bohc" 4
      ∷ Field.array "r0" 1 (0xA0 - 0x2C)
      ∷ Field.array "vendor" 1 (0x100 - 0xA0)
      ∷ Field.nested "ports" (sizeof hba_port) (align hba_port) 1
      ∷ [];
}

-- `HBA_CMD_HEADER`
abbrev pub hba_cmd_header : Struct
hba_cmd_header = record {
  packed = false;
  fields =
      Field.bit_field "cfl" 1 5
      ∷ Field.bit_field "a" 1 1
      ∷ Field.bit_field "w" 1 1
      ∷ Field.bit_field "p" 1 1
      ∷ Field.bit_field "r" 1 1
      ∷ Field.bit_field "b" 1 1
      ∷ Field.bit_field "c" 1 1
      ∷ Field.bit_field "resv" 1 1
      ∷ Field.bit_field "pmp" 1 4
      ∷ Field.scalar "prdtl" 2
      ∷ Field.scalar "prdbc" 4
      ∷ Field.scalar "ctba" 4
      ∷ Field.scalar "ctbau" 4
      ∷ Field.array "r1" 4 4
      ∷ [];
}

-- `HBA_PRDT_ENTRY`
abbrev pub hba_prdt_entry : Struct
hba_prdt_entry = record {
  packed = false;
  fields =
      Field.scalar "dba" 4
      ∷ Field.scalar "dbau" 4
      ∷ Field.scalar "r0" 4
      ∷ Field.scalar "dbc" 4
      ∷ Field.scalar "r1" 4
      ∷ Field.bit_field "i" 4 1
      ∷ [];
}

-- `HBA_CMD_TBL`
abbrev pub hba_cmd_tbl : Struct
hba_cmd_tbl = record {
  packed = false;
  fields =
      Field.array "cfis" 1 64
      ∷ Field.array "acmd" 1 16
      ∷ Field.array "r" 1 48
      ∷ Field.nested "prdt" (sizeof hba_prdt_entry) (align hba_prdt_entry) 1
      ∷ [];
}
