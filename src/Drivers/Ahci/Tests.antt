-- ===== src/Drivers/Ahci/Tests.antt =====
-- A port with slots 0 and 1 in use, a command table, and the theorems on ahci.c applied there.
use mksd_old_archive.Base.{
  ◌+◌, ◌≡◌, inl, refl, arith, [], ◌∷◌, u32, if◌then◌else◌, ◌==◌, Memory, load, some, get_or, ℕ,
  List, ltb,
}
use mksd_old_archive.Arch.Ports.{Log, Device}
use mksd_old_archive.Drivers.Ahci.Handoff.{take_ownership, reads, Handoff, take_ownership-Handoff}
use mksd_old_archive.Drivers.Ahci.Command.{table_of, build_command}
use mksd_old_archive.Base.Layout.{member}
use mksd_old_archive.Drivers.Ahci.Structs.{hba_cmd_tbl}
use mksd_old_archive.Drivers.Ahci.Fields.{Header, PrdtEntry, RegH2d, build_command-Fields}
use mksd_old_archive.Mm.Pmm.{
  Pmm, find_highest_mem_chunk, highest_from, higher_chunk, bitmap_size_of, align_up,
  get_bitmap_size, bitmap_set_bit, bitmap_test, alloc_from, pmm_alloc_inner, alloc_frames,
  pmm_alloc,
}
use mksd_old_archive.Base.Outcome.{Outcome}
use mksd_old_archive.Fs.{Node}
use mksd_old_archive.Fs.Maps.{H}
use mksd_old_archive.Drivers.Ahci.Init.{Context, System, register_drive}
use mksd_old_archive.Drivers.Ahci.Drives.{IsName, Ready, Registered, register_drive-Registered}
use mksd_old_archive.Drivers.Ahci.Ports.{alloc_tables}
use mksd_old_archive.Drivers.Ahci.Tables.{Allocates, Names, alloc_tables-Names}

abbrev disk : Device
disk log a = if a == 0x134 then 1 else if a == 0x138 then 2 else 0

-- The BIOS is busy and gives the HBA up behind the third read.
abbrev owner : ℕ → ℕ
owner k = if ltb k 3 then 0x11 else 2

abbrev handing_over : Device
handing_over log a = if a == 0x1028 then owner (reads 0x1028 log) else 1

hands_over : (l : Log) → u32 (handing_over l 0x1028) ≡ owner (reads 0x1028 l)
hands_over l = ground arith

take_ownership-Handoff_example :
    let (failed, sleeps, log') = take_ownership handing_over 0x1000 [] in
    Handoff 1 owner 0 failed sleeps (reads 0x1028 log')
take_ownership-Handoff_example = take_ownership-Handoff handing_over 0x1000 [] owner hands_over

owned :
    let (failed, sleeps, log') = take_ownership handing_over 0x1000 [] in
    (failed ≡ 0) × (sleeps ≡ 15) × (reads 0x1028 log' ≡ 6)
unfolding take_ownership
owned = (refl, refl, refl)

-- The header at 0x1000 names the table at 0x2000.
abbrev shared : Memory
shared a = if a == 0x1009 then 0x20 else 0

table_at : table_of 0x1000 shared ≡ 0x2000
unfolding table_of load
table_at = refl

build_command-Fields_example :
    let whole = build_command 0 0x1000 7 0x5000 2 1 shared in
    let t = table_of 0x1000 shared + 0 in
    Header whole 0x1000 1
    × PrdtEntry whole (member hba_cmd_tbl "prdt" whole t) 0x5000 2
    × RegH2d whole (member hba_cmd_tbl "cfis" whole t) 7 2 1
build_command-Fields_example =
    build_command-Fields 0 0x1000 7 0x5000 2 1 shared
      (record { below = omega (arith, table_at); apart = inl (omega (arith, table_at)) })
      (omega arith) (omega arith) (omega arith) (omega arith) (omega arith)

-- A memory map with 32 pages, of which frames 16 and 18 are free.
abbrev two_free : Pmm
two_free = record {
  entries = record { base = 0x1000000; length = 0x20000; type = 0 } ∷ [];
  bitmap = 0;
  memory = λ a. if a == 2 then 0xFA else 0xFF;
}

abbrev one_free : Pmm
one_free = bitmap_set_bit 16 two_free

gives_both : Allocates (0x10000 ∷ 0x12000 ∷ []) two_free (bitmap_set_bit 18 one_free)
unfolding pmm_alloc alloc_frames pmm_alloc_inner get_bitmap_size find_highest_mem_chunk highest_from
    higher_chunk bitmap_size_of align_up alloc_from bitmap_test bitmap_set_bit
gives_both = (one_free, refl, (bitmap_set_bit 18 one_free, refl, refl))

alloc_tables-Names_example :
    (m' : Memory) × (alloc_tables 2 0 0x4000 shared two_free
      ≡ some (m', bitmap_set_bit 18 one_free))
    × Names 0x4000 0 (0x10000 ∷ 0x12000 ∷ []) shared m'
alloc_tables-Names_example =
    alloc_tables-Names (0x10000 ∷ 0x12000 ∷ []) 0 0x4000 shared two_free
      (bitmap_set_bit 18 one_free) (omega arith, (omega arith, tt)) gives_both

-- "sda" at 0 and "sda%d" at 10 in a file system whose /dev is the node at 7.
abbrev names : Memory
names a =
    get_or (b's' ∷ b'd' ∷ b'a' ∷ 0 ∷ 0 ∷ 0 ∷ 0 ∷ 0 ∷ 0 ∷ 0 ∷ b's' ∷ b'd' ∷ b'a' ∷ b'%' ∷ b'd' ∷ [])
      a 0

abbrev empty_node : Node H
empty_node = record { name = λ a. 0; children = H.create; n_children = 0; flags = 0; fops = 0 }

abbrev system : System H
system = record {
  abar = 0x1000;
  n_hba_ports = 0;
  hba = record { main_drive = 0; n_cmdslots = 0; memory = shared; log = [] };
  pmm = two_free;
  vfs = record {
    nodes = λ a. empty_node;
    files = λ a. record { node = 0; flags = 0 };
    root = 6;
    devfs = 7;
    memory = names;
  };
  dec_string = λ a. 0;
}

-- A PCI bus with no device.
abbrev context : Context
context = record {
  host = record {
    disk = disk;
    dma = λ log m. m;
    fuel = 5;
    higher_half = 0;
    serial_num = 0x100;
    model_num = 0x200;
  };
  pci = λ log a. 0xFFFFFFFF;
  irq_line = 0;
  text_fuel = 30;
  fops = 9;
  sda = 0;
  sda_format = 10;
  drive_id = 100;
  node = λ k. 1000 + k;
}

context-Ready : Ready H context system
context-Ready = record {
  fuel = omega arith;
  literal = (refl, omega arith, (refl, omega arith, (refl, omega arith, refl)));
  format_literal = (
    refl,
    omega arith,
    (refl, omega arith, (refl, omega arith, (refl, omega arith, (refl, omega arith, refl)))),
  );
  apart = inl (omega arith);
  literal_apart = inl (omega arith);
  mounted = omega arith;
  new_node = λ k. omega arith;
}

register_drive-Registered_example :
    (s' : System H) × (w : List ℕ) × (register_drive H context 1 system ≡ Outcome.done s')
    × IsName 1 w
    × Registered H context 1 w system s'
register_drive-Registered_example =
    register_drive-Registered H context 1 system context-Ready (omega arith)
