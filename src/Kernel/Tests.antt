-- ===== src/Kernel/Tests.antt =====
-- A machine with an RTL8139 and no disk, and the theorem on init.c applied there.
use mksd_old_archive.Base.{
  ℕ, ◌+◌, ◌*◌, ◌^◌, ◌≡◌, refl, arith, false, List, [], ◌∷◌, ltb, ◌==◌, if◌then◌else◌, get_or,
  Memory, load, memset, Option, some, none,
}
use mksd_old_archive.Base.Outcome.{Outcome, Ends}
use mksd_old_archive.Arch.Ports.{Access, Device}
use mksd_old_archive.Arch.Devices.{Board, Gate, Intr}
use mksd_old_archive.Mm.Pmm.{
  Entry, align_up, alloc_frames, alloc_from, bitmap_set_bit, bitmap_size_of, bitmap_test,
  bitmap_unset_bit, find_highest_mem_chunk, get_bitmap_size, higher_chunk, highest_from,
  init_bitmap, place_bitmap, pmm_alloc, pmm_alloc_inner, pmm_init, release_all, release_entry,
}
use mksd_old_archive.Acpi.{
  Acpi, acpi_init, do_checksum, locate_fadt, locate_from, locate_madt, parse_dsdt_s5, parse_from,
  parse_madt, same_bytes, sum_bytes,
}
use mksd_old_archive.Fs.{
  Node, Vfs, checked_node, devfs_init, fopen, next_node, vfs_init, vfs_make_node, vfs_path_to_node,
  walk, walk_path,
}
use mksd_old_archive.Fs.Maps.{H}
use mksd_old_archive.Fs.Block.{Context, block_read_drive, open_device}
use mksd_old_archive.Drivers.Ahci.Init.{System, ahci_init}
use mksd_old_archive.Drivers.Ahci.Ports.{Host}
use mksd_old_archive.Drivers.Rtl8139.{Card, Nic, get_speed_mbps, is_link_up, update_mac_addr}
use mksd_old_archive.Net.{Env}
use mksd_old_archive.Arch.Pci.{
  found_device, is_class, is_device, or_next, pci_config_readw, pci_find, pci_find_any,
  pci_get_cfg_addr, scan_buses, scan_funcs, scan_slots,
}
use mksd_old_archive.Drivers.Rtl8139.Boot.{alloc_txbufs, rtl8139_init, set_up, wait_reset}
use mksd_old_archive.Fs.Ext2.{ext2_init}
use mksd_old_archive.Text.{
  after_skip, compare_from, copy_part, count_from, end_of, skip_part, skip_parts, strcmp,
  strdilm_count, strlen, strsplit,
}
use mksd_old_archive.Kernel.{
  Machine, Kernel, _start, init_mm, find_tables, pre_fs_init, init_drivers, post_fs_init, net_init,
}
use mksd_old_archive.Kernel.Gates.{Leads, _start-gates}

abbrev byte_at : List (ℕ × ℕ) → Memory
byte_at [] a = 0
byte_at ((b, c) ∷ rest) a = if a == b then c else byte_at rest a

-- The RSDP at 0x10, the RSDT at 0x100, the FADT at 0x200, a DSDT of nothing but its header at 0x300,
-- and the MADT at 0x400, with an I/O APIC and the override of IRQ 0 by 2.
abbrev tables : Memory
tables = byte_at (
    (0x21, 1)
    ∷ (0x104, 44)
    ∷ (0x109, 206)
    ∷ (0x125, 2)
    ∷ (0x129, 4)
    ∷ (0x200, b'F')
    ∷ (0x201, b'A')
    ∷ (0x202, b'C')
    ∷ (0x203, b'P')
    ∷ (0x204, 44)
    ∷ (0x209, 183)
    ∷ (0x229, 3)
    ∷ (0x304, 36)
    ∷ (0x400, b'A')
    ∷ (0x401, b'P')
    ∷ (0x402, b'I')
    ∷ (0x403, b'C')
    ∷ (0x404, 66)
    ∷ (0x409, 234)
    ∷ (0x426, 0xE0)
    ∷ (0x427, 0xFE)
    ∷ (0x42C, 1)
    ∷ (0x42D, 12)
    ∷ (0x432, 0xC0)
    ∷ (0x433, 0xFE)
    ∷ (0x438, 2)
    ∷ (0x439, 10)
    ∷ (0x43C, 2)
    ∷ [])

-- The RTL8139 in slot 3 of bus 0; each other dword reads as ones, and its registers as zeros.
abbrev space : ℕ → ℕ
space a =
    if a == 2 ^ 31 + 3 * 2 ^ 11
    then 0x813910EC
    else if a == 2 ^ 31 + 3 * 2 ^ 11 + 0x10
    then 0xC001
    else 0xFFFFFFFF

abbrev bus : Device
bus (Access.outl port value ∷ log) p = if p == 0xCFC then space value else 0
bus log p = 0

-- "" at 0, "/dev/sda" at 1, "dev" at 10 and "r" at 18.
abbrev literals : List ℕ
literals =
    0 ∷ b'/' ∷ b'd' ∷ b'e' ∷ b'v' ∷ b'/' ∷ b's' ∷ b'd' ∷ b'a' ∷ 0 ∷ b'd' ∷ b'e' ∷ b'v' ∷ 0 ∷ b's'
    ∷ b'd' ∷ b'a' ∷ 0 ∷ b'r' ∷ 0 ∷ []

abbrev text : Memory
text a = if ltb a 20 then get_or literals a 0 else 0

abbrev board : Board
board = record {
  ioapic_mmio_base = 0;
  lapic_mmio_base = 0;
  ports = bus;
  mmio = λ log a. 0;
  remap_irq = λ irq. irq;
}

abbrev net : Env
net = record {
  nic_mac = 0;
  polls = λ i. false;
  arrive = λ m. m;
  received = 0;
  frame = 0;
  arp_packet = 0;
  arp_mac = 0;
  dest_mac = 0;
  ip_packet = 0;
  icmp_packet = 0;
  udp_packet = 0;
}

abbrev card : Card
card = record { net = net; board = board; dma = λ log m. m; reply = 0; higher_half = 0 }

abbrev host : Host
host = record {
  disk = bus;
  dma = λ log m. m;
  fuel = 4;
  higher_half = 0;
  serial_num = 0;
  model_num = 0;
}

abbrev ahci : mksd_old_archive.Drivers.Ahci.Init.Context
ahci = record {
  host = host;
  pci = bus;
  irq_line = 11;
  text_fuel = 32;
  fops = 0;
  sda = 14;
  sda_format = 14;
  drive_id = 0;
  node = λ i. 0;
}

abbrev block : Context
block = record {
  read = 18;
  nvme = 1;
  sda = 1;
  split = λ i. 0x1000 + 0x100 * i;
  fp = 0x5000;
  text_fuel = 32;
  disk_fuel = 4;
  disk = bus;
  higher_half = 0;
}

-- Eight pages from 0x1000 on.
abbrev chunk : Entry
chunk = record { base = 0x1000; length = 0x8000; type = 0 }

abbrev machine : Machine
machine = record {
  response = chunk ∷ [];
  rsdp = 0x10;
  idt = 0x8000;
  vec = λ v. 0x100000 + 0x10 * v;
  lapic_timer_handler = 0x101000;
  rtl8139_isr = 0x102000;
  root = 0x2000;
  devfs = 0x3000;
  empty_literal = 0;
  dev_literal = 10;
  packet_buf = 0x4000;
  irq_line = 11;
  fuel = 32;
  ports = bus;
  mmio = λ log a. 0;
  dma = λ log m. m;
  ahci = ahci;
  block = block;
  card = card;
}

abbrev no_gate : Gate
no_gate = record {
  isr_low16 = 0;
  cs = 0;
  ist = 0;
  attr = 0;
  zero_bits = 0;
  zero1 = 0;
  dpl = 0;
  p = 0;
  isr_mid16 = 0;
  isr_high32 = 0;
}

abbrev intr : Intr
intr = record {
  idt = λ v. no_gate;
  vec = 0x81;
  timer_vector = 0;
  lapic_freq = 0;
  ticks = 0;
  log = [];
}

abbrev nic : Nic
nic = record {
  next_txbuf = 0;
  txbufs = λ i. 0;
  iobase = 0;
  rxbuf = 0;
  got_packet = 0;
  rxbuf_off = 0;
  packet_buf = 0;
  memory = λ a. 0;
  intr = intr;
}

abbrev acpi : Acpi
acpi = record {
  rsdt = 0;
  fadt = 0;
  madt = 0;
  slp_en = 0;
  sci_en = 0;
  slp_typa = 0;
  slp_typb = 0;
  rsdt_entry_count = 0;
  lapic_mmio_base = 0;
  ioapic_mmio_base = 0;
}

abbrev no_node : Node H
no_node = record { name = λ i. 0; children = λ k. 0; n_children = 0; flags = 0; fops = 0 }

abbrev vfs : Vfs H
vfs = record {
  nodes = λ a. no_node;
  files = λ a. record { node = 0; flags = 0 };
  root = 0;
  devfs = 0;
  memory = text;
}

abbrev disks : System H
disks = record {
  abar = 0;
  n_hba_ports = 0;
  hba = record { main_drive = 0; n_cmdslots = 0; memory = λ a. 0; log = [] };
  pmm = record { entries = []; bitmap = 0; memory = λ a. 0 };
  vfs = vfs;
  dec_string = λ a. 0;
}

abbrev kernel : Kernel H
kernel = record {
  idtr = record { limit = 0; base = 0 };
  acpi = acpi;
  tables = tables;
  disks = disks;
  superblock = 0;
  nic = nic;
}

_start-gates_example : Ends (Leads 0xE 0x1000E0) (_start H machine kernel)
_start-gates_example =
    _start-gates H machine 0xE kernel refl (omega arith) (omega arith) (omega arith)

abbrev ring : Outcome (Kernel H) → Option ℕ
ring (Outcome.done s) = some s.nic.rxbuf
ring Outcome.undefined = none
ring Outcome.waits = none

-- `_start` reaches its last loop with the ring of the card in the third page.
boots : ring (_start H machine kernel) ≡ some 0x3000
unfolding acpi_init do_checksum locate_fadt locate_from locate_madt parse_dsdt_s5 parse_from
    parse_madt same_bytes sum_bytes found_device is_class is_device or_next pci_config_readw
    pci_find pci_find_any pci_get_cfg_addr scan_buses scan_funcs scan_slots load memset ahci_init
    get_speed_mbps is_link_up update_mac_addr alloc_txbufs rtl8139_init set_up wait_reset
    checked_node devfs_init fopen next_node vfs_init vfs_make_node vfs_path_to_node walk walk_path
    block_read_drive open_device ext2_init align_up alloc_frames alloc_from bitmap_set_bit
    bitmap_size_of bitmap_test bitmap_unset_bit find_highest_mem_chunk get_bitmap_size higher_chunk
    highest_from init_bitmap place_bitmap pmm_alloc pmm_alloc_inner pmm_init release_all
    release_entry after_skip compare_from copy_part count_from end_of skip_part skip_parts strcmp
    strdilm_count strlen strsplit _start init_mm find_tables pre_fs_init init_drivers post_fs_init
    net_init mksd_old_archive.Net.bytes_of
boots = refl
