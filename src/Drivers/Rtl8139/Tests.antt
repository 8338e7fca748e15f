-- ===== src/Drivers/Rtl8139/Tests.antt =====
-- A card, a state of its driver, and the theorems on rtl8139.c applied there.
use mksd_old_archive.Base.{
  ℕ, ◌≡◌, inl, inr, refl, arith, true, false, some, [], ◌∷◌, ◌++◌, if◌then◌else◌, ◌==◌, load,
  Memory,
}
use mksd_old_archive.Arch.Ports.{Log}
use mksd_old_archive.Arch.Devices.{Board, Gate}
use mksd_old_archive.Arch.Pci.{
  PciDevice, pci_find, found_device, scan_buses, scan_slots, scan_funcs, or_next, is_device,
  pci_config_readw, pci_get_cfg_addr, pci_init_dev, read_bar,
}
use mksd_old_archive.Mm.Pmm.{Pmm}
use mksd_old_archive.Net.{Env, bytes_of}
use mksd_old_archive.Base.Outcome.{Outcome}
use mksd_old_archive.Drivers.Rtl8139.{
  Card, Nic, rtl8139_send_packet, arp_respond, id_packet, is_bad_packet, recieve_packet,
}
use mksd_old_archive.Drivers.Rtl8139.Interrupt.{rtl8139_isr, rtl8139_read_packet}
use mksd_old_archive.Drivers.Rtl8139.Boot.{rtl8139_init}
use mksd_old_archive.Drivers.Rtl8139.Invariant.{IsSettled, Step, Reaches, Reaches-IsSettled}
use mksd_old_archive.Drivers.Rtl8139.Send.{FirstOwn, Filled, rtl8139_send_packet-Filled}
use mksd_old_archive.Drivers.Rtl8139.Receive.{
  status_of, length_of, Taken, Stuck, Sound, recieve_packet-Taken, rtl8139_isr-Stuck,
}
use mksd_old_archive.Drivers.Rtl8139.Liveness.{Halts, reads, rtl8139_isr-Halts}
use mksd_old_archive.Drivers.Rtl8139.Arp.Frame.{answer_bytes, arp_respond-bytes}
use mksd_old_archive.Drivers.Rtl8139.Setup.{SetUp, rtl8139_init-SetUp}

-- Only the second transmit buffer has been given back.
abbrev regs : ℕ → ℕ
regs p = if p == 0xC014 then 0x2000 else if p == 0xCFC then 0x813910EC else 0

abbrev net : Env
net = record {
  nic_mac = 0x500;
  polls = λ i. true;
  arrive = λ m. m;
  received = 0;
  frame = 0x1000;
  arp_packet = 0;
  arp_mac = 0;
  dest_mac = 0;
  ip_packet = 0;
  icmp_packet = 0;
  udp_packet = 0;
}

abbrev board_of : (Log → ℕ → ℕ) → Board
board_of ports = record {
  ioapic_mmio_base = 0xFEC00000;
  lapic_mmio_base = 0xFEE00000;
  ports = ports;
  mmio = λ log address. 0;
  remap_irq = λ irq. irq;
}

abbrev card_of : (Log → ℕ → ℕ) → Card
card_of ports = record {
  net = net;
  board = board_of ports;
  dma = λ log m. m;
  reply = 0x2000;
  higher_half = 0x100000;
}

abbrev card : Card
card = card_of (λ log p. regs p)

abbrev no_gate : Gate
no_gate = record {
  isr_low16 = 0;
  cs = 0;
  ist = 0;
  attr = 0;
  zero_bits = 0;
  zero1 = 0;
  dpl = 0;
  p = 0;
  isr_mid16 = 0;
  isr_high32 = 0;
}

-- A good packet of 0x40 bytes stands at the head of the ring.
abbrev ring_memory : Memory
ring_memory a = if a == 0x200000 then 1 else if a == 0x200002 then 0x40 else 0

abbrev nic : Nic
nic = record {
  next_txbuf = 0;
  txbufs = λ j. 0;
  iobase = 0xC000;
  rxbuf = 0x200000;
  got_packet = 0;
  rxbuf_off = 0;
  packet_buf = 0x3000;
  memory = ring_memory;
  intr = record {
    idt = λ v. no_gate;
    vec = 0x81;
    timer_vector = 0;
    lapic_freq = 0;
    ticks = 0;
    log = [];
  };
}

abbrev empty_nic : Nic
empty_nic = record nic { memory = λ a. 0 }

nic-IsSettled : IsSettled nic
nic-IsSettled = record { next_below = omega arith; off_below = omega arith; off_aligned = refl }

nic-FirstOwn : FirstOwn regs nic 1
nic-FirstOwn = record { below = omega arith; own = refl; before = λ j l. ground arith }

Reaches-IsSettled_example : IsSettled (rtl8139_read_packet nic).1
Reaches-IsSettled_example =
    Reaches-IsSettled card nic-IsSettled (Reaches.next Reaches.start (Step.read nic))

rtl8139_send_packet-Filled_example :
    (s' : Nic) × (rtl8139_send_packet card 0x4000 100 nic ≡ Outcome.done s')
    × (s'.next_txbuf ≡ 2)
    × Filled card 0x4000 100 1 nic s'
rtl8139_send_packet-Filled_example =
    rtl8139_send_packet-Filled card regs 0x4000 100 1 nic (λ log p. refl) (omega arith)
      (omega arith) nic-FirstOwn
      (record { below = omega arith; fits = omega arith; apart = inr (omega arith) })

ring_packet_is_good : is_bad_packet (status_of nic) (length_of nic) ≡ false
unfolding is_bad_packet load
ring_packet_is_good = refl

recieve_packet-Taken_example :
    (s' : Nic) × (recieve_packet card nic ≡ id_packet card s') × Taken nic s'
recieve_packet-Taken_example =
    recieve_packet-Taken card nic nic-IsSettled
      (record { below = omega arith; apart = inl (omega arith) }) ring_packet_is_good

no_packet_is_bad : is_bad_packet (status_of empty_nic) (length_of empty_nic) ≡ true
unfolding is_bad_packet load
no_packet_is_bad = refl

rtl8139_isr-Stuck_example : Sound (Stuck empty_nic) (rtl8139_isr card 3 empty_nic)
rtl8139_isr-Stuck_example =
    rtl8139_isr-Stuck card 3 empty_nic (λ log m a l u. refl) no_packet_is_bad

-- One packet was received, and nothing follows it.
abbrev status : ℕ → ℕ
status n = if n == 0 then 1 else 0

abbrev reporting : Card
reporting = card_of (λ log p. if p == 0xC03E then status (reads 0xC03E log) else 0)

rtl8139_isr-Halts_example : Halts (λ s'. Unit) (rtl8139_isr reporting 3 nic)
rtl8139_isr-Halts_example =
    rtl8139_isr-Halts reporting status 1 3 nic (λ log. ground arith) (omega arith) refl

arp_respond-bytes_example :
    (s' : Nic) × (arp_respond card 0x3000 nic ≡ Outcome.done s')
    × (bytes_of 42 s'.memory 0x100000
        ≡ bytes_of 6 ring_memory 0x3008
          ++ (bytes_of 6 ring_memory 0x500
              ++ ((8 ∷ 6 ∷ []) ++ answer_bytes card 0x3000 ring_memory)))
arp_respond-bytes_example =
    arp_respond-bytes card regs 0x3000 1 nic
      (record {
        from_packet = inl (omega arith);
        from_mac = inr (omega arith);
        bytes = λ x. ground arith;
      })
      (record {
        from_dest = inr (inl (omega arith));
        from_mac = inr (omega arith);
        from_payload = inl (omega arith);
      })
      (λ log p. refl) (omega arith) (omega arith) nic-FirstOwn
      (record { below = omega arith; fits = omega arith; apart = inr (omega arith) })

-- A device that is an RTL8139 wherever it is asked.
abbrev found : PciDevice
found = record {
  bars = 0x813910EC ∷ 0x813910EC ∷ 0x813910EC ∷ 0x813910EC ∷ 0x813910EC ∷ 0x813910EC ∷ [];
  bus = 0;
  slot = 0;
  func = 0;
  irq_line = 11;
}

abbrev pmm : Pmm
pmm = record {
  entries = record { base = 0x1000000; length = 0x20000; type = 0 } ∷ [];
  bitmap = 0;
  memory = λ a. if a == 2 then 0 else 0xFF;
}

finds : (pci_find card.board.ports 11 0x10EC 0x8139 nic.intr.log).0 ≡ some found
unfolding pci_find found_device scan_buses scan_slots scan_funcs or_next is_device pci_config_readw
    pci_get_cfg_addr pci_init_dev read_bar
finds = refl

rtl8139_init-SetUp_example : SetUp nic (rtl8139_init card 3 11 0x8000 0x3000 nic pmm)
rtl8139_init-SetUp_example = rtl8139_init-SetUp card 3 11 0x8000 0x3000 found nic pmm finds
