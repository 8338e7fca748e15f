-- ===== src/Drivers/Rtl8139.antt =====
-- sys/src/drivers/net/rtl8139.c: the network card. Its registers are ports, which `ports` answers
-- and `log` records; what the card writes by DMA before a read of its interrupt status is `dma`.
pub mod Interrupt
pub mod Boot
pub mod Invariant
pub mod Send
pub mod Receive
pub mod Liveness
pub mod Arp
pub mod Setup
pub mod Gates
mod Tests
use mksd_old_archive.Base.{
  ℕ, zero, suc, ◌+◌, ◌-◌, ◌*◌, ◌/◌, ◌%◌, ◌^◌, bit_and, bit_or, Bool, true, false, not, ◌&&◌, ◌||◌,
  Option, none, some, List, [], ◌∷◌, ltb, leb, ◌==◌, if◌then◌else◌, u8, u16, u32, u64, complement,
  sub64, Memory, store, store_word, load, memcpy, memzero,
}
use mksd_old_archive.Base.Outcome.{Outcome, ◌>>=◌}
use mksd_old_archive.Base.Layout.{sizeof, offsetof, member}
use mksd_old_archive.Arch.Ports.{Access, Log}
use mksd_old_archive.Arch.Devices.{Board, Intr, log_access, lapic_send_eoi}
use mksd_old_archive.Net.Structs.{ethernet_header_t, arp_packet_t}
use mksd_old_archive.Net.{Env, big_endian, ethertype_arp, ethertype_ipv4, ethernet_frame}

-- `net` has the address of `g_rtl8139_mac_addr` and the block of `ethernet_send`; `reply` is the
-- block from kmalloc in `arp_respond`, and `higher_half` is VMM_HIGHER_HALF.
pub record Card : Type 0 where
  pub net : Env
  pub board : Board
  pub dma : Log → Memory → Memory
  pub reply : ℕ
  pub higher_half : ℕ

-- The variables of the file, the memory that its pointers reach, and the interrupt controller with
-- the log of accesses.
pub record Nic : Type 0 where
  pub next_txbuf : ℕ
  pub txbufs : ℕ → ℕ
  pub iobase : ℕ
  pub rxbuf : ℕ
  pub got_packet : ℕ
  pub rxbuf_off : ℕ
  pub packet_buf : ℕ
  pub memory : Memory
  pub intr : Intr

abbrev pub packet_size_max : ℕ
packet_size_max = 0x600

abbrev pub packet_size_min : ℕ
packet_size_min = 0x16

abbrev pub rx_buffer_size : ℕ
rx_buffer_size = 32768

abbrev pub port : ℕ → Nic → ℕ
port reg s = u16 (u32 (s.iobase + reg))

abbrev pub access : Access → Nic → Nic
access a s = record s { intr = log_access a s.intr }

-- What the card answers to a read of a register.
abbrev pub answer : Card → ℕ → Nic → ℕ
answer card reg s = card.board.ports s.intr.log (port reg s)

abbrev pub in8 : Card → ℕ → Nic → ℕ × Nic
in8 card reg s = (u8 (answer card reg s), access (Access.inb (port reg s)) s)

abbrev pub in16 : Card → ℕ → Nic → ℕ × Nic
in16 card reg s = (u16 (answer card reg s), access (Access.inw (port reg s)) s)

abbrev pub in32 : Card → ℕ → Nic → ℕ × Nic
in32 card reg s = (u32 (answer card reg s), access (Access.inl (port reg s)) s)

abbrev pub out8 : ℕ → ℕ → Nic → Nic
out8 reg value s = access (Access.outb (port reg s) (u8 value)) s

abbrev pub out16 : ℕ → ℕ → Nic → Nic
out16 reg value s = access (Access.outw (port reg s) (u16 value)) s

abbrev pub out32 : ℕ → ℕ → Nic → Nic
out32 reg value s = access (Access.outl (port reg s) (u32 value)) s

-- The loop of `rtl8139_send_packet` from round `i` with `n` rounds left; none is -1.
unfoldable pub find_txbuf : Card → ℕ → ℕ → Nic → Option ℕ × Nic
find_txbuf card zero i s = (none, s)
find_txbuf card (suc n) i s =
    let canidate = u64 (s.next_txbuf + i) % 4 in
    let (status, s₁) = in32 card (0x10 + canidate * 4) s in
    let rest = find_txbuf card n (i + 1) s₁ in
    if bit_and status 0x2000 == 0 then rest else (some canidate, s₁)

-- The packet goes to the buffer, and its size to the buffer's status register.
unfoldable pub fill_txbuf : Card → ℕ → ℕ → ℕ → Nic → Nic
fill_txbuf card packet size hwbuf s =
    let virt_addr = u64 (s.txbufs hwbuf + card.higher_half) in
    let m₁ = memzero virt_addr (sub64 packet_size_max size) s.memory in
    out32 (0x10 + hwbuf * 4) size (record s { memory = memcpy virt_addr packet size m₁ })

-- Where no buffer is found, the index of `txbufs` is -1.
unfoldable pub rtl8139_send_packet : Card → ℕ → ℕ → Nic → Outcome Nic
rtl8139_send_packet card packet size s =
    if s.iobase == 0
    then Outcome.done s
    else let (found, s₁) = find_txbuf card 4 0 s in
      elim found [
        | none ↦ Outcome.undefined
        | some hwbuf ↦ Outcome.done (
            fill_txbuf card packet (if ltb size 60 then 60 else size) hwbuf
              (record s₁ { next_txbuf = (hwbuf + 1) % 4 }))
      ]

-- The packet that `arp_respond` builds for the one at `arp_packet`.
unfoldable pub arp_reply : Card → ℕ → Memory → Memory
arp_reply card arp_packet m =
    let packet = card.reply in
    let m₁ = store_word 2 packet (big_endian 1) m in
    let m₂ = store_word 2 (packet + offsetof arp_packet_t "ptype") (big_endian ethertype_ipv4) m₁ in
    let m₃ = store (packet + offsetof arp_packet_t "haddr_len") 6 m₂ in
    let m₄ = store (packet + offsetof arp_packet_t "paddr_len") 4 m₃ in
    let m₅ = store_word 2 (packet + offsetof arp_packet_t "op") (big_endian 2) m₄ in
    let m₆ =
      store_word 4 (packet + offsetof arp_packet_t "target_paddr")
        (member arp_packet_t "sender_paddr" m₅ arp_packet) m₅ in
    let m₇ =
      memcpy (packet + offsetof arp_packet_t "target_haddr")
        (arp_packet + offsetof arp_packet_t "sender_haddr") 6 m₆ in
    let m₈ =
      store_word 4 (packet + offsetof arp_packet_t "sender_paddr")
        (member arp_packet_t "target_paddr" m₇ arp_packet) m₇ in
    memcpy (packet + offsetof arp_packet_t "sender_haddr") card.net.nic_mac 6 m₈

-- The call of `ethernet_send` is the frame that it builds, then `rtl8139_send_packet`.
unfoldable pub arp_respond : Card → ℕ → Nic → Outcome Nic
arp_respond card arp_packet s =
    let m₁ = arp_reply card arp_packet s.memory in
    let m₂ =
      ethernet_frame card.net (card.reply + offsetof arp_packet_t "target_haddr") ethertype_arp
        card.reply (sizeof arp_packet_t) m₁ in
    rtl8139_send_packet card card.net.frame (u32 (sizeof arp_packet_t + sizeof ethernet_header_t))
      (record s { memory = m₂ })

unfoldable pub id_packet : Card → Nic → Outcome Nic
id_packet card s =
    if member ethernet_header_t "ether_type" s.memory s.packet_buf == big_endian ethertype_arp
    then arp_respond card (s.packet_buf + sizeof ethernet_header_t) s
    else Outcome.done s

unfoldable pub is_link_up : Card → Nic → Bool × Nic
is_link_up card s = let (msr, s₁) = in8 card 0x58 s in (bit_and msr 0x02 == 0, s₁)

unfoldable pub get_speed_mbps : Card → Nic → ℕ × Nic
get_speed_mbps card s =
    let (msr, s₁) = in16 card 0x58 s in (if bit_and msr 0x08 == 0 then 100 else 10, s₁)

-- The loop of `update_mac_addr` from byte `i` with `n` rounds left.
unfoldable pub update_mac_addr : Card → ℕ → ℕ → Nic → Nic
update_mac_addr card zero i s = s
update_mac_addr card (suc n) i s =
    let (byte, s₁) = in8 card (0x00 + i) s in
    update_mac_addr card n (i + 1)
      (record s₁ { memory = store (card.net.nic_mac + i) byte s₁.memory })

-- `IS_BAD_PACKET`
unfoldable pub is_bad_packet : ℕ → ℕ → Bool
is_bad_packet status length =
    bit_and status 0x0001 == 0
    || (not (bit_and status (bit_or (bit_or 0x0020 0x0004) 0x0002) == 0)
        || (leb packet_size_max length || ltb length packet_size_min))

-- The packet at the head of the ring.
abbrev pub packet_at : Nic → ℕ
packet_at s = u64 (s.rxbuf + s.rxbuf_off)

-- What `recieve_packet` does with a good packet before `id_packet`.
unfoldable pub take_packet : ℕ → ℕ → Nic → Nic
take_packet packet length s =
    let s₁ : Nic = record s {
      memory = memcpy s.packet_buf (u64 (packet + 4)) (length - 4) s.memory;
    } in
    let off = bit_and (u64 (s.rxbuf_off + length + 4 + 3)) (complement 64 3) % rx_buffer_size in
    let s₂ : Nic = out16 0x38 (sub64 off 0x10) (record s₁ { rxbuf_off = off }) in
    record s₂ { rxbuf_off = s₂.rxbuf_off % rx_buffer_size; got_packet = 1 }

unfoldable pub recieve_packet : Card → Nic → Outcome Nic
recieve_packet card s =
    let packet = packet_at s in
    let status = load 2 s.memory packet in
    let length = load 2 s.memory (packet + 2) in
    if is_bad_packet status length
    then Outcome.done s
    else id_packet card (take_packet packet length s)
