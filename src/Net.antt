-- ===== src/Net.antt =====
-- sys/src/net: the network stack. A block that kmalloc returns is a field of `Env`, and kfree is
-- left out: what they keep in the heap is no part of this memory. The NIC is the list of the frames
-- that rtl8139_send_packet was given. `none` means that a checksum ran out of fuel.
pub mod Structs
pub mod Checksum
pub mod Frame
pub mod Message
mod Tests
use mksd_old_archive.Base.{
  ℕ, zero, suc, ◌+◌, ◌*◌, ◌/◌, ◌%◌, ◌^◌, bit_and, bit_or, Bool, true, false, Option, none, some,
  List, [], ◌∷◌, ◌==◌, if◌then◌else◌, u16, u32, u64, ◌<<<◌, ◌>>>◌, Memory, store, memset, memcpy,
  store_word, load,
}
use mksd_old_archive.Base.Layout.{sizeof, offsetof}
use mksd_old_archive.Net.Structs.{
  ethernet_header_t, arp_packet_t, ipv4_header_t, icmp_header_t, udp_datagram_header_t,
}
use mksd_old_archive.Net.Checksum.{internet_checksum}

pub record Env : Type 0 where
  -- `g_rtl8139_mac_addr`
  pub nic_mac : ℕ
  -- what each call of `rtl8139_got_packet` says
  pub polls : ℕ → Bool
  -- what the receiver writes to memory meanwhile, and what `rtl8139_read_packet` returns
  pub arrive : Memory → Memory
  pub received : ℕ
  -- the blocks from kmalloc in each function, and the array of `ipv4_send`
  pub frame : ℕ
  pub arp_packet : ℕ
  pub arp_mac : ℕ
  pub dest_mac : ℕ
  pub ip_packet : ℕ
  pub icmp_packet : ℕ
  pub udp_packet : ℕ

-- The last frame sent comes first.
pub record Net : Type 0 where
  pub memory : Memory
  pub sent : List (List ℕ)

abbrev pub big_endian : ℕ → ℕ
big_endian v = bit_or (bit_and v 0xFF <<< 8) (bit_and (v >>> 8) 0xFF)

unfoldable pub bytes_of : ℕ → Memory → ℕ → List ℕ
bytes_of zero m p = []
bytes_of (suc n) m p = m p ∷ bytes_of n m (p + 1)

-- `rtl8139_send_packet(packet, size)`
abbrev pub send_packet : ℕ → ℕ → Net → Net
send_packet packet size s = record s { sent = bytes_of size s.memory packet ∷ s.sent }

abbrev pub ethertype_arp : ℕ
ethertype_arp = 0x0806

abbrev pub ethertype_ipv4 : ℕ
ethertype_ipv4 = 0x0800

-- The header and payload that `ethernet_send` writes to its block `hdr`.
unfoldable pub ethernet_frame : Env → ℕ → ℕ → ℕ → ℕ → Memory → Memory
ethernet_frame env dest ethertype payload length m =
    let hdr = env.frame in
    let m₁ = if dest == 0 then memset hdr 0xFF 6 m else memcpy hdr dest 6 m in
    let m₂ = memcpy (hdr + offsetof ethernet_header_t "src") env.nic_mac 6 m₁ in
    let m₃ =
      store_word 2 (hdr + offsetof ethernet_header_t "ether_type") (big_endian ethertype) m₂ in
    memcpy (hdr + sizeof ethernet_header_t) payload length m₃

unfoldable pub ethernet_send : Env → ℕ → ℕ → ℕ → ℕ → Net → Net
ethernet_send env dest ethertype payload length s =
    send_packet env.frame (u32 (length + sizeof ethernet_header_t))
      (record s { memory = ethernet_frame env dest ethertype payload length s.memory })

-- The packet that `arp_resolve` builds.
unfoldable pub arp_request : Env → ℕ → Memory → Memory
arp_request env target_paddr m =
    let packet = env.arp_packet in
    let m₁ = store_word 2 packet (big_endian 1) m in
    let m₂ = store_word 2 (packet + offsetof arp_packet_t "ptype") (big_endian ethertype_ipv4) m₁ in
    let m₃ = store (packet + offsetof arp_packet_t "haddr_len") 6 m₂ in
    let m₄ = store (packet + offsetof arp_packet_t "paddr_len") 4 m₃ in
    let m₅ = store_word 2 (packet + offsetof arp_packet_t "op") (big_endian 1) m₄ in
    let m₆ = memset (packet + offsetof arp_packet_t "target_haddr") 0xFF 6 m₅ in
    let m₇ = store_word 4 (packet + offsetof arp_packet_t "sender_paddr") 0 m₆ in
    let m₈ = memcpy (packet + offsetof arp_packet_t "sender_haddr") env.nic_mac 6 m₇ in
    store_word 4 (packet + offsetof arp_packet_t "target_paddr") target_paddr m₈

-- Whether `spin` is above 0 after the loop, with `spin` rounds left before call number `i`.
unfoldable pub wait_packet : (ℕ → Bool) → ℕ → ℕ → Bool
wait_packet polls zero i = false
wait_packet polls (suc spin) i = elim (polls i) [
  | true ↦ true
  | false ↦ wait_packet polls spin (i + 1)
]

abbrev pub arp_spin : ℕ
arp_spin = 10000000000

-- The result is NULL or a block. The test of the opcode only decides what is printed.
unfoldable pub arp_resolve : Env → ℕ → Net → ℕ × Net
arp_resolve env target_paddr s =
    let m₁ = arp_request env target_paddr s.memory in
    let s₂ =
      ethernet_send env (env.arp_packet + offsetof arp_packet_t "target_haddr") ethertype_arp
        env.arp_packet (sizeof arp_packet_t) (record s { memory = m₁ }) in
    let s₃ : Net = record s₂ { memory = env.arrive s₂.memory } in
    let pkt = env.received + sizeof ethernet_header_t in
    let s₄ : Net = record s₃ {
      memory = memcpy env.arp_mac (pkt + offsetof arp_packet_t "sender_haddr") 6 s₃.memory;
    } in
    elim (wait_packet env.polls arp_spin 0) [ true ↦ (env.arp_mac, s₄) | false ↦ (0, s₃) ]

-- `IPv4(192, 168, 1, 166)`
abbrev pub own_address : ℕ
own_address = u32 (192 + 168 * 2 ^ 8 + 1 * 2 ^ 16 + 166 * 2 ^ 24)

-- The header that `ipv4_send` builds, up to its checksum.
unfoldable pub ipv4_header : ℕ → ℕ → ℕ → Memory → Memory
ipv4_header hdr size protocol m =
    let m₁ = store hdr (bit_or (4 <<< 4) 5) m in
    let m₂ = store_word 2 (hdr + offsetof ipv4_header_t "len") (big_endian size) m₁ in
    let m₃ = store_word 2 (hdr + offsetof ipv4_header_t "ident") (big_endian 1) m₂ in
    let m₄ = store (hdr + offsetof ipv4_header_t "ttl") 64 m₃ in
    store (hdr + offsetof ipv4_header_t "protocol") protocol m₄

unfoldable pub ipv4_send : Env → ℕ → ℕ → ℕ → ℕ → Net → Option Net
ipv4_send env dest protocol payload length s =
    let (dest_mac_ptr, s₁) = arp_resolve env dest s in
    let size = u32 (sizeof ipv4_header_t + length) in
    let hdr = env.ip_packet in
    let m₂ = ipv4_header hdr size protocol (memcpy env.dest_mac dest_mac_ptr 6 s₁.memory) in
    if dest_mac_ptr == 0
    then some s₁
    else elim (internet_checksum 4 m₂ hdr (sizeof ipv4_header_t)) [
      | none ↦ none
      | some checksum ↦
          let m₃ = store_word 2 (hdr + offsetof ipv4_header_t "checksum") checksum m₂ in
          let m₄ = store_word 4 (hdr + offsetof ipv4_header_t "source") own_address m₃ in
          let m₅ = store_word 4 (hdr + offsetof ipv4_header_t "dest") dest m₄ in
          let m₆ = memcpy (hdr + sizeof ipv4_header_t) payload length m₅ in
          some (ethernet_send env env.dest_mac ethertype_ipv4 hdr size (record s₁ { memory = m₆ }))
    ]

-- The message that `icmp_send_msg_ipv4` builds, with its checksum.
unfoldable pub icmp_message : ℕ → ℕ → ℕ → ℕ → ℕ → Memory → Option Memory
icmp_message hdr type code payload length m =
    let m₁ =
      memcpy (hdr + sizeof icmp_header_t) payload length
        (store (hdr + offsetof icmp_header_t "code") code (store hdr type m)) in
    elim (internet_checksum 4 m₁ hdr (u64 (sizeof icmp_header_t + length))) [
      | none ↦ none
      | some checksum ↦ some (store_word 2 (hdr + offsetof icmp_header_t "checksum") checksum m₁)
    ]

unfoldable pub icmp_send_msg_ipv4 : Env → ℕ → ℕ → ℕ → ℕ → ℕ → Net → Option Net
icmp_send_msg_ipv4 env dest type code payload length s =
    elim (icmp_message env.icmp_packet type code payload length s.memory) [
      | none ↦ none
      | some m ↦
          ipv4_send env dest 1 env.icmp_packet (u32 (u64 (sizeof icmp_header_t + length)))
            (record s { memory = m })
    ]

-- The header has three fields, 6 bytes.
unfoldable pub udp_send_ipv4 : Env → ℕ → ℕ → ℕ → ℕ → ℕ → Net → Option Net
udp_send_ipv4 env dest payload length source_port dest_port s =
    let size = u64 (sizeof udp_datagram_header_t + length) in
    let hdr = env.udp_packet in
    let m₁ = store_word 2 hdr (big_endian source_port) s.memory in
    let m₂ =
      store_word 2 (hdr + offsetof udp_datagram_header_t "dest_port") (big_endian dest_port) m₁ in
    let m₃ = store_word 2 (hdr + offsetof udp_datagram_header_t "length") (big_endian size) m₂ in
    let m₄ = memcpy (hdr + sizeof udp_datagram_header_t) payload length m₃ in
    ipv4_send env dest 17 hdr (u32 size) (record s { memory = m₄ })
