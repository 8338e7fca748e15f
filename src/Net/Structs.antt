-- ===== src/Net/Structs.antt =====
-- The headers of packets, in sys/include/net. A `mac_address_t` is an array of six bytes.
use mksd_old_archive.Base.{true, false, [], ◌∷◌}
use mksd_old_archive.Base.Layout.{Struct, Field}

-- `ethernet_header_t`
abbrev pub ethernet_header_t : Struct
ethernet_header_t = record {
  packed = true;
  fields = Field.array "dest" 1 6 ∷ Field.array "src" 1 6 ∷ Field.scalar "ether_type" 2 ∷ [];
}

-- `arp_packet_t`
abbrev pub arp_packet_t : Struct
arp_packet_t = record {
  packed = true;
  fields =
      Field.scalar "htype" 2
      ∷ Field.scalar "ptype" 2
      ∷ Field.scalar "haddr_len" 1
      ∷ Field.scalar "paddr_len" 1
      ∷ Field.scalar "op" 2
      ∷ Field.array "sender_haddr" 1 6
      ∷ Field.scalar "sender_paddr" 4
      ∷ Field.array "target_haddr" 1 6
      ∷ Field.scalar "target_paddr" 4
      ∷ [];
}

-- `ipv4_header_t`
abbrev pub ipv4_header_t : Struct
ipv4_header_t = record {
  packed = true;
  fields =
      Field.scalar "version_ihl" 1
      ∷ Field.scalar "dscp_ecn" 1
      ∷ Field.scalar "len" 2
      ∷ Field.scalar "ident" 2
      ∷ Field.scalar "flags_fragment" 2
      ∷ Field.scalar "ttl" 1
      ∷ Field.scalar "protocol" 1
      ∷ Field.scalar "checksum" 2
      ∷ Field.scalar "source" 4
      ∷ Field.scalar "dest" 4
      ∷ [];
}

-- `icmp_header_t`
abbrev pub icmp_header_t : Struct
icmp_header_t = record {
  packed = true;
  fields = Field.scalar "type" 1 ∷ Field.scalar "code" 1 ∷ Field.scalar "checksum" 2 ∷ [];
}

-- `udp_datagram_header_t`
abbrev pub udp_datagram_header_t : Struct
udp_datagram_header_t = record {
  packed = false;
  fields = Field.scalar "source_port" 2 ∷ Field.scalar "dest_port" 2 ∷ Field.scalar "length" 2 ∷ [];
}
