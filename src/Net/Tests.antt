-- ===== src/Net/Tests.antt =====
-- A small memory and a NIC, and the theorems on the network stack applied there.
use mksd_old_archive.Base.{ℕ, ◌+◌, ◌%◌, ◌^◌, ◌<◌, ◌≡◌, inl, arith, some, [], ◌==◌, Memory}
use mksd_old_archive.Net.Checksum.{convert, internet_checksum}
use mksd_old_archive.Net.Checksum.Sum.{words_sum, internet_checksum_lem}
use mksd_old_archive.Net.{Env, Net, icmp_message}
use mksd_old_archive.Net.Message.{word_at, icmp_message-words_sum}

abbrev ram : Memory
ram a = a % 256

-- The third look at the NIC finds a packet.
abbrev env : Env
env = record {
  nic_mac = 100;
  polls = λ i. i == 2;
  arrive = λ m. m;
  received = 7000;
  frame = 1000;
  arp_packet = 2000;
  arp_mac = 3000;
  dest_mac = 3100;
  ip_packet = 4000;
  icmp_packet = 5000;
  udp_packet = 6000;
}

abbrev net : Net
net = record { memory = ram; sent = [] }

internet_checksum_lem_example :
    (c : ℕ) × (internet_checksum 4 ram 40 20 ≡ some c)
    × (c < 2 ^ 16)
    × ((convert c + words_sum 20 ram 40) % 65535 ≡ 0)
internet_checksum_lem_example = internet_checksum_lem ram 40 20 (omega arith)

icmp_message-words_sum_example :
    (m' : Memory) × (icmp_message 5000 8 0 8000 16 ram ≡ some m')
    × ((words_sum (4 + 16) m' 5000 + word_at ram (5000 + 2)) % 65535 ≡ 0)
icmp_message-words_sum_example =
    icmp_message-words_sum 5000 8 0 8000 16 ram (omega arith) (inl (omega arith))
