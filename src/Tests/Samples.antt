-- ===== src/Tests/Samples.antt =====
-- The data that the runs share: an address conversion that knows five texts, and a configuration.
use wirelab_experiments.Common.{
  ℕ, ◌<◌, ◌^◌, ◌≡◌, Option, none, some, if◌then◌else◌, Text, codes, text_eq, arith, map,
}
use wirelab_experiments.Inet.{Inet}
use wirelab_experiments.Config.{NetworkConfig}
use wirelab_experiments.Packet.{PacketMetadata, udp, dns}

unfoldable pub known_address : Text → Option ℕ
known_address text =
    if text_eq text (codes "10.0.0.1")
    then some 0x0a00_0001
    else if text_eq text (codes "10.0.0.2")
    then some 0x0a00_0002
    else if text_eq text (codes "192.168.1.1")
    then some 0xc0a8_0101
    else if text_eq text (codes "192.168.1.2")
    then some 0xc0a8_0102
    else none

pub known_address-lt : (text : Text) (a : ℕ) → known_address text ≡ some a → a < 2 ^ 32
unfolding known_address
known_address-lt text a h = ground arith

abbrev pub small_inet : Inet
small_inet = record {
  inet_pton = known_address;
  inet_pton-lt = known_address-lt;
  inet_ntop = λ bytes. map (λ b. b) bytes;
  inet6_ntop = λ bytes. map (λ b. b) bytes;
}

abbrev pub lab_config : NetworkConfig
lab_config = record {
  outer_interface = codes "eth0";
  inner_interface = codes "eth1";
  device_ipv4 = codes "10.0.0.2";
  inner_gateway_ipv4 = codes "10.0.0.1";
  inner_prefix = 24;
  outer_ipv4 = codes "192.168.1.2";
  outer_prefix = 24;
  outer_gateway_ipv4 = codes "192.168.1.1";
  outer_mac = codes "02:00:00:00:00:01";
  vlan_id = some 7;
}

abbrev pub query_packet : PacketMetadata
query_packet = record {
  timestamp = 5_000_000;
  wire_bytes = 80;
  source_ip = codes "10.0.0.2";
  destination_ip = codes "192.168.1.1";
  source_port = some 40000;
  destination_port = some 53;
  protocol = udp;
  application = dns;
}

abbrev pub reply_packet : PacketMetadata
reply_packet = record query_packet {
  wire_bytes = 120;
  source_ip = codes "192.168.1.1";
  destination_ip = codes "10.0.0.2";
}
