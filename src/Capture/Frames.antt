-- ===== src/Capture/Frames.antt =====
-- Frames for `dissect` of src/capture.cpp: Ethernet with two VLAN tags at most, IPv4 and UDP.
pub mod ReadBack
use wirelab_experiments.Common.{
  ℕ, ◌+◌, ◌-◌, ◌*◌, ◌/◌, ◌%◌, ◌^◌, ◌<◌, ◌≡◌, refl, bit_or, bit_and, Bool-cases, inl, inr, ◌⊎◌, Bool,
  true, false, List, [], ◌∷◌, some, length, ltb, arith, ◌&&◌, ◌||◌, ◌==◌,
}
use wirelab_experiments.Common.Words.{bit_or-shifted}
use wirelab_experiments.Inet.{Inet}
use wirelab_experiments.Packet.{PacketMetadata, Application, unknown, dns, udp, default_packet}
use wirelab_experiments.Capture.Reads.{continue, byte, u16, slice, byte_in_range, u16_in_range}
use wirelab_experiments.Capture.{
  Layer, Content, vlan_tags, ipv4_layer, network_layer, udp_layer, transport, ports, hint, is_dns,
  with_application, udp_hint, steps, dissect,
}

-- An IPv4 address, byte after byte.
pub record Address : Type 0 where
  pub a : ℕ
  pub b : ℕ
  pub c : ℕ
  pub d : ℕ

abbrev pub bytes : Address → List ℕ
bytes x = x.a ∷ x.b ∷ x.c ∷ x.d ∷ []

pub record Datagram : Type 0 where
  pub source : Address
  pub destination : Address
  pub source_port : ℕ
  pub destination_port : ℕ
  pub payload : List ℕ

-- A word of 16 bits in front of other bytes, the high byte first.
abbrev pub word : ℕ → List ℕ → List ℕ
word n rest = n / 2 ^ 8 ∷ (n % 2 ^ 8 ∷ rest)

-- The UDP header and the payload; the checksum is left out.
abbrev pub udp_bytes : Datagram → List ℕ
udp_bytes d =
    word d.source_port (word d.destination_port (word (8 + length d.payload) (word 0 d.payload)))

-- An IPv4 header without options, and the datagram.
abbrev pub ipv4_bytes : Datagram → List ℕ
ipv4_bytes d =
    0x45
    ∷ 0
    ∷ word (28 + length d.payload) (
        word 0 (
          word 0 (
            64
            ∷ 17
            ∷ word 0 (
                d.source.a
                ∷ d.source.b
                ∷ d.source.c
                ∷ d.source.d
                ∷ d.destination.a
                ∷ d.destination.b
                ∷ d.destination.c
                ∷ d.destination.d
                ∷ udp_bytes d))))

-- No VLAN tag, an 802.1Q tag, or one behind an 802.1ad tag.
pub data Tags : Type 0 where
  untagged : Tags
  tagged : ℕ → Tags
  double_tagged : ℕ → ℕ → Tags

abbrev pub tag_bytes : Tags → List ℕ → List ℕ
tag_bytes untagged rest = rest
tag_bytes (tagged t) rest = word 0x8100 (word t rest)
tag_bytes (double_tagged s t) rest = word 0x88a8 (word s (word 0x8100 (word t rest)))

abbrev pub tag_size : Tags → ℕ
tag_size untagged = 0
tag_size (tagged t) = 4
tag_size (double_tagged s t) = 8

-- The Ethernet header in front, with addresses that are not looked at.
abbrev pub udp_frame : Tags → Datagram → List ℕ
udp_frame tags d =
    0 ∷ 0 ∷ 0 ∷ 0 ∷ 0 ∷ 0 ∷ 0 ∷ 0 ∷ 0 ∷ 0 ∷ 0 ∷ 0 ∷ tag_bytes tags (word 0x0800 (ipv4_bytes d))
