-- ===== src/Packet.antt =====
-- The metadata of include/magicbox/engine.hpp. A port is below 2 ^ 16 and `wire_bytes` below 2 ^ 32;
-- a time stamp counts nanoseconds from the epoch.
use wirelab_experiments.Common.{ℕ, Text, Option, none, []}

pub data Protocol : Type 0 where
  other tcp udp icmp : Protocol

pub data Application : Type 0 where
  unknown http dns tls : Application

pub record PacketMetadata : Type 0 where
  pub timestamp : ℕ
  pub wire_bytes : ℕ
  pub source_ip : Text
  pub destination_ip : Text
  pub source_port : Option ℕ
  pub destination_port : Option ℕ
  pub protocol : Protocol
  pub application : Application

-- `PacketMetadata p{}`
abbrev pub default_packet : PacketMetadata
default_packet = record {
  timestamp = 0;
  wire_bytes = 0;
  source_ip = [];
  destination_ip = [];
  source_port = none;
  destination_port = none;
  protocol = Protocol.other;
  application = Application.unknown;
}
