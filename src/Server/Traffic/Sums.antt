-- ===== src/Server/Traffic/Sums.antt =====
-- The bounds and the sums of the aggregation in src/server.cpp.
use wirelab_experiments.Common.{
  ℕ, ◌+◌, ◌-◌, ◌%◌, ◌^◌, ◌≤◌, ◌<◌, List, [], ◌∷◌, ◌≡◌, ◌⊎◌, Text, length, if◌then◌else◌, arith,
  length-drop,
}
use wirelab_experiments.Packet.{PacketMetadata}
use wirelab_experiments.Server.Traffic.{
  Map, contains, update, Flow, Traffic, protocol_name, flow_key, add_word, add_flow, add_protocol,
  add_talker, has_source, milliseconds, add_packet, add_packets, trim, collect,
}

length-update :
    {V : Type 0} (k : Text) (fresh : V) (change : V → V) (m : Map V)
    → length (update k fresh change m) ≡ (if contains k m then length m else length m + 1)
unfolding update contains
length-update k fresh change [] = omega arith
length-update k fresh change ((j, v) ∷ m) = ground (arith, length-update k fresh change m)

abbrev pub total : Map ℕ → ℕ
total [] = 0
total ((k, n) ∷ m) = n + total m

-- A counter that is raised raises the sum by as much, modulo 2 ^ 64.
total-update :
    (k : Text) (a : ℕ) (m : Map ℕ)
    → total (update k 0 (λ n. add_word n a) m) % 2 ^ 64 ≡ (total m + a) % 2 ^ 64
unfolding update
total-update k a [] = omega arith
total-update k a ((j, n) ∷ m) = ground (arith, total-update k a m)

-- The bytes of the packets that have a source address.
abbrev pub sourced_bytes : List PacketMetadata → ℕ
sourced_bytes [] = 0
sourced_bytes (p ∷ ps) = (if has_source p then p.wire_bytes else 0) + sourced_bytes ps

pub record IsBounded (t : Traffic) : Type 0 where
  pub flows : length t.flows ≤ 4096
  pub talkers : length t.talkers ≤ 1024

add_flow-flows :
    (key : Text) (p : PacketMetadata) (t : Traffic)
    → length t.flows ≤ 4096
    → length (add_flow key p t).flows ≤ 4096
unfolding add_flow
add_flow-flows key p t h = ground (
  arith,
  length-update key (record { packet = p; first_seen = milliseconds p; packets = 0; bytes = 0 })
      (λ (f : Flow). record f {
        packet = p;
        packets = f.packets + 1;
        bytes = f.bytes + p.wire_bytes;
      })
      t.flows,
)

add_talker-flows : (p : PacketMetadata) (t : Traffic) → (add_talker p t).flows ≡ t.flows
unfolding add_talker
add_talker-flows p t = ground arith

add_packet-protocols :
    (interface : Text) (p : PacketMetadata) (t : Traffic)
    → total (add_packet interface p t).protocols % 2 ^ 64 ≡ (total t.protocols + 1) % 2 ^ 64
unfolding add_packet add_flow add_protocol add_talker
add_packet-protocols interface p t =
    ground (arith, total-update (protocol_name p.protocol) 1 t.protocols)

-- One packet leaves its bytes with a talker, or is counted as omitted.
add_packet-talkers :
    (interface : Text) (p : PacketMetadata) (t : Traffic)
    → let t' = add_packet interface p t in
      ((t'.talkers_omitted ≡ t.talkers_omitted)
        × (total t'.talkers % 2 ^ 64 ≡ (total t.talkers + sourced_bytes (p ∷ [])) % 2 ^ 64))
      ⊎ (t'.talkers_omitted ≡ add_word t.talkers_omitted 1)
unfolding add_packet add_flow add_protocol add_talker
add_packet-talkers interface p t = ground (arith, total-update p.source_ip p.wire_bytes t.talkers)

add_packet-flows :
    (interface : Text) (p : PacketMetadata) (t : Traffic)
    → (add_packet interface p t).flows
      ≡ (if has_source p then (add_flow (flow_key interface p) p t).flows else t.flows)
unfolding add_packet add_protocol
add_packet-flows interface p t =
    ground (arith, add_talker-flows p (add_protocol p (add_flow (flow_key interface p) p t)))

add_packet-talkers_length :
    (interface : Text) (p : PacketMetadata) (t : Traffic)
    → length t.talkers ≤ 1024
    → length (add_packet interface p t).talkers ≤ 1024
unfolding add_packet add_flow add_protocol add_talker
add_packet-talkers_length interface p t h =
    ground (arith, length-update p.source_ip 0 (λ n. add_word n p.wire_bytes) t.talkers)

add_packet-IsBounded :
    (interface : Text) (p : PacketMetadata) (t : Traffic)
    → IsBounded t
    → IsBounded (add_packet interface p t)
add_packet-IsBounded interface p t v = record {
  flows = ground (
    arith,
    add_packet-flows interface p t,
    add_flow-flows (flow_key interface p) p t v.flows,
    v.flows,
  );
  talkers = add_packet-talkers_length interface p t v.talkers;
}

add_packets-IsBounded :
    (interface : Text) (ps : List PacketMetadata) (t : Traffic)
    → IsBounded t
    → IsBounded (add_packets interface ps t)
unfolding add_packets
add_packets-IsBounded interface [] t v = v
add_packets-IsBounded interface (p ∷ ps) t v =
    add_packets-IsBounded interface ps (add_packet interface p t)
      (add_packet-IsBounded interface p t v)

length-trim : (recent : List PacketMetadata) → length (trim recent) ≤ 200
unfolding trim
length-trim recent = ground (arith, length-drop (length recent - 200) recent)

-- However many packets are drained, the maps and the list of recent packets keep their bounds.
pub collect-IsBounded :
    (interface : Text) (ps : List PacketMetadata) (t : Traffic)
    → IsBounded t
    → IsBounded (collect interface ps t) × (length (collect interface ps t).recent ≤ 200)
unfolding collect trim
collect-IsBounded interface ps t v =
    let w = add_packets-IsBounded interface ps t v in
    (
      record { flows = w.flows; talkers = w.talkers },
      length-trim (add_packets interface ps t).recent,
    )

add_packets-protocols :
    (interface : Text) (ps : List PacketMetadata) (t : Traffic)
    → total (add_packets interface ps t).protocols % 2 ^ 64
      ≡ (total t.protocols + length ps) % 2 ^ 64
unfolding add_packets
add_packets-protocols interface [] t = omega arith
add_packets-protocols interface (p ∷ ps) t = omega (
  arith,
  add_packets-protocols interface ps (add_packet interface p t),
  add_packet-protocols interface p t,
)

add_packets-talkers :
    (interface : Text) (ps : List PacketMetadata) (t : Traffic)
    → t.talkers_omitted + length ps < 2 ^ 64
    → let t' = add_packets interface ps t in
      ((t'.talkers_omitted ≡ t.talkers_omitted)
        × (total t'.talkers % 2 ^ 64 ≡ (total t.talkers + sourced_bytes ps) % 2 ^ 64))
      ⊎ (t.talkers_omitted < t'.talkers_omitted)
unfolding add_packets
add_packets-talkers interface [] t h = ground arith
add_packets-talkers interface (p ∷ ps) t h = ground (
  arith,
  add_packet-talkers interface p t,
  add_packets-talkers interface ps (add_packet interface p t),
)

-- Modulo 2 ^ 64, the protocol counts add up to the packets that were drained.
pub collect-protocols :
    (interface : Text) (ps : List PacketMetadata) (t : Traffic)
    → total (collect interface ps t).protocols % 2 ^ 64 ≡ (total t.protocols + length ps) % 2 ^ 64
unfolding collect
collect-protocols interface ps t = add_packets-protocols interface ps t

-- When `talkers_omitted` is 0 before and after fewer than 2 ^ 64 packets, the talkers account, modulo 2 ^ 64, for every byte of the packets that have a source address.
pub collect-talkers :
    (interface : Text) (ps : List PacketMetadata) (t : Traffic)
    → t.talkers_omitted ≡ 0
    → length ps < 2 ^ 64
    → (collect interface ps t).talkers_omitted ≡ 0
    → total (collect interface ps t).talkers % 2 ^ 64
      ≡ (total t.talkers + sourced_bytes ps) % 2 ^ 64
unfolding collect
collect-talkers interface ps t none_before h none_after =
    ground (arith, add_packets-talkers interface ps t (omega arith))
