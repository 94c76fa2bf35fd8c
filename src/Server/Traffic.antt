-- ===== src/Server/Traffic.antt =====
-- `sample` of src/server.cpp up to the metrics: the packets that `drain` returned are counted by
-- protocol, by source and by flow, in maps of bounded size, and the last 200 are kept. A map is an
-- association list, since no result here depends on its order. Counters are words of 64 bits.
pub mod Sums
use mathlib.Core.Option
use wirelab_experiments.Common.{
  ℕ, zero, suc, ◌+◌, ◌-◌, ◌*◌, ◌/◌, ◌%◌, ◌^◌, ◌≤◌, ◌<◌, Bool, true, false, not, ◌&&◌, ◌||◌, List,
  [], ◌∷◌, ◌++◌, Option, none, some, ◌≡◌, ◌≢◌, refl, ap, sym, ◌∙◌, Text, codes, text_eq, length,
  drop, ltb, leb, ◌==◌, if◌then◌else◌, arith, length-append, length-drop, Bool-cases, inl, inr,
}
use wirelab_experiments.Packet.{PacketMetadata, Protocol, other, tcp, udp, icmp}

-- `std::map<std::string, V>`
abbrev pub Map : Type 0 → Type 0
Map V = List (Text × V)

module _ {V : Type 0} where
  unfoldable pub contains : Text → Map V → Bool
  contains k [] = false
  contains k ((j, v) ∷ m) = text_eq j k || contains k m

  -- `m[k] = change(m[k])`, where an absent entry is first made from `fresh`.
  unfoldable pub update : Text → V → (V → V) → Map V → Map V
  update k fresh change [] = (k, change fresh) ∷ []
  update k fresh change ((j, v) ∷ m) =
      if text_eq j k then (j, change v) ∷ m else (j, v) ∷ update k fresh change m

-- What the code keeps of a flow: the last packet, and the sums.
pub record Flow : Type 0 where
  pub packet : PacketMetadata
  pub first_seen : ℕ
  pub packets : ℕ
  pub bytes : ℕ

pub record Traffic : Type 0 where
  pub flows : Map Flow
  pub protocols : Map ℕ
  pub talkers : Map ℕ
  pub recent : List PacketMetadata
  pub flows_omitted : ℕ
  pub talkers_omitted : ℕ

unfoldable pub protocol_name : Protocol → Text
protocol_name other = codes "other"
protocol_name tcp = codes "tcp"
protocol_name udp = codes "udp"
protocol_name icmp = codes "icmp"

-- `asString` of a port, which is empty for null: decimal digits, most significant first.
unfoldable pub decimal : ℕ → ℕ → Text → Text
decimal zero n rest = rest
decimal (suc fuel) n rest =
    let front = decimal fuel (n / 10) ((b'0' + n % 10) ∷ rest) in
    if ltb n 10 then (b'0' + n) ∷ rest else front

-- A port has five digits at most.
abbrev pub port_text : Option ℕ → Text
port_text none = []
port_text (some p) = decimal 5 p []

abbrev pub bar : Text
bar = b'|' ∷ []

unfoldable pub flow_key : Text → PacketMetadata → Text
flow_key interface p =
    interface
    ++ (bar
        ++ (p.source_ip
            ++ (bar
                ++ (p.destination_ip
                    ++ (bar
                        ++ (protocol_name p.protocol
                            ++ (bar
                                ++ (port_text p.source_port
                                    ++ (bar ++ port_text p.destination_port)))))))))

-- `timestamp_ms`
abbrev pub milliseconds : PacketMetadata → ℕ
milliseconds p = p.timestamp / 10 ^ 6

abbrev pub add_word : ℕ → ℕ → ℕ
add_word a b = (a + b) % 2 ^ 64

unfoldable pub add_flow : Text → PacketMetadata → Traffic → Traffic
add_flow key p t =
    if contains key t.flows || ltb (length t.flows) 4096
    then record t {
      flows =
          update key (record { packet = p; first_seen = milliseconds p; packets = 0; bytes = 0 })
            (λ f. record f { packet = p; packets = f.packets + 1; bytes = f.bytes + p.wire_bytes })
            t.flows;
    }
    else record t { flows_omitted = add_word t.flows_omitted 1 }

unfoldable pub add_protocol : PacketMetadata → Traffic → Traffic
add_protocol p t = record t {
  protocols = update (protocol_name p.protocol) 0 (λ n. add_word n 1) t.protocols;
}

unfoldable pub add_talker : PacketMetadata → Traffic → Traffic
add_talker p t =
    if contains p.source_ip t.talkers || ltb (length t.talkers) 1024
    then record t { talkers = update p.source_ip 0 (λ n. add_word n p.wire_bytes) t.talkers }
    else record t { talkers_omitted = add_word t.talkers_omitted 1 }

abbrev pub has_source : PacketMetadata → Bool
has_source p = not (length p.source_ip == 0)

-- The body of the loop over the drained packets.
unfoldable pub add_packet : Text → PacketMetadata → Traffic → Traffic
add_packet interface p t =
    let t1 = if has_source p then add_flow (flow_key interface p) p t else t in
    let t2 = add_protocol p t1 in
    let t3 = if has_source p then add_talker p t2 else t2 in
    record t3 { recent = t3.recent ++ p ∷ [] }

unfoldable pub add_packets : Text → List PacketMetadata → Traffic → Traffic
add_packets interface [] t = t
add_packets interface (p ∷ ps) t = add_packets interface ps (add_packet interface p t)

-- `recent_` keeps its last 200 elements.
unfoldable pub trim : List PacketMetadata → List PacketMetadata
trim recent = if ltb 200 (length recent) then drop (length recent - 200) recent else recent

-- The part of `sample` before the metrics.
unfoldable pub collect : Text → List PacketMetadata → Traffic → Traffic
collect interface ps t =
    let t' = add_packets interface ps t in record t' { recent = trim t'.recent }

-- The end of `sample`, and with `recent` empty the start of a capture.
unfoldable pub clear : Traffic → Traffic
clear t = record {
  flows = [];
  protocols = [];
  talkers = [];
  recent = t.recent;
  flows_omitted = 0;
  talkers_omitted = 0;
}
