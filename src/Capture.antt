-- ===== src/Capture.antt =====
-- `dissect` of src/capture.cpp: Ethernet, two VLAN tags at most, IPv4 or IPv6, TCP or UDP, and hints
-- at the application. A frame is the list of its captured bytes, each below 256.
pub mod Reads
pub mod Safety
pub mod Source
pub mod Frames
use wirelab_experiments.Common.{
  ℕ, zero, suc, ◌+◌, ◌-◌, ◌*◌, ◌/◌, ◌%◌, ◌^◌, ◌≤◌, min, bit_and, Bool, true, false, not, ◌&&◌, ◌||◌,
  List, [], ◌∷◌, Option, none, some, Text, codes, length, ltb, leb, ◌==◌, if◌then◌else◌,
}
use wirelab_experiments.Inet.{Inet}
use wirelab_experiments.Packet.{
  PacketMetadata, Protocol, tcp, udp, icmp, Application, http, dns, tls, default_packet,
}
use Reads.{Parse, fault, finish, continue, ◌>>=◌, ◌>>◌, return_if, byte, u16, slice}

-- What the code knows behind the network header: where the transport header starts, where the
-- packet ends in the captured bytes, and whether it was captured whole.
pub record Layer : Type 0 where
  pub packet : PacketMetadata
  pub protocol : ℕ
  pub offset : ℕ
  pub end : ℕ
  pub complete : Bool

-- The same behind the transport header, with the ports read.
pub record Content : Type 0 where
  pub packet : PacketMetadata
  pub source_port : ℕ
  pub destination_port : ℕ
  pub payload : ℕ
  pub end : ℕ

unfoldable pub starts_with : Text → Text → Bool
starts_with content [] = true
starts_with [] (p ∷ ps) = false
starts_with (c ∷ cs) (p ∷ ps) = c == p && starts_with cs ps

abbrev pub http_prefixes : List Text
http_prefixes =
    codes "GET "
    ∷ codes "POST "
    ∷ codes "HEAD "
    ∷ codes "PUT "
    ∷ codes "DELETE "
    ∷ codes "OPTIONS "
    ∷ codes "HTTP/1."
    ∷ []

-- The loop that sets `http`.
unfoldable pub any_prefix : List Text → Text → Bool
any_prefix [] content = false
any_prefix (p ∷ ps) content = starts_with content p || any_prefix ps content

abbrev pub is_vlan : ℕ → Bool
is_vlan type = type == 0x8100 || type == 0x88a8

module _ (b : List ℕ) where
  -- The loop over VLAN tags, with the rounds left; the type and the offset behind the tags.
  unfoldable pub vlan_tags : ℕ → PacketMetadata → ℕ → ℕ → Parse (ℕ × ℕ)
  vlan_tags zero p type offset = continue (type, offset)
  vlan_tags (suc left) p type offset =
      if is_vlan type
      then (do
        return_if (ltb (length b) (offset + 4)) p
        next ← u16 b (offset + 2)
        vlan_tags left p next (offset + 4))
      else continue (type, offset)

  unfoldable pub tcp_layer : Layer → Parse (ℕ × Layer)
  tcp_layer l = do
    let p = record (l.packet) { protocol = tcp }
    return_if (ltb l.end (l.offset + 20)) p
    words ← byte b (l.offset + 12)
    let header = words / 16 * 4
    return_if (ltb header 20 || ltb l.end (l.offset + header)) p
    continue (l.offset + header, record l { packet = p })

  unfoldable pub udp_layer : Layer → Parse (ℕ × Layer)
  udp_layer l = do
    let p = record (l.packet) { protocol = udp }
    return_if (ltb l.end (l.offset + 8)) p
    size ← u16 b (l.offset + 4)
    return_if (ltb size 8) p
    continue (
      l.offset + 8,
      record l {
        packet = p;
        complete = l.complete && leb (l.offset + size) l.end;
        end = min l.end (l.offset + size);
      },
    )

  -- The branches on the transport protocol: where the payload starts, and the layer.
  unfoldable pub transport : Layer → Parse (ℕ × Layer)
  transport l =
      if l.protocol == 6
      then tcp_layer l
      else if l.protocol == 17
      then udp_layer l
      else if l.protocol == 1 || l.protocol == 58
      then finish (record (l.packet) { protocol = icmp })
      else finish l.packet

  -- The ports, and the end of the packets that were not captured whole.
  unfoldable pub ports : ℕ × Layer → Parse Content
  ports (payload, l) = do
    source ← u16 b l.offset
    destination ← u16 b (l.offset + 2)
    let p = record (l.packet) { source_port = some source; destination_port = some destination }
    return_if (not l.complete) p
    continue (record {
      packet = p;
      source_port = source;
      destination_port = destination;
      payload = payload;
      end = l.end;
    })

  -- The test for a TLS handshake record with a client or server hello, byte after byte.
  unfoldable pub is_tls : ℕ → ℕ → Parse Bool
  is_tls payload size = if ltb size 6 then continue false else do
    kind ← byte b payload
    major ← byte b (payload + 1)
    minor ← byte b (payload + 2)
    hello ← byte b (payload + 5)
    continue (kind == 22 && (major == 3 && (leb minor 4 && (hello == 1 || hello == 2))))

  -- The test for a standard query or answer with a question.
  unfoldable pub is_dns : ℕ → ℕ → Parse Bool
  is_dns payload size = if ltb size 12 then continue false else do
    flags ← byte b (payload + 2)
    questions ← u16 b (payload + 4)
    continue (bit_and flags 0x78 == 0 && ltb 0 questions)

  unfoldable pub with_application : Application → Bool → PacketMetadata → PacketMetadata
  with_application a test p = if test then record p { application = a } else p

  unfoldable pub tcp_hint : Content → Parse PacketMetadata
  tcp_hint c = do
    content ← slice b c.payload c.end
    tls_hello ← is_tls c.payload (c.end - c.payload)
    continue (
        with_application tls tls_hello
          (with_application http (any_prefix http_prefixes content) c.packet))

  unfoldable pub udp_hint : Content → Parse PacketMetadata
  udp_hint c = do
    content ← slice b c.payload c.end
    if c.source_port == 53 || c.destination_port == 53
        then (do
          query ← is_dns c.payload (c.end - c.payload)
          continue (with_application dns query c.packet))
        else continue c.packet

  unfoldable pub hint : Content → Parse PacketMetadata
  hint c = elim c.packet.protocol [ tcp ↦ tcp_hint c | _ ↦ udp_hint c ]

  module _ (inet : Inet) where
    unfoldable pub ipv4_layer : PacketMetadata → ℕ → Parse Layer
    ipv4_layer p offset = do
      return_if (ltb (length b) (offset + 20)) p
      first ← byte b offset
      return_if (not (first / 16 == 4)) p
      let header = first % 16 * 4
      total ← u16 b (offset + 2)
      return_if (ltb header 20 || (ltb total header || ltb (length b) (offset + header))) p
      source ← slice b (offset + 12) (offset + 16)
      destination ← slice b (offset + 16) (offset + 20)
      let p' = record p {
        source_ip = inet.inet_ntop source;
        destination_ip = inet.inet_ntop destination;
      }
      protocol ← byte b (offset + 9)
      fragment ← u16 b (offset + 6)
      return_if (not (fragment % 0x4000 == 0)) p'
      continue (record {
        packet = p';
        protocol = protocol;
        offset = offset + header;
        end = min (length b) (offset + total);
        complete = leb (offset + total) (length b);
      })

    unfoldable pub ipv6_layer : PacketMetadata → ℕ → Parse Layer
    ipv6_layer p offset = do
      return_if (ltb (length b) (offset + 40)) p
      first ← byte b offset
      return_if (not (first / 16 == 6)) p
      size ← u16 b (offset + 4)
      source ← slice b (offset + 8) (offset + 24)
      destination ← slice b (offset + 24) (offset + 40)
      protocol ← byte b (offset + 6)
      continue (record {
        packet = record p {
          source_ip = inet.inet6_ntop source;
          destination_ip = inet.inet6_ntop destination;
        };
        protocol = protocol;
        offset = offset + 40;
        end = min (length b) (offset + 40 + size);
        complete = leb (offset + 40 + size) (length b);
      })

    unfoldable pub network_layer : PacketMetadata → ℕ × ℕ → Parse Layer
    network_layer p (type, offset) =
        if type == 0x0800
        then ipv4_layer p offset
        else if type == 0x86dd
        then ipv6_layer p offset
        else finish p

    unfoldable pub steps : PacketMetadata → Parse PacketMetadata
    steps p = do
      return_if (ltb (length b) 14) p
      type ← u16 b 12
      tagged ← vlan_tags 2 p type 14
      layer ← network_layer p tagged
      carried ← transport layer
      content ← ports carried
      hint content

-- `none` stands for a read outside the frame.
abbrev pub result : Parse PacketMetadata → Option PacketMetadata
result fault = none
result (finish p) = some p
result (continue p) = some p

unfoldable pub dissect : Inet → List ℕ → ℕ → ℕ → Option PacketMetadata
dissect inet b size timestamp =
    result (steps b inet (record default_packet { timestamp = timestamp; wire_bytes = size }))
