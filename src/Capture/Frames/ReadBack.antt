-- ===== src/Capture/Frames/ReadBack.antt =====
-- The frames of Capture/Frames, as `dissect` of src/capture.cpp reads them.
use wirelab_experiments.Common.{
  ℕ, ◌+◌, ◌-◌, ◌*◌, ◌/◌, ◌%◌, ◌^◌, ◌<◌, ◌≡◌, refl, bit_or, bit_and, Bool-cases, inl, inr, ◌⊎◌, Bool,
  true, false, some, length, ltb, arith, ◌&&◌, ◌||◌, ◌==◌,
}
use wirelab_experiments.Common.Words.{bit_or-shifted}
use wirelab_experiments.Inet.{Inet}
use wirelab_experiments.Packet.{PacketMetadata, Application, unknown, dns, udp, default_packet}
use wirelab_experiments.Capture.Reads.{continue, byte, u16, slice, byte_in_range, u16_in_range}
use wirelab_experiments.Capture.{
  Layer, Content, vlan_tags, ipv4_layer, network_layer, udp_layer, transport, ports, hint, is_dns,
  with_application, udp_hint, steps, dissect,
}
use wirelab_experiments.Capture.Frames.{
  bytes, Datagram, Tags, untagged, tagged, double_tagged, tag_size, udp_frame,
}

word_read : (n : ℕ) → n < 2 ^ 16 → bit_or (n / 2 ^ 8 * 2 ^ 8) (n % 2 ^ 8) % 2 ^ 16 ≡ n
word_read n h = omega (arith, bit_or-shifted 8 (n / 2 ^ 8) (n % 2 ^ 8) (omega arith))

module _ (d : Datagram) (p : PacketMetadata) where
  abbrev addressed : Inet → PacketMetadata
  addressed inet = record p {
    source_ip = inet.inet_ntop (bytes d.source);
    destination_ip = inet.inet_ntop (bytes d.destination);
  }

  abbrev layer : Tags → Inet → Layer
  layer tags inet = record {
    packet = addressed inet;
    protocol = 17;
    offset = tag_size tags + 34;
    end = tag_size tags + 42 + length d.payload;
    complete = true;
  }

  ipv4_layer-frame :
      (tags : Tags) (inet : Inet)
      → 28 + length d.payload < 2 ^ 16
      → ipv4_layer (udp_frame tags d) inet p (tag_size tags + 14) ≡ continue (layer tags inet)
  unfolding ipv4_layer byte u16 slice
  ipv4_layer-frame untagged inet h = ground (arith, word_read (28 + length d.payload) h)
  ipv4_layer-frame (tagged u) inet h = ground (arith, word_read (28 + length d.payload) h)
  ipv4_layer-frame (double_tagged u v) inet h = ground (arith, word_read (28 + length d.payload) h)

  -- What the UDP header adds.
  abbrev carried : Tags → Inet → Layer
  carried tags inet = record (layer tags inet) {
    packet = record (addressed inet) { protocol = udp };
  }

  udp_layer-frame :
      (tags : Tags) (inet : Inet)
      → 28 + length d.payload < 2 ^ 16
      → udp_layer (udp_frame tags d) (layer tags inet)
        ≡ continue (tag_size tags + 42, carried tags inet)
  unfolding udp_layer byte u16
  udp_layer-frame untagged inet h = ground (arith, word_read (8 + length d.payload) (omega arith))
  udp_layer-frame (tagged u) inet h = ground (arith, word_read (8 + length d.payload) (omega arith))
  udp_layer-frame (double_tagged u v) inet h =
      ground (arith, word_read (8 + length d.payload) (omega arith))

  abbrev with_ports : Inet → PacketMetadata
  with_ports inet = record (addressed inet) {
    protocol = udp;
    source_port = some d.source_port;
    destination_port = some d.destination_port;
  }

  ports-frame :
      (tags : Tags) (inet : Inet)
      → d.source_port < 2 ^ 16
      → d.destination_port < 2 ^ 16
      → ports (udp_frame tags d) (tag_size tags + 42, carried tags inet)
        ≡ continue (record {
          packet = with_ports inet;
          source_port = d.source_port;
          destination_port = d.destination_port;
          payload = tag_size tags + 42;
          end = tag_size tags + 42 + length d.payload;
        })
  unfolding ports byte u16
  ports-frame untagged inet s t =
      ground (arith, word_read d.source_port s, word_read d.destination_port t)
  ports-frame (tagged u) inet s t =
      ground (arith, word_read d.source_port s, word_read d.destination_port t)
  ports-frame (double_tagged u v) inet s t =
      ground (arith, word_read d.source_port s, word_read d.destination_port t)

  length-udp_frame :
      (tags : Tags) → length (udp_frame tags d) ≡ tag_size tags + 42 + length d.payload
  length-udp_frame untagged = omega arith
  length-udp_frame (tagged u) = omega arith
  length-udp_frame (double_tagged u v) = omega arith

  is_dns-frame :
      (tags : Tags)
      → (x : Bool) × (is_dns (udp_frame tags d) (tag_size tags + 42) (length d.payload)
          ≡ continue x)
  unfolding is_dns
  is_dns-frame tags = elim (Bool-cases (ltb (length d.payload) 12)) [
    | inl e ↦ (false, rw (e, is_dns) refl)
    | inr e ↦
        let (flags, f) =
          byte_in_range (udp_frame tags d) (tag_size tags + 42 + 2)
            (ground (arith, length-udp_frame tags)) in
        let (questions, q, small) =
          u16_in_range (udp_frame tags d) (tag_size tags + 42 + 4)
            (ground (arith, length-udp_frame tags)) in
        (bit_and flags 0x78 == 0 && ltb 0 questions, rw (e, f, q, is_dns) refl)
  ]

  abbrev content : Tags → Inet → Content
  content tags inet = record {
    packet = with_ports inet;
    source_port = d.source_port;
    destination_port = d.destination_port;
    payload = tag_size tags + 42;
    end = tag_size tags + 42 + length d.payload;
  }

  -- The application that may be noted.
  abbrev pub IsHint : Application → Type 0
  IsHint a = (a ≡ p.application) ⊎ ((a ≡ dns) × ((d.source_port ≡ 53) ⊎ (d.destination_port ≡ 53)))

  abbrev to_dns_port : Bool
  to_dns_port = d.source_port == 53 || d.destination_port == 53

  noted :
      (tags : Tags) (inet : Inet) (x : Bool)
      → is_dns (udp_frame tags d) (tag_size tags + 42) (length d.payload) ≡ continue x
      → hint (udp_frame tags d) (content tags inet)
        ≡ continue (with_application (udp_frame tags d) dns (to_dns_port && x) (with_ports inet))
  unfolding hint udp_hint slice with_application
  noted tags inet x e =
      let size : tag_size tags + 42 + length d.payload - (tag_size tags + 42) ≡ length d.payload =
        omega arith in
      elim (Bool-cases to_dns_port) [
        | inl t ↦ rw (t, size, e) (ground (arith, length-udp_frame tags))
        | inr t ↦ rw t (ground (arith, length-udp_frame tags))
      ]

  hint-frame :
      (tags : Tags) (inet : Inet)
      → (a : Application) × (hint (udp_frame tags d) (content tags inet)
          ≡ continue (record (with_ports inet) { application = a }))
        × IsHint a
  unfolding with_application
  hint-frame tags inet =
      let (x, e) = is_dns-frame tags in
      elim (Bool-cases (to_dns_port && x)) [
        | inl t ↦ (dns, rw (noted tags inet x e, t) refl, ground arith)
        | inr t ↦ (p.application, rw (noted tags inet x e, t) refl, inl refl)
      ]

  tags-frame :
      (tags : Tags)
      → (type : ℕ) × (u16 (udp_frame tags d) 12 ≡ continue type)
        × (vlan_tags (udp_frame tags d) 2 p type 14 ≡ continue (0x0800, tag_size tags + 14))
  unfolding vlan_tags u16 byte
  tags-frame untagged = (_, refl, refl)
  tags-frame (tagged u) = (_, refl, ground arith)
  tags-frame (double_tagged u v) = (_, refl, ground arith)

  steps-frame :
      (tags : Tags) (inet : Inet)
      → d.source_port < 2 ^ 16
      → d.destination_port < 2 ^ 16
      → 28 + length d.payload < 2 ^ 16
      → (a : Application) × (steps (udp_frame tags d) inet p
          ≡ continue (record (with_ports inet) { application = a }))
        × IsHint a
  unfolding steps network_layer transport
  steps-frame tags inet s t h =
      let (a, e, k) = hint-frame tags inet in
      let long : ltb (length (udp_frame tags d)) 14 ≡ false =
        ground (arith, length-udp_frame tags) in
      let (type, first, behind) = tags-frame tags in
      (
        a,
        rw
            (
              first,
              behind,
              ipv4_layer-frame tags inet h,
              udp_layer-frame tags inet h,
              ports-frame tags inet s t,
              e,
              long,
            )
            refl,
        k,
      )

-- A frame with two VLAN tags at most, an IPv4 header, a UDP header and a payload that fits them is
-- read back, whatever the tags, the addresses, the ports of 16 bits and the payload: the packet has
-- the addresses as `inet_ntop` prints them, both ports, the protocol UDP, the given length and time,
-- and no hint but DNS, and that only with port 53.
pub dissect-frame :
    (inet : Inet) (tags : Tags) (d : Datagram) (size timestamp : ℕ)
    → d.source_port < 2 ^ 16
    → d.destination_port < 2 ^ 16
    → 28 + length d.payload < 2 ^ 16
    → (a : Application) × (dissect inet (udp_frame tags d) size timestamp
        ≡ some (record {
          timestamp = timestamp;
          wire_bytes = size;
          source_ip = inet.inet_ntop (bytes d.source);
          destination_ip = inet.inet_ntop (bytes d.destination);
          source_port = some d.source_port;
          destination_port = some d.destination_port;
          protocol = udp;
          application = a;
        }))
      × ((a ≡ unknown) ⊎ ((a ≡ dns) × ((d.source_port ≡ 53) ⊎ (d.destination_port ≡ 53))))
unfolding dissect
dissect-frame inet tags d size timestamp s t h =
    let (a, e, k) =
      steps-frame d (record default_packet { timestamp = timestamp; wire_bytes = size }) tags inet s
        t h in
    (a, rw (e, dissect) refl, k)
