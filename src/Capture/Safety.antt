-- ===== src/Capture/Safety.antt =====
-- What `dissect` of src/capture.cpp reads, and what its result says of the packet.
use wirelab_experiments.Common.{
  ℕ, zero, suc, ◌+◌, ◌-◌, ◌≤◌, Bool, List, none, some, length, ltb, ◌≡◌, ◌≢◌, ◌⊎◌, inl, inr, refl,
  arith, Bool-cases,
}
use wirelab_experiments.Inet.{Inet}
use wirelab_experiments.Packet.{PacketMetadata, tcp, udp, unknown, dns}
use wirelab_experiments.Capture.Reads.{
  Parse, fault, finish, continue, ◌>>=◌, byte_in_range, u16_in_range, slice_in_range,
}
use wirelab_experiments.Capture.{
  Layer, Content, vlan_tags, tcp_layer, udp_layer, transport, ports, is_tls, is_dns,
  with_application, tcp_hint, udp_hint, hint, ipv4_layer, ipv6_layer, network_layer, steps, result,
  dissect,
}

-- A step does not fault; the packet that it returns satisfies `P`, the value that it goes on with `Q`.
abbrev Ensures : {A : Type 0} → (PacketMetadata → Type 0) → (A → Type 0) → Parse A → Type 0
Ensures P Q fault = ⊥
Ensures P Q (finish p) = P p
Ensures P Q (continue a) = Q a

>>=-Ensures :
    {A B : Type 0} (P P' : PacketMetadata → Type 0) (Q : A → Type 0) (R : B → Type 0) (m : Parse A)
    (f : A → Parse B)
    → ((p : PacketMetadata) → P p → P' p)
    → Ensures P Q m
    → ((a : A) → Q a → Ensures P' R (f a))
    → Ensures P' R (m >>= f)
>>=-Ensures P P' Q R fault f w h k = h
>>=-Ensures P P' Q R (finish p) f w h k = w p h
>>=-Ensures P P' Q R (continue a) f w h k = k a h

result-Ensures :
    (P : PacketMetadata → Type 0) (m : Parse PacketMetadata)
    → Ensures P P m
    → (p : PacketMetadata) × (result m ≡ some p) × P p
result-Ensures P fault h = absurd h
result-Ensures P (finish p) h = (p, refl, h)
result-Ensures P (continue p) h = (p, refl, h)

-- The result describes the packet with this length and time: ports only on TCP and UDP and then
-- both, HTTP and TLS only on TCP, DNS only on UDP with port 53.
pub record IsConsistent (size timestamp : ℕ) (p : PacketMetadata) : Type 0 where
  pub wire_bytes : p.wire_bytes ≡ size
  pub stamp : p.timestamp ≡ timestamp
  pub ports :
      ((p.source_port ≡ none) × (p.destination_port ≡ none) × (p.application ≡ unknown))
      ⊎ ((s : ℕ) × (d : ℕ) × (p.source_port ≡ some s)
          × (p.destination_port ≡ some d)
          × (((p.protocol ≡ tcp) × (p.application ≢ dns))
              ⊎ ((p.protocol ≡ udp)
                  × ((p.application ≡ unknown) ⊎ ((p.application ≡ dns) × ((s ≡ 53) ⊎ (d ≡ 53)))))))

module _ (size timestamp : ℕ) (b : List ℕ) where
  -- No port or hint yet.
  abbrev IsBare : PacketMetadata → Type 0
  IsBare p =
      (p.wire_bytes ≡ size)
      × (p.timestamp ≡ timestamp)
      × (p.source_port ≡ none)
      × (p.destination_port ≡ none)
      × (p.application ≡ unknown)

  abbrev InRange : Layer → Type 0
  InRange l = IsBare l.packet × (l.offset ≤ l.end) × (l.end ≤ length b)

  tags-Ensures :
      (left : ℕ) (p : PacketMetadata) (type offset : ℕ)
      → IsBare p
      → offset ≤ length b
      → Ensures IsBare (λ t. t.1 ≤ length b) (vlan_tags b left p type offset)
  unfolding vlan_tags
  tags-Ensures zero p type offset h k = k
  tags-Ensures (suc left) p type offset h k = elim (Bool-cases (ltb (length b) (offset + 4))) [
    | inl short ↦ ground arith
    | inr long ↦
        let (x, e, _) = u16_in_range b (offset + 2) (ground arith) in
        let rest = tags-Ensures left p x (offset + 4) h (ground arith) in ground (arith, e, rest)
  ]

  ipv4-Ensures :
      (inet : Inet) (p : PacketMetadata) (offset : ℕ)
      → IsBare p
      → Ensures IsBare InRange (ipv4_layer b inet p offset)
  unfolding ipv4_layer
  ipv4-Ensures inet p offset h = ground (
    arith,
    byte_in_range b offset,
    u16_in_range b (offset + 2),
    slice_in_range b (offset + 12) (offset + 16),
    slice_in_range b (offset + 16) (offset + 20),
    byte_in_range b (offset + 9),
    u16_in_range b (offset + 6),
  )

  ipv6-Ensures :
      (inet : Inet) (p : PacketMetadata) (offset : ℕ)
      → IsBare p
      → Ensures IsBare InRange (ipv6_layer b inet p offset)
  unfolding ipv6_layer
  ipv6-Ensures inet p offset h = ground (
    arith,
    byte_in_range b offset,
    u16_in_range b (offset + 4),
    slice_in_range b (offset + 8) (offset + 24),
    slice_in_range b (offset + 24) (offset + 40),
    byte_in_range b (offset + 6),
  )

  network-Ensures :
      (inet : Inet) (p : PacketMetadata) (t : ℕ × ℕ)
      → IsBare p
      → Ensures IsBare InRange (network_layer b inet p t)
  unfolding network_layer
  network-Ensures inet p (type, offset) h =
      ground (arith, ipv4-Ensures inet p offset h, ipv6-Ensures inet p offset h)

  -- The payload lies between the transport header, with the ports, and the end of the packet.
  abbrev IsCarried : ℕ × Layer → Type 0
  IsCarried (payload, l) =
      IsBare l.packet
      × (l.offset + 8 ≤ payload)
      × (payload ≤ l.end)
      × (l.end ≤ length b)
      × ((l.packet.protocol ≡ tcp) ⊎ (l.packet.protocol ≡ udp))

  tcp-Ensures : (l : Layer) → InRange l → Ensures IsBare IsCarried (tcp_layer b l)
  unfolding tcp_layer
  tcp-Ensures l h = ground (arith, byte_in_range b (l.offset + 12))

  udp-Ensures : (l : Layer) → InRange l → Ensures IsBare IsCarried (udp_layer b l)
  unfolding udp_layer
  udp-Ensures l h = ground (arith, u16_in_range b (l.offset + 4))

  transport-Ensures : (l : Layer) → InRange l → Ensures IsBare IsCarried (transport b l)
  unfolding transport
  transport-Ensures l h = ground (arith, tcp-Ensures l h, udp-Ensures l h)

  abbrev Result : PacketMetadata → Type 0
  Result = IsConsistent size timestamp

  abbrev HasPorts : Content → Type 0
  HasPorts c =
      (c.packet.wire_bytes ≡ size)
      × (c.packet.timestamp ≡ timestamp)
      × (c.packet.source_port ≡ some c.source_port)
      × (c.packet.destination_port ≡ some c.destination_port)
      × (c.packet.application ≡ unknown)
      × ((c.packet.protocol ≡ tcp) ⊎ (c.packet.protocol ≡ udp))
      × (c.payload ≤ c.end)
      × (c.end ≤ length b)

  IsBare→Result : (p : PacketMetadata) → IsBare p → Result p
  IsBare→Result p h = ground arith

  ports-Ensures : (t : ℕ × Layer) → IsCarried t → Ensures Result HasPorts (ports b t)
  unfolding ports
  ports-Ensures (payload, l) h =
      ground (arith, u16_in_range b l.offset, u16_in_range b (l.offset + 2))

  -- A test that reads in range has a value.
  continues :
      {A : Type 0} (m : Parse A) → Ensures (λ p. ⊥) (λ a. Unit {0}) m → (a : A) × (m ≡ continue a)
  continues fault h = absurd h
  continues (finish p) h = absurd h
  continues (continue a) h = (a, refl)

  is_tls_in_range :
      (c : Content)
      → HasPorts c
      → (t : Bool) × (is_tls b c.payload (c.end - c.payload) ≡ continue t)
  unfolding is_tls
  is_tls_in_range c h = continues _ (
      ground (
        arith,
        byte_in_range b c.payload,
        byte_in_range b (c.payload + 1),
        byte_in_range b (c.payload + 2),
        byte_in_range b (c.payload + 5),
      ))

  is_dns_in_range :
      (c : Content)
      → HasPorts c
      → (t : Bool) × (is_dns b c.payload (c.end - c.payload) ≡ continue t)
  unfolding is_dns
  is_dns_in_range c h =
      continues _ (ground (arith, byte_in_range b (c.payload + 2), u16_in_range b (c.payload + 4)))

  tcp_hint-Ensures :
      (c : Content) → HasPorts c → c.packet.protocol ≡ tcp → Ensures Result Result (tcp_hint b c)
  unfolding tcp_hint with_application
  tcp_hint-Ensures c h e = ground (arith, slice_in_range b c.payload c.end, is_tls_in_range c h)

  udp_hint-Ensures :
      (c : Content) → HasPorts c → c.packet.protocol ≡ udp → Ensures Result Result (udp_hint b c)
  unfolding udp_hint with_application
  udp_hint-Ensures c h e = ground (arith, slice_in_range b c.payload c.end, is_dns_in_range c h)

  hint-Ensures : (c : Content) → HasPorts c → Ensures Result Result (hint b c)
  unfolding hint
  hint-Ensures c h = ground (arith, tcp_hint-Ensures c h, udp_hint-Ensures c h)

  steps-Ensures :
      (inet : Inet) (p : PacketMetadata) → IsBare p → Ensures Result Result (steps b inet p)
  unfolding steps
  steps-Ensures inet p h = elim (Bool-cases (ltb (length b) 14)) [
    | inl short ↦ ground (arith, IsBare→Result p h)
    | inr long ↦
        let (type, e, _) = u16_in_range b 12 (ground arith) in
        rw (long, e)
          (>>=-Ensures IsBare Result (λ t. t.1 ≤ length b) Result _ _ IsBare→Result
            (tags-Ensures 2 p type 14 h (ground arith))
            λ t _.
              >>=-Ensures IsBare Result InRange Result _ _ IsBare→Result
                (network-Ensures inet p t h)
                λ l k.
                  >>=-Ensures IsBare Result IsCarried Result _ _ IsBare→Result
                    (transport-Ensures l k)
                    λ c k.
                      >>=-Ensures Result Result HasPorts Result _ _ (λ p r. r) (ports-Ensures c k)
                        hint-Ensures)
  ]

-- On any bytes at all, `dissect` makes no read outside them and returns a packet, which has the
-- given length and time, and whose ports, protocol and application fit together.
pub dissect-IsConsistent :
    (inet : Inet) (b : List ℕ) (size timestamp : ℕ)
    → (p : PacketMetadata) × (dissect inet b size timestamp ≡ some p)
      × IsConsistent size timestamp p
unfolding dissect
dissect-IsConsistent inet b size timestamp =
    result-Ensures (IsConsistent size timestamp) _
      (steps-Ensures size timestamp b inet _ (refl, refl, refl, refl, refl))
