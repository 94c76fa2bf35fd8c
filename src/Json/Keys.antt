-- ===== src/Json/Keys.antt =====
-- What `sample` of src/server.cpp reads back of `packet_json`: the key of a flow.
use wirelab_experiments.Common.{
  ℕ, ◌<◌, ◌^◌, ◌≡◌, refl, ◌++◌, Option, none, some, Text, codes, text_eq,
}
use wirelab_experiments.Packet.{PacketMetadata}
use wirelab_experiments.Server.Traffic.{port_text, flow_key, bar}
use wirelab_experiments.Json.{Json, JsonLaws, find, packet_json, optional}

-- The key as the source writes it.
unfoldable pub json_flow_key : (json : Json) → Text → PacketMetadata → Text
json_flow_key json interface p =
    let v = packet_json json p in
    interface
    ++ (bar
        ++ (p.source_ip
            ++ (bar
                ++ (p.destination_ip
                    ++ (bar
                        ++ (json.as_string (json.at v (codes "protocol"))
                            ++ (bar
                                ++ (json.as_string (json.at v (codes "source_port"))
                                    ++ (bar
                                        ++ json.as_string
                                            (json.at v (codes "destination_port")))))))))))

module _ (json : Json) (laws : JsonLaws json) where
  as_string-optional :
      (port : Option ℕ)
      → ((n : ℕ) → port ≡ some n → n < 2 ^ 16)
      → json.as_string (optional json port) ≡ port_text port
  as_string-optional none h = laws.as_string-null
  as_string-optional (some n) h = laws.as_string-uint n (h n refl)

  -- For ports of 16 bits, the key that `sample` builds from the JSON of a packet is `flow_key`.
  pub json_flow_key-flow_key :
      (interface : Text) (p : PacketMetadata)
      → ((n : ℕ) → p.source_port ≡ some n → n < 2 ^ 16)
      → ((n : ℕ) → p.destination_port ≡ some n → n < 2 ^ 16)
      → json_flow_key json interface p ≡ flow_key interface p
  unfolding json_flow_key flow_key packet_json find text_eq
  json_flow_key-flow_key interface p s d = simp (
    laws.at-object,
    laws.as_string-text,
    as_string-optional p.source_port s,
    as_string-optional p.destination_port d,
  )
