-- ===== src/Json.antt =====
-- src/json.cpp. The class `Json::Value` of jsoncpp is the parameter `Json`: a type of values with
-- the operations that the sources call, and what they rely on as `JsonLaws`.
pub mod RoundTrip
pub mod Keys
use mathlib.Core.Option
use wirelab_experiments.Common.{
  ℕ, ◌+◌, ◌<◌, ◌^◌, ◌≡◌, Bool, true, false, not, ◌&&◌, ◌||◌, List, [], ◌∷◌, ◌++◌, map, Option, none,
  some, Text, codes, text_eq, ltb, if◌then◌else◌, All, Outcome, returned, thrown, ◌>>=◌, ◌>>◌,
  throw_if, ◌%◌,
}
use wirelab_experiments.Packet.{PacketMetadata, Protocol, Application, unknown, http, dns, tls}
use wirelab_experiments.Inet.{Inet}
use wirelab_experiments.Config.{NetworkConfig, ConfigError, default_config, validate}
use wirelab_experiments.Network.Outside.{Exception, invalid_argument}
use wirelab_experiments.Network.Checks.{join_errors}
use wirelab_experiments.Server.Traffic.{protocol_name, decimal, milliseconds}

pub record Json : Type 1 where
  pub Value : Type 0
  pub null : Value
  pub text : Text → Value
  pub uint : ℕ → Value
  pub int64 : ℕ → Value
  -- A fresh value with `v[name] = x` for each pair, from the first on.
  pub object : List (Text × Value) → Value
  -- `v[name]` of a constant: null where there is no such member.
  pub at : Value → Text → Value
  pub is_member : Value → Text → Bool
  pub member_names : Value → List Text
  pub is_object : Value → Bool
  pub is_string : Value → Bool
  pub is_uint : Value → Bool
  pub is_null : Value → Bool
  pub as_string : Value → Text
  pub as_uint : Value → ℕ

module _ {V : Type 0} where
  unfoldable pub find : V → Text → List (Text × V) → V
  find absent k [] = absent
  find absent k ((j, x) ∷ fs) = if text_eq j k then x else find absent k fs

  unfoldable pub has_key : Text → List (Text × V) → Bool
  has_key k [] = false
  has_key k ((j, x) ∷ fs) = text_eq j k || has_key k fs

-- What jsoncpp documents of values that were made by these operations. The first member of an object
-- counts here, as only objects with distinct names are made.
pub record JsonLaws (json : Json) : Type 0 where
  pub at-object :
      (k : Text) (fs : List (Text × json.Value)) → json.at (json.object fs) k ≡ find json.null k fs
  pub is_member-object :
      (k : Text) (fs : List (Text × json.Value)) → json.is_member (json.object fs) k ≡ has_key k fs
  pub member_names-object :
      (fs : List (Text × json.Value))
      → All (λ k. has_key k fs ≡ true) (json.member_names (json.object fs))
  pub is_object-object : (fs : List (Text × json.Value)) → json.is_object (json.object fs) ≡ true
  pub is_string-text : (t : Text) → json.is_string (json.text t) ≡ true
  pub as_string-text : (t : Text) → json.as_string (json.text t) ≡ t
  pub is_uint-uint : (n : ℕ) → n < 2 ^ 32 → json.is_uint (json.uint n) ≡ true
  pub as_uint-uint : (n : ℕ) → n < 2 ^ 32 → json.as_uint (json.uint n) ≡ n
  pub is_null-uint : (n : ℕ) → json.is_null (json.uint n) ≡ false
  pub is_null-null : json.is_null json.null ≡ true
  pub as_string-null : json.as_string json.null ≡ []
  pub as_string-uint : (n : ℕ) → n < 2 ^ 16 → json.as_string (json.uint n) ≡ decimal 5 n []

unfoldable pub application_name : Application → Text
application_name unknown = codes "unknown"
application_name http = codes "http"
application_name dns = codes "dns"
application_name tls = codes "tls"

-- The error texts of the files as exceptions.
abbrev pub invalid : Text → Exception
invalid text = invalid_argument text

-- The validation at the end.
unfoldable pub checked : Inet → NetworkConfig → Outcome Exception NetworkConfig
checked inet c = elim (validate inet c) [
  | [] ↦ returned c
  | e ∷ es ↦ thrown (invalid (join_errors (e ∷ es)))
]

module _ (json : Json) where
  -- A number, or null for an absent one.
  abbrev pub optional : Option ℕ → json.Value
  optional none = json.null
  optional (some n) = json.uint n

  unfoldable pub config_json : NetworkConfig → json.Value
  config_json c = json.object (
      (codes "outer_interface", json.text c.outer_interface)
      ∷ (codes "inner_interface", json.text c.inner_interface)
      ∷ (codes "device_ipv4", json.text c.device_ipv4)
      ∷ (codes "inner_gateway_ipv4", json.text c.inner_gateway_ipv4)
      ∷ (codes "inner_prefix", json.uint c.inner_prefix)
      ∷ (codes "outer_ipv4", json.text c.outer_ipv4)
      ∷ (codes "outer_prefix", json.uint c.outer_prefix)
      ∷ (codes "outer_gateway_ipv4", json.text c.outer_gateway_ipv4)
      ∷ (codes "outer_mac", json.text c.outer_mac)
      ∷ (codes "vlan_id", optional c.vlan_id)
      ∷ [])

  -- The loop over the member names.
  unfoldable pub check_names : json.Value → List Text → Outcome Exception (Unit {0})
  check_names shape [] = returned tt
  check_names shape (name ∷ names) =
      if json.is_member shape name
      then check_names shape names
      else thrown (invalid (codes "Unknown field: " ++ name))

  -- The lambda `string`.
  unfoldable pub string_member : json.Value → Text → Outcome Exception Text
  string_member v name =
      if json.is_string (json.at v name)
      then returned (json.as_string (json.at v name))
      else thrown (invalid (codes "Expected string: " ++ name))

  unfoldable pub prefixes : json.Value → Outcome Exception (ℕ × ℕ)
  prefixes v =
      if not (json.is_uint (json.at v (codes "inner_prefix")))
        || not (json.is_uint (json.at v (codes "outer_prefix")))
      then thrown (invalid (codes "Prefixes must be unsigned integers"))
      else returned (
        json.as_uint (json.at v (codes "inner_prefix")),
        json.as_uint (json.at v (codes "outer_prefix")),
      )

  unfoldable pub vlan_member : json.Value → Outcome Exception (Option ℕ)
  vlan_member v =
      let member = json.at v (codes "vlan_id") in
      if not (json.is_member v (codes "vlan_id"))
      then thrown (invalid (codes "vlan_id is required (null for untagged)"))
      else if json.is_null member
      then returned none
      else if not (json.is_uint member) || ltb 4094 (json.as_uint member)
      then thrown (invalid (codes "Invalid VLAN ID"))
      else returned (some (json.as_uint member % 2 ^ 16))

  unfoldable pub read_config : json.Value → Outcome Exception NetworkConfig
  read_config v = do
    outer_interface ← string_member v (codes "outer_interface")
    inner_interface ← string_member v (codes "inner_interface")
    device ← string_member v (codes "device_ipv4")
    inner_gateway ← string_member v (codes "inner_gateway_ipv4")
    outer ← string_member v (codes "outer_ipv4")
    outer_gateway ← string_member v (codes "outer_gateway_ipv4")
    mac ← string_member v (codes "outer_mac")
    lengths ← prefixes v
    vlan ← vlan_member v
    returned (record {
      outer_interface = outer_interface;
      inner_interface = inner_interface;
      device_ipv4 = device;
      inner_gateway_ipv4 = inner_gateway;
      inner_prefix = lengths.0;
      outer_ipv4 = outer;
      outer_prefix = lengths.1;
      outer_gateway_ipv4 = outer_gateway;
      outer_mac = mac;
      vlan_id = vlan;
    })

  unfoldable pub config_from_json : Inet → json.Value → Outcome Exception NetworkConfig
  config_from_json inet v = do
    throw_if (not (json.is_object v)) (invalid (codes "Configuration must be an object"))
    check_names (config_json default_config) (json.member_names v)
    c ← read_config v
    checked inet c

  unfoldable pub packet_json : PacketMetadata → json.Value
  packet_json p = json.object (
      (codes "timestamp_ms", json.int64 (milliseconds p))
      ∷ (codes "source_ip", json.text p.source_ip)
      ∷ (codes "destination_ip", json.text p.destination_ip)
      ∷ (codes "source_port", optional p.source_port)
      ∷ (codes "destination_port", optional p.destination_port)
      ∷ (codes "wire_bytes", json.uint p.wire_bytes)
      ∷ (codes "protocol", json.text (protocol_name p.protocol))
      ∷ (codes "application", json.text (application_name p.application))
      ∷ [])
