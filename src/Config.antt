-- ===== src/Config.antt =====
-- src/config.cpp and include/magicbox/config.hpp: the validation of a network configuration.
-- An `unsigned` is below 2 ^ 32 and a VLAN identifier below 2 ^ 16.
pub mod Subnets
pub mod Syntax
pub mod Accepted
use wirelab_experiments.Common.{
  ℕ, suc, zero, ◌+◌, ◌-◌, ◌*◌, ◌/◌, ◌%◌, ◌^◌, bit_and, Bool, true, false, not, ◌&&◌, ◌||◌, List, [],
  ◌∷◌, ◌++◌, Option, none, some, Text, codes, text_eq, c_str, from_chars, length, get_elem?, take,
  drop, ltb, leb, ◌==◌, if◌then◌else◌,
}
use mathlib.Core.Option
use wirelab_experiments.Inet.{Inet}

pub record NetworkConfig : Type 0 where
  pub outer_interface : Text
  pub inner_interface : Text
  pub device_ipv4 : Text
  pub inner_gateway_ipv4 : Text
  pub inner_prefix : ℕ
  pub outer_ipv4 : Text
  pub outer_prefix : ℕ
  pub outer_gateway_ipv4 : Text
  pub outer_mac : Text
  pub vlan_id : Option ℕ

-- `NetworkConfig c;`
abbrev pub default_config : NetworkConfig
default_config = record {
  outer_interface = [];
  inner_interface = [];
  device_ipv4 = [];
  inner_gateway_ipv4 = [];
  inner_prefix = 24;
  outer_ipv4 = [];
  outer_prefix = 24;
  outer_gateway_ipv4 = [];
  outer_mac = [];
  vlan_id = none;
}

-- The strings that `validate` reports, a constructor for each.
pub data ConfigError : Type 0 where
  invalid_outer_interface invalid_inner_interface same_interfaces : ConfigError
  not_unicast_ipv4 : Text → ConfigError
  unsupported_prefix same_inner_addresses same_outer_addresses : ConfigError
  not_unicast_mac invalid_vlan unusable_host device_off_subnet : ConfigError
  gateway_off_subnet overlapping_subnets : ConfigError

unfoldable pub error_text : ConfigError → Text
error_text invalid_outer_interface = codes "Invalid outer interface name"
error_text invalid_inner_interface = codes "Invalid inner interface name"
error_text same_interfaces = codes "Interfaces must be distinct"
error_text (not_unicast_ipv4 value) = codes "Expected a unicast IPv4 address: " ++ value
error_text unsupported_prefix = codes "This initial routed topology supports prefixes 1 through 30"
error_text same_inner_addresses = codes "Device and inner gateway addresses must differ"
error_text same_outer_addresses = codes "Outer address and gateway must differ"
error_text not_unicast_mac = codes "Expected a nonzero unicast MAC address"
error_text invalid_vlan = codes "VLAN ID must be 1 through 4094, or absent"
error_text unusable_host = codes "Network and broadcast addresses are not usable hosts"
error_text device_off_subnet = codes "Device must be on the inner gateway subnet"
error_text gateway_off_subnet = codes "Outer gateway must be on the outer subnet"
error_text overlapping_subnets = codes "Inner and outer subnets must not overlap"

-- `if (bad) errors.emplace_back(…);`
abbrev pub report : Bool → ConfigError → List ConfigError
report bad e = if bad then e ∷ [] else []

unfoldable pub interface_byte : ℕ → Bool
interface_byte c =
    (leb b'a' c && leb c b'z')
    || (leb b'A' c && leb c b'Z')
    || (leb b'0' c && leb c b'9')
    || c == b'_'
    || c == b'-'
    || c == b'.'

unfoldable pub interface_bytes : Text → Bool
interface_bytes [] = true
interface_bytes (c ∷ cs) = if interface_byte c then interface_bytes cs else false

unfoldable pub valid_interface : Text → Bool
valid_interface name =
    if length name == 0
      || ltb 15 (length name)
      || text_eq name (b'.' ∷ [])
      || text_eq name (b'.' ∷ b'.' ∷ [])
    then false
    else interface_bytes name

-- `value.find('\0') != npos`
unfoldable pub has_nul : Text → Bool
has_nul [] = false
has_nul (c ∷ cs) = if c == 0 then true else has_nul cs

unfoldable pub unicast_address : ℕ → Bool
unicast_address host =
    let first = host / 2 ^ 24 in not (first == 0) && not (first == 127) && ltb first 224

-- `start[2] == ':'`
unfoldable pub is_colon : Option ℕ → Bool
is_colon none = false
is_colon (some c) = c == b':'

-- The round for byte `i`: two hexadecimal digits at `3 * i`, and a colon behind all but the last.
unfoldable pub mac_byte : Text → ℕ → Option ℕ
mac_byte value i = elim (from_chars 16 (take 2 (drop (i * 3) value))) [
  | none ↦ none
  | some (byte, taken) ↦
      if not (taken == 2) || (ltb i 5 && not (is_colon (get_elem? value (i * 3 + 2))))
      then none
      else some byte
]

-- The loop over `bytes`, with the rounds left and the next index.
unfoldable pub mac_bytes : ℕ → ℕ → Text → Option (List ℕ)
mac_bytes zero i value = some []
mac_bytes (suc left) i value = elim (mac_byte value i) [
  | none ↦ none
  | some byte ↦ Option.map (◌∷◌ byte) (mac_bytes left (i + 1) value)
]

unfoldable pub any_nonzero : List ℕ → Bool
any_nonzero [] = false
any_nonzero (b ∷ bs) = not (b == 0) || any_nonzero bs

unfoldable pub front_is_unicast : List ℕ → Bool
front_is_unicast [] = true
front_is_unicast (b ∷ bs) = bit_and b 1 == 0

unfoldable pub unicast_mac : Text → Bool
unicast_mac value = if not (length value == 17) then false else elim (mac_bytes 6 0 value) [
  | none ↦ false
  | some bytes ↦ any_nonzero bytes && front_is_unicast bytes
]

-- `0xffffffffU << (32 - prefix)`, which `validate` computes for prefixes of 1 to 30.
abbrev pub mask : ℕ → ℕ
mask prefix = 0xffff_ffff * 2 ^ (32 - prefix) % 2 ^ 32

-- `~mask` on 32 bits.
abbrev pub complement : ℕ → ℕ
complement m = 2 ^ 32 - 1 - m

unfoldable pub usable : ℕ → ℕ → Bool
usable address m =
    not (bit_and address (complement m) == 0)
    && not (bit_and address (complement m) == complement m)

-- The checks of the last block, on the four addresses.
unfoldable pub validate_subnets : ℕ → ℕ → ℕ → ℕ → ℕ → ℕ → List ConfigError
validate_subnets inner_prefix outer_prefix inner device outer gateway =
    let inner_mask = mask inner_prefix in
    let outer_mask = mask outer_prefix in
    let common_mask = if ltb inner_prefix outer_prefix then inner_mask else outer_mask in
    report
      (not (usable inner inner_mask)
        || not (usable device inner_mask)
        || not (usable outer outer_mask)
        || not (usable gateway outer_mask))
      unusable_host
    ++ (report (not (bit_and inner inner_mask == bit_and device inner_mask)) device_off_subnet
        ++ (report (not (bit_and outer outer_mask == bit_and gateway outer_mask)) gateway_off_subnet
            ++ report (bit_and inner common_mask == bit_and outer common_mask) overlapping_subnets))

unfoldable pub invalid_vlan_id : Option ℕ → Bool
invalid_vlan_id none = false
invalid_vlan_id (some id) = ltb id 1 || ltb 4094 id

module _ (inet : Inet) where
  unfoldable pub unicast_ipv4 : Text → Bool
  unicast_ipv4 value = elim (inet.inet_pton (c_str value)) [
    | none ↦ false
    | some host ↦ if has_nul value then false else unicast_address host
  ]

  -- The lambda `host`; the address stays zero where the text is refused.
  unfoldable pub host_of : Text → ℕ
  host_of value = Option.get_or (inet.inet_pton (c_str value)) 0

  unfoldable pub check_addresses : List Text → List ConfigError
  check_addresses [] = []
  check_addresses (value ∷ rest) =
      report (not (unicast_ipv4 value)) (not_unicast_ipv4 value) ++ check_addresses rest

  -- The checks before the block on subnets.
  unfoldable pub validate_fields : NetworkConfig → List ConfigError
  validate_fields c =
      report (not (valid_interface c.outer_interface)) invalid_outer_interface
      ++ (report (not (valid_interface c.inner_interface)) invalid_inner_interface
          ++ (report (text_eq c.outer_interface c.inner_interface) same_interfaces
              ++ (check_addresses (
                    c.device_ipv4 ∷ c.inner_gateway_ipv4 ∷ c.outer_ipv4 ∷ c.outer_gateway_ipv4 ∷ [])
                  ++ (report
                        (ltb c.inner_prefix 1
                          || ltb 30 c.inner_prefix
                          || ltb c.outer_prefix 1
                          || ltb 30 c.outer_prefix)
                        unsupported_prefix
                      ++ (report (text_eq c.device_ipv4 c.inner_gateway_ipv4) same_inner_addresses
                          ++ (report (text_eq c.outer_ipv4 c.outer_gateway_ipv4)
                                same_outer_addresses
                              ++ (report (not (unicast_mac c.outer_mac)) not_unicast_mac
                                  ++ report (invalid_vlan_id c.vlan_id) invalid_vlan)))))))

  unfoldable pub validate : NetworkConfig → List ConfigError
  validate c = elim (validate_fields c) [
    | [] ↦
        validate_subnets c.inner_prefix c.outer_prefix (host_of c.inner_gateway_ipv4)
          (host_of c.device_ipv4) (host_of c.outer_ipv4) (host_of c.outer_gateway_ipv4)
    | e ∷ es ↦ e ∷ es
  ]
