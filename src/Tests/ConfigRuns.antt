-- ===== src/Tests/ConfigRuns.antt =====
-- Runs of src/config.cpp.
use wirelab_experiments.Common.{◌≡◌, refl, text_eq, c_str, [], digit, scan, from_chars, ◌↔◌}
use wirelab_experiments.Config.{
  validate, validate_fields, check_addresses, unicast_ipv4, host_of, unicast_address, has_nul,
  valid_interface, interface_bytes, interface_byte, unicast_mac, mac_bytes, mac_byte, is_colon,
  any_nonzero, front_is_unicast, validate_subnets, usable, invalid_vlan_id,
}
use wirelab_experiments.Config.Accepted.{IsAcceptable, validate-nil_iff}
use wirelab_experiments.Tests.Samples.{small_inet, known_address, lab_config}

pub lab_config-valid : validate small_inet lab_config ≡ []
unfolding validate validate_fields check_addresses unicast_ipv4 host_of unicast_address has_nul
    valid_interface interface_bytes interface_byte unicast_mac mac_bytes mac_byte is_colon
    any_nonzero front_is_unicast validate_subnets usable invalid_vlan_id known_address text_eq c_str
    digit scan from_chars
lab_config-valid = refl

validate-nil_iff_example :
    (validate small_inet lab_config ≡ []) ↔ IsAcceptable small_inet lab_config
validate-nil_iff_example = validate-nil_iff small_inet lab_config
