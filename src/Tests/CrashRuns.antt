-- ===== src/Tests/CrashRuns.antt =====
-- A run of `apply` in src/network.cpp that is stopped while it waits for the confirmation.
use wirelab_experiments.Common.{
  ◌≡◌, refl, Bool, true, false, [], ◌∷◌, ◌++◌, List, Text, none, some, returned, codes, text_eq,
  c_str, digit, scan, from_chars, take, if◌then◌else◌,
}
use wirelab_experiments.Tests.Samples.{small_inet, known_address, lab_config}
use wirelab_experiments.Config.{
  validate, validate_fields, check_addresses, unicast_ipv4, host_of, unicast_address, has_nul,
  valid_interface, interface_bytes, interface_byte, unicast_mac, mac_bytes, mac_byte, is_colon,
  any_nonzero, front_is_unicast, validate_subnets, usable, invalid_vlan_id,
}
use wirelab_experiments.Network.Outside.{
  Message, Baseline, NetState, Kernel, Controller, Reply, puts, Event, awaiting_confirmation,
  new_vlan,
}
use wirelab_experiments.Network.Checks.{
  revalidate, check_resources, port_baseline, has_flag, join_errors, any_table, any_priority,
  default_state,
}
use wirelab_experiments.Network.Rules.{guard, ruleset_text}
use wirelab_experiments.Network.Install.{
  install, install_links, install_addresses, install_vlan, prepare_port,
}
use wirelab_experiments.Network.{
  apply, prepare, check_and_save, save_ports, fill_journal, commit, install_and_wait,
}
use wirelab_experiments.Network.Netlink.{
  store_put, netlink, index_of, write_file, command, link_state, add_vlan, clear_connections, ipv4,
  address, route, rule, mac_octets,
}
use wirelab_experiments.Network.Crash.Recovers.{AfterCrash, apply-AfterCrash}

abbrev sent : Message → Bool → Bool
sent (new_vlan link name id) w = true
sent message w = w

-- The world says whether the VLAN link is there.
abbrev vlan_kernel : Kernel
vlan_kernel = record {
  World = Bool;
  send = λ message w. (Reply.accepted, sent message w);
  write_file = λ path text w. (returned tt, w);
  command = λ argv text w. (returned tt, w);
  put = λ s w. (returned tt, w);
  link_index = λ w name. if text_eq name (codes "mbx-outer") then (if w then 2 else 0) else 1;
  read_file = λ w path. returned (codes "0");
  table_exists = λ w family. returned false;
  route_tables = λ w. returned [];
  rule_priorities = λ w. returned [];
  link_info = λ w name. returned (record {
    ifname = name;
    address = codes "02:00:00:00:00:09";
    flags = [];
    has_master = false;
    has_addresses = false;
  });
  check_ruleset = λ w text. returned tt;
  clock = λ w. 5;
}

abbrev fresh : Controller Bool
fresh = record { enabled = true; state = default_state; deadline = 0; world = false }

abbrev lab_log : List Event
lab_log = (apply vlan_kernel small_inet lab_config fresh).log

abbrev port : Text → Baseline
port name = record {
  ifname = name;
  address = codes "02:00:00:00:00:09";
  flags = [];
  disable_ipv6 = codes "0";
  rp_filter = codes "0";
}

abbrev pending : NetState
pending = record {
  status = awaiting_confirmation;
  config = some lab_config;
  baseline = port (codes "eth0") ∷ port (codes "eth1") ∷ [];
  ip_forward = codes "0";
  rp_filter_all = codes "0";
  error = none;
}

-- The last of the 23 changes stores that a confirmation is awaited.
lab_log-pending : lab_log ≡ take 22 lab_log ++ puts pending ∷ []
unfolding apply prepare check_and_save save_ports fill_journal commit install_and_wait install
    install_links install_addresses install_vlan prepare_port check_resources port_baseline
    any_table any_priority revalidate netlink index_of write_file command store_put link_state
    add_vlan clear_connections ipv4 address route rule mac_octets has_flag join_errors guard
    ruleset_text validate validate_fields check_addresses unicast_ipv4 host_of unicast_address
    has_nul valid_interface interface_bytes interface_byte unicast_mac mac_bytes mac_byte is_colon
    any_nonzero front_is_unicast validate_subnets usable invalid_vlan_id known_address text_eq c_str
    digit scan from_chars default_state
lab_log-pending = refl

apply-AfterCrash_example : AfterCrash vlan_kernel small_inet lab_config pending [] lab_log
apply-AfterCrash_example =
    apply-AfterCrash vlan_kernel small_inet lab_config fresh (take 22 lab_log) pending []
      lab_log-pending
