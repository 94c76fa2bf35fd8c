-- ===== src/Network/Install.antt =====
-- `install` of src/network.cpp.
use wirelab_experiments.Common.{true, false, [], ◌++◌, none, some, Text, codes}
use wirelab_experiments.Inet.{Inet}
use wirelab_experiments.Config.{NetworkConfig}
use wirelab_experiments.Network.Outside.{Kernel, pure, ◌>>◌}
use wirelab_experiments.Network.Netlink.{
  N, outer_link, write_file, command, link_state, add_vlan, address, route, rule,
}
use wirelab_experiments.Network.Rules.{guard, ruleset_text}
use wirelab_experiments.Network.Checks.{
  nft_batch, delete_guard, ipv6_path, rp_filter_path, ip_forward_path, rp_filter_all_path,
}

module _ (kernel : Kernel) (inet : Inet) where
  unfoldable pub prepare_port : Text → N kernel (Unit {0})
  prepare_port name = do
    write_file kernel (ipv6_path name) (codes "1")
    write_file kernel (rp_filter_path name) (codes "0")

  -- The VLAN link of `install`.
  unfoldable pub install_vlan : NetworkConfig → N kernel (Unit {0})
  install_vlan c = elim c.vlan_id [
    | none ↦ pure tt
    | some id ↦ do
      add_vlan kernel c id
      write_file kernel (ipv6_path (codes "mbx-outer")) (codes "1")
      write_file kernel (rp_filter_path (codes "mbx-outer")) (codes "0")
      link_state kernel (outer_link c) true []
  ]

  -- `install` up to the forwarding guard, and behind it.
  unfoldable pub install_links : NetworkConfig → N kernel (Unit {0})
  install_links c = do
    prepare_port c.outer_interface
    prepare_port c.inner_interface
    link_state kernel c.outer_interface false []
    link_state kernel c.outer_interface false c.outer_mac
    link_state kernel c.outer_interface true []
    install_vlan c

  unfoldable pub install_addresses : NetworkConfig → N kernel (Unit {0})
  install_addresses c = do
    link_state kernel c.inner_interface true []
    address kernel inet c.inner_interface c.inner_gateway_ipv4 c.inner_prefix true
    address kernel inet (outer_link c) c.outer_ipv4 c.outer_prefix true
    route kernel inet c false true
    route kernel inet c true true
    rule kernel inet c true
    write_file kernel ip_forward_path (codes "1")
    write_file kernel rp_filter_all_path (codes "0")
    command kernel nft_batch (delete_guard ++ ruleset_text c)

  unfoldable pub install : NetworkConfig → N kernel (Unit {0})
  install c = do install_links c; command kernel nft_batch (guard c); install_addresses c
