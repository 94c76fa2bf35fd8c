-- ===== src/Network/Restore.antt =====
-- `restore` of src/network.cpp.
use wirelab_experiments.Common.{
  Bool, true, false, not, List, [], ◌∷◌, ◌++◌, none, some, Text, codes, length, ◌==◌, if◌then◌else◌,
}
use wirelab_experiments.Inet.{Inet}
use wirelab_experiments.Config.{NetworkConfig}
use wirelab_experiments.Network.Outside.{
  runtime_error, what, inactive, rolling_back, rollback_failed, Baseline, NetState, Kernel, pure,
  throw_if, try_catch, get_state, set_state, query, ask, ◌>>=◌, ◌>>◌,
}
use wirelab_experiments.Network.Netlink.{
  N, outer_link, write_file, command, store_put, link_state, remove_vlan, clear_connections,
  address, route, rule,
}
use wirelab_experiments.Network.Rules.{guard}
use wirelab_experiments.Network.Checks.{
  nft_batch, delete_guard, delete_table, ipv6_path, rp_filter_path, ip_forward_path,
  rp_filter_all_path, has_flag, saved_config,
}

-- `errors.empty()`
abbrev pub is_empty : Text → Bool
is_empty t = length t == 0

module _ (kernel : Kernel) (inet : Inet) where
  -- `attempt`: the errors so far, with that of the action behind them.
  unfoldable pub attempt : N kernel (Unit {0}) → Text → N kernel Text
  attempt action errors =
      try_catch (do action; pure errors) (λ e. pure (errors ++ (what e ++ codes "; ")))

  unfoldable pub replace_by_guard : NetworkConfig → N kernel (Unit {0})
  replace_by_guard c = do
    present ← query (λ w. kernel.table_exists w (codes "inet"))
    command kernel nft_batch ((if present then delete_guard else []) ++ guard c)
    clear_connections kernel

  unfoldable pub delete_if_present : Text → N kernel (Unit {0})
  delete_if_present family = do
    present ← query (λ w. kernel.table_exists w family)
    if present then command kernel (delete_table family) [] else pure tt

  unfoldable pub restore_port : Baseline → N kernel (Unit {0})
  restore_port b = do
    link_state kernel b.ifname false []
    link_state kernel b.ifname false b.address
    write_file kernel (ipv6_path b.ifname) b.disable_ipv6
    write_file kernel (rp_filter_path b.ifname) b.rp_filter
    link_state kernel b.ifname (has_flag (codes "UP") b.flags) []

  unfoldable pub restore_ports : List Baseline → Text → N kernel Text
  restore_ports [] errors = pure errors
  restore_ports (b ∷ bs) errors = do
    errors' ← attempt (restore_port b) errors
    restore_ports bs errors'

  -- The attempts on the outer link, if it is there.
  unfoldable pub restore_outer : NetworkConfig → Text → N kernel Text
  restore_outer c e0 = do
    index ← ask (λ w. kernel.link_index w (outer_link c))
    if index == 0 then pure e0 else (do
      e1 ← attempt (route kernel inet c true false) e0
      e2 ← attempt (route kernel inet c false false) e1
      attempt (address kernel inet (outer_link c) c.outer_ipv4 c.outer_prefix false) e2)

  -- All attempts but the last, with their errors.
  unfoldable pub undo : NetworkConfig → NetState → N kernel Text
  undo c s = do
    e1 ← attempt (replace_by_guard c) []
    e2 ← attempt (rule kernel inet c false) e1
    e3 ← restore_outer c e2
    e4 ←
        attempt (address kernel inet c.inner_interface c.inner_gateway_ipv4 c.inner_prefix false) e3
    e5 ← elim c.vlan_id [ none ↦ pure e4 | some id ↦ attempt (remove_vlan kernel) e4 ]
    e6 ← attempt (delete_if_present (codes "ip")) e5
    e7 ← attempt (write_file kernel ip_forward_path s.ip_forward) e6
    e8 ← attempt (write_file kernel rp_filter_all_path s.rp_filter_all) e7
    restore_ports s.baseline e8

  -- The guard goes only if nothing failed.
  unfoldable pub release_guard : Text → N kernel Text
  release_guard errors =
      if is_empty errors then attempt (delete_if_present (codes "inet")) errors else pure errors

  unfoldable pub settle : Text → N kernel (Unit {0})
  settle errors = do
    s ← get_state
    let s' = record s {
      status = if is_empty errors then inactive else rollback_failed;
      error = some errors;
    }
    set_state s'
    store_put kernel s'
    throw_if (not (is_empty errors)) (runtime_error errors)

  unfoldable pub undo_and_settle : NetworkConfig → NetState → N kernel (Unit {0})
  undo_and_settle c s = do errors ← undo c s; errors' ← release_guard errors; settle errors'

  unfoldable pub restore_from : NetworkConfig → N kernel (Unit {0})
  restore_from c = do
    s ← get_state
    set_state (record s { status = rolling_back })
    store_put kernel (record s { status = rolling_back })
    undo_and_settle c s

  unfoldable pub restore : N kernel (Unit {0})
  restore = do c ← saved_config kernel inet; restore_from c
