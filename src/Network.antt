-- ===== src/Network.antt =====
-- `NetworkController` of src/network.cpp: one configuration at a time, installed under a write-ahead
-- journal, kept only if it is confirmed in time, and rolled back otherwise.
pub mod Outside
pub mod Netlink
pub mod Rules
pub mod Checks
pub mod Install
pub mod Restore
pub mod Journal
pub mod Timeout
pub mod Steady
pub mod Guard
pub mod Exposure
pub mod Quiet
pub mod Settled
pub mod Lock
pub mod Unconfirmed
pub mod Crash
use wirelab_experiments.Common.{
  ℕ, ◌+◌, ◌-◌, ◌*◌, ◌/◌, ◌^◌, Bool, true, false, not, ◌&&◌, ◌||◌, List, [], ◌∷◌, ◌++◌, Option, none,
  some, Text, codes, text_eq, length, ltb, leb, ◌==◌, if◌then◌else◌, Outcome, returned, thrown,
}
use wirelab_experiments.Inet.{Inet}
use wirelab_experiments.Config.{NetworkConfig, ConfigError, error_text, validate}
use wirelab_experiments.Network.Outside.{
  Exception, invalid_argument, runtime_error, what, Status, inactive, applying,
  awaiting_confirmation, confirmed, rolling_back, rollback_failed, Baseline, NetState, LinkInfo,
  Kernel, Controller, Run, M, pure, throw, throw_if, try_catch, get_state, set_state, query, ask,
  get_enabled, get_deadline, set_deadline, ◌>>=◌, ◌>>◌,
}
use wirelab_experiments.Network.Netlink.{
  N, outer_link, index_of, write_file, command, store_put, link_state, add_vlan, remove_vlan,
  clear_connections, address, route, rule,
}
use wirelab_experiments.Network.Rules.{guard, ruleset_text, newline}
use wirelab_experiments.Network.Checks.{
  confirmation_time, ip_forward_path, rp_filter_all_path, is_inactive, is_awaiting, is_confirmed,
  default_state, check_resources, port_baseline, revalidate, saved_config,
}
use wirelab_experiments.Network.Install.{install}
use wirelab_experiments.Network.Restore.{restore}

abbrev pub disabled : Exception
disabled = runtime_error (
    codes
      "Network changes disabled; restart with --allow-network after assigning dedicated unmanaged ports")

abbrev pub occupied : Exception
occupied =
    runtime_error (codes "Rollback the current network configuration before applying another")

module _ (kernel : Kernel) (inet : Inet) where
  unfoldable pub tick : N kernel (Unit {0})
  tick = do
    enabled ← get_enabled
    s ← get_state
    now ← ask kernel.clock
    deadline ← get_deadline
    if enabled && (is_awaiting s.status && leb deadline now) then restore kernel inet else pure tt

  unfoldable pub confirm : N kernel (Unit {0})
  confirm = do
    enabled ← get_enabled
    throw_if (not enabled) (runtime_error (codes "Network changes disabled"))
    tick
    s ← get_state
    throw_if (not (is_awaiting s.status)) (runtime_error (codes "No pending configuration"))
    set_state (record s { status = confirmed })
    store_put kernel (record s { status = confirmed })

  unfoldable pub rollback : N kernel (Unit {0})
  rollback = do
    enabled ← get_enabled
    throw_if (not enabled) (runtime_error (codes "Network changes disabled"))
    s ← get_state
    if is_inactive s.status then pure tt else restore kernel inet

  -- `apply` up to the journal, from its end: the state to write down, the state of the two ports,
  -- the validation and the resources, and the first two tests.
  unfoldable pub fill_journal : NetworkConfig → NetState → Baseline → Baseline → N kernel NetState
  fill_journal c s outer inner = do
    query (λ w. kernel.check_ruleset w (ruleset_text c))
    let s1 = record s { config = some c; baseline = outer ∷ inner ∷ [] }
    set_state s1
    ip_forward ← query (λ w. kernel.read_file w ip_forward_path)
    let s2 = record s1 { ip_forward = ip_forward }
    set_state s2
    rp_filter ← query (λ w. kernel.read_file w rp_filter_all_path)
    let s3 = record s2 { rp_filter_all = rp_filter; status = applying }
    set_state s3
    pure s3

  unfoldable pub save_ports : NetworkConfig → NetState → N kernel NetState
  save_ports c s = do
    outer ← port_baseline kernel inet c.outer_interface
    inner ← port_baseline kernel inet c.inner_interface
    fill_journal c s outer inner

  unfoldable pub check_and_save : NetworkConfig → NetState → N kernel NetState
  check_and_save c s = do
    validated ← revalidate kernel inet c
    check_resources kernel inet
    save_ports c s

  unfoldable pub prepare : NetworkConfig → N kernel NetState
  prepare c = do
    enabled ← get_enabled
    throw_if (not enabled) disabled
    s ← get_state
    throw_if (not (is_inactive s.status)) occupied
    check_and_save c s

  -- The body of the `try` in `apply`.
  unfoldable pub install_and_wait : NetworkConfig → N kernel (Unit {0})
  install_and_wait c = do
    install kernel inet c
    s ← get_state
    set_state (record s { status = awaiting_confirmation })
    now ← ask kernel.clock
    set_deadline (now + confirmation_time)
    store_put kernel (record s { status = awaiting_confirmation })

  -- Its handler: roll back, and throw in any case.
  unfoldable pub undo_install : Exception → N kernel (Unit {0})
  undo_install error = do
    try_catch (restore kernel inet)
        λ e. throw (runtime_error (what error ++ (codes "; rollback failed: " ++ what e)))
    throw (runtime_error (what error))

  -- The journal, and behind it the first change.
  unfoldable pub commit : NetworkConfig → NetState → N kernel (Unit {0})
  commit c s = do store_put kernel s; try_catch (install_and_wait c) undo_install

  unfoldable pub apply : NetworkConfig → N kernel (Unit {0})
  apply c = do s ← prepare c; commit c s

  -- The constructor behind the lock of the network namespace: `stored` is `store.get("network")`.
  abbrev pub initial : Bool → Option NetState → kernel.World → Controller kernel.World
  initial enabled stored w = record {
    enabled = enabled;
    state = elim stored [ none ↦ default_state | some s ↦ s ];
    deadline = 0;
    world = w;
  }

  -- A configuration that was confirmed is applied again and confirmed.
  unfoldable pub reapply : Bool → Option NetworkConfig → N kernel (Unit {0})
  reapply false desired = pure tt
  reapply true none = throw (invalid_argument (codes "Configuration must be an object"))
  reapply true (some c) = do c' ← revalidate kernel inet c; apply c'; confirm

  unfoldable pub recover : N kernel (Unit {0})
  recover = do
    enabled ← get_enabled
    s ← get_state
    if not (is_inactive s.status) && enabled
        then (do restore kernel inet; reapply (is_confirmed s.status) s.config)
        else pure tt

-- `remaining_seconds` of `state`, while a confirmation is awaited.
unfoldable pub remaining_seconds : {W : Type 0} → ℕ → Controller W → Option ℕ
remaining_seconds now n =
    if is_awaiting n.state.status then some ((n.deadline - now) / 10 ^ 9) else none
