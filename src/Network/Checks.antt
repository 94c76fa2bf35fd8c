-- ===== src/Network/Checks.antt =====
-- The constants and the tests of src/network.cpp that only read: what `apply` refuses, and the state of the
-- ports that it saves.
use wirelab_experiments.Common.{
  ℕ, ◌*◌, ◌^◌, Bool, true, false, not, ◌||◌, List, [], ◌∷◌, ◌++◌, Option, none, some, Text, codes,
  text_eq, ◌==◌,
}
use wirelab_experiments.Inet.{Inet}
use wirelab_experiments.Config.{NetworkConfig, ConfigError, error_text, validate}
use wirelab_experiments.Network.Outside.{
  Exception, invalid_argument, runtime_error, Status, inactive, awaiting_confirmation, confirmed,
  Baseline, NetState, Kernel, pure, throw, throw_if, get_state, query, ask, ◌>>=◌, ◌>>◌,
}
use wirelab_experiments.Network.Netlink.{N, index_of}
use wirelab_experiments.Network.Rules.{newline}

abbrev pub table_id : ℕ
table_id = 4242

abbrev pub rule_priority : ℕ
rule_priority = 10424

abbrev pub is_inactive : Status → Bool
is_inactive inactive = true
is_inactive _ = false

abbrev pub is_awaiting : Status → Bool
is_awaiting awaiting_confirmation = true
is_awaiting _ = false

abbrev pub is_confirmed : Status → Bool
is_confirmed confirmed = true
is_confirmed _ = false

-- `{"nft", "-f", "-"}`
abbrev pub nft_batch : List Text
nft_batch = codes "nft" ∷ codes "-f" ∷ codes "-" ∷ []

abbrev pub delete_table : Text → List Text
delete_table family = codes "nft" ∷ codes "delete" ∷ codes "table" ∷ family ∷ codes "magicbox" ∷ []

abbrev pub delete_guard : Text
delete_guard = codes "delete table inet magicbox" ++ newline

abbrev pub ipv6_path : Text → Text
ipv6_path name = codes "/proc/sys/net/ipv6/conf/" ++ (name ++ codes "/disable_ipv6")

abbrev pub rp_filter_path : Text → Text
rp_filter_path name = codes "/proc/sys/net/ipv4/conf/" ++ (name ++ codes "/rp_filter")

abbrev pub ip_forward_path : Text
ip_forward_path = codes "/proc/sys/net/ipv4/ip_forward"

abbrev pub rp_filter_all_path : Text
rp_filter_all_path = codes "/proc/sys/net/ipv4/conf/all/rp_filter"

-- A confirmation is due 60 seconds after an apply; the clock counts nanoseconds.
abbrev pub confirmation_time : ℕ
confirmation_time = 60 * 10 ^ 9

abbrev reserved : Exception
reserved = runtime_error (codes "Reserved WireLab Experiments network resources already exist")

-- The message that joins the errors of `validate`.
unfoldable pub join_errors : List ConfigError → Text
join_errors [] = []
join_errors (e ∷ es) = error_text e ++ (codes "; " ++ join_errors es)

unfoldable pub any_table : List (Option ℕ) → Bool
any_table [] = false
any_table (none ∷ ts) = any_table ts
any_table (some t ∷ ts) = t == table_id || any_table ts

unfoldable pub any_priority : List ℕ → Bool
any_priority [] = false
any_priority (p ∷ ps) = p == rule_priority || any_priority ps

unfoldable pub has_flag : Text → List Text → Bool
has_flag name [] = false
has_flag name (f ∷ fs) = text_eq f name || has_flag name fs

unfoldable pub default_state : NetState
default_state = record {
  status = inactive;
  config = none;
  baseline = [];
  ip_forward = [];
  rp_filter_all = [];
  error = none;
}

module _ (kernel : Kernel) (inet : Inet) where
  -- `config_from_json` on a configuration that went through `config_json`: what is left to fail is
  -- the validation.
  unfoldable pub revalidate : NetworkConfig → N kernel NetworkConfig
  revalidate c = elim (validate inet c) [
    | [] ↦ pure c
    | e ∷ es ↦ throw (invalid_argument (join_errors (e ∷ es)))
  ]

  -- The same on `state_["config"]`, which may be absent.
  unfoldable pub saved_config : N kernel NetworkConfig
  saved_config = do
    s ← get_state
    elim s.config [
      | none ↦ throw (invalid_argument (codes "Configuration must be an object"))
      | some c ↦ revalidate c
    ]

  -- The rounds over `{c.outer_interface, c.inner_interface}` in `apply`.
  unfoldable pub port_baseline : Text → N kernel Baseline
  port_baseline name = do
    index ← index_of kernel name
    info ← query (λ w. kernel.link_info w name)
    throw_if (text_eq name (codes "lo") || (info.has_master || info.has_addresses)) (
        runtime_error (
          name
          ++ codes
              " has addresses or is a bridge/bond member; dedicate unused unmanaged ports first"))
    ipv6 ← query (λ w. kernel.read_file w (ipv6_path name))
    filter ← query (λ w. kernel.read_file w (rp_filter_path name))
    pure (record {
      ifname = info.ifname;
      address = info.address;
      flags = info.flags;
      disable_ipv6 = ipv6;
      rp_filter = filter;
    })

  -- The tests of `apply` that nothing of ours exists yet.
  unfoldable pub check_resources : N kernel (Unit {0})
  check_resources = do
    ip ← query (λ w. kernel.table_exists w (codes "ip"))
    throw_if ip reserved
    inet_table ← query (λ w. kernel.table_exists w (codes "inet"))
    throw_if inet_table reserved
    vlan ← ask (λ w. kernel.link_index w (codes "mbx-outer"))
    throw_if (not (vlan == 0)) reserved
    tables ← query kernel.route_tables
    throw_if (any_table tables) (runtime_error (codes "Routing table 4242 is occupied"))
    priorities ← query kernel.rule_priorities
    throw_if (any_priority priorities) (runtime_error (codes "Rule priority 10424 is occupied"))
