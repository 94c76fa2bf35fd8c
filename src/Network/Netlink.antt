-- ===== src/Network/Netlink.antt =====
-- The helpers at the top of src/network.cpp: Netlink requests, and the texts given to `nft`.
use mathlib.Core.Option
use wirelab_experiments.Common.{
  ℕ, zero, suc, ◌+◌, ◌*◌, ◌%◌, ◌^◌, bit_and, Bool, true, false, not, ◌&&◌, ◌||◌, List, [], ◌∷◌,
  ◌++◌, Option, none, some, Text, codes, c_str, from_chars, take, drop, length, ◌==◌, if◌then◌else◌,
  Outcome, returned, thrown,
}
use wirelab_experiments.Inet.{Inet}
use wirelab_experiments.Config.{NetworkConfig, mask}
use wirelab_experiments.Network.Outside.{
  Exception, invalid_argument, runtime_error, Message, set_link, new_vlan, delete_link,
  change_address, change_gateway_route, change_link_route, change_rule, delete_connections, Reply,
  accepted, refused, unanswered, sends, writes, runs, puts, NetState, Kernel, M, pure, throw, ask,
  change, ◌>>=◌,
}

abbrev pub vlan_name : Text
vlan_name = codes "mbx-outer"

-- The link that carries the outer address.
abbrev pub outer_link : NetworkConfig → Text
outer_link c = elim c.vlan_id [ none ↦ c.outer_interface | some id ↦ vlan_name ]

-- ENOENT, ESRCH, ENODEV and EADDRNOTAVAIL.
abbrev pub is_missing : ℕ → Bool
is_missing errno = errno == 2 || errno == 3 || errno == 19 || errno == 99

abbrev pub reply_outcome : Bool → Reply → Outcome Exception (Unit {0})
reply_outcome missing_ok accepted = returned tt
reply_outcome missing_ok (refused errno text) =
    if missing_ok && is_missing errno
    then returned tt
    else thrown (runtime_error (codes "Netlink: " ++ text))
reply_outcome missing_ok (unanswered text) = thrown (runtime_error text)

-- The bytes that `link_state` reads with `std::stoul`, of which the MAC addresses that reach it hold
-- two hexadecimal digits each.
unfoldable pub mac_octets : ℕ → ℕ → Text → Option (List ℕ)
mac_octets zero i mac = some []
mac_octets (suc left) i mac = elim (from_chars 16 (take 2 (drop (i * 3) mac))) [
  | none ↦ none
  | some (byte, taken) ↦ Option.map (◌∷◌ (byte % 2 ^ 8)) (mac_octets left (i + 1) mac)
]

module _ (kernel : Kernel) where
  abbrev pub N : Type 0 → Type 0
  N A = M kernel.World A

  -- `netlink`: one request and its acknowledgement.
  unfoldable pub netlink : Message → Bool → N (Unit {0})
  netlink message missing_ok =
      change (sends message)
        λ w. let r = kernel.send message w in (reply_outcome missing_ok r.0, r.1)

  unfoldable pub index_of : Text → N ℕ
  index_of name = do
    index ← ask (λ w. kernel.link_index w name)
    if index == 0 then throw (runtime_error (codes "Missing interface " ++ name)) else pure index

  unfoldable pub write_file : Text → Text → N (Unit {0})
  write_file path value = change (writes path value) (kernel.write_file path value)

  unfoldable pub command : List Text → Text → N (Unit {0})
  command argv input = change (runs argv input) (kernel.command argv input)

  unfoldable pub store_put : NetState → N (Unit {0})
  store_put state = change (puts state) (kernel.put state)

  unfoldable pub link_state : Text → Bool → Text → N (Unit {0})
  link_state name up mac = do
    index ← index_of name
    if length mac == 0 then netlink (set_link index up none) false else elim (mac_octets 6 0 mac) [
      | none ↦ throw (invalid_argument (codes "stoul"))
      | some bytes ↦ netlink (set_link index up (some bytes)) false
    ]

  unfoldable pub add_vlan : NetworkConfig → ℕ → N (Unit {0})
  add_vlan c id = do link ← index_of c.outer_interface; netlink (new_vlan link vlan_name id) false

  unfoldable pub remove_vlan : N (Unit {0})
  remove_vlan = do
    present ← ask (λ w. kernel.link_index w vlan_name)
    if present == 0
        then pure tt
        else (do index ← index_of vlan_name; netlink (delete_link index) true)

  -- `clear_connections`, with the mark of the two forwarding rules.
  unfoldable pub clear_connections : N (Unit {0})
  clear_connections = netlink delete_connections false

  module _ (inet : Inet) where
    unfoldable pub ipv4 : Text → N ℕ
    ipv4 value = elim (inet.inet_pton (c_str value)) [
      | none ↦ throw (invalid_argument (codes "Invalid IPv4"))
      | some a ↦ pure a
    ]

    unfoldable pub address : Text → Text → ℕ → Bool → N (Unit {0})
    address iface ip prefix add = do
      index ← index_of iface
      a ← ipv4 ip
      netlink (change_address add index a prefix) (not add)

    unfoldable pub route : NetworkConfig → Bool → Bool → N (Unit {0})
    route c gateway add = do
      index ← index_of (outer_link c)
      if gateway
          then (do
            a ← ipv4 c.outer_gateway_ipv4
            netlink (change_gateway_route add index a) (not add))
          else (do
            a ← ipv4 c.outer_ipv4
            netlink (change_link_route add index (bit_and a (mask c.outer_prefix)) c.outer_prefix)
                (not add))

    unfoldable pub rule : NetworkConfig → Bool → N (Unit {0})
    rule c add = do a ← ipv4 c.device_ipv4; netlink (change_rule add a c.inner_interface) (not add)
