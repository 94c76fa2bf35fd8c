-- ===== src/Network/Exposure.antt =====
-- The order of the changes in `install` of src/network.cpp, which has the comment "Forwarding guard
-- is installed before assigning addresses or routes".
use wirelab_experiments.Common.{
  ℕ, Bool, true, false, not, ◌&&◌, List, [], ◌∷◌, ◌++◌, Option, none, some, Text, Outcome, returned,
  thrown, codes, text_eq, ◌≡◌, refl, arith,
}
use wirelab_experiments.Inet.{Inet}
use wirelab_experiments.Config.{NetworkConfig}
use wirelab_experiments.Network.Outside.{
  Exception, change_address, change_gateway_route, change_link_route, change_rule, Controller,
  Kernel, Event, sends, writes, runs, puts, M, after, ◌>>◌,
}
use wirelab_experiments.Network.Netlink.{
  netlink, index_of, write_file, command, link_state, add_vlan, outer_link, vlan_name,
}
use wirelab_experiments.Network.Checks.{nft_batch, ipv6_path, rp_filter_path, ip_forward_path}
use wirelab_experiments.Network.Rules.{guard}
use wirelab_experiments.Network.Install.{
  prepare_port, install_vlan, install_links, install_addresses, install,
}

-- The changes that can carry traffic between the ports: a new address, route or rule, and forwarding.
unfoldable pub is_exposing : Event → Bool
is_exposing (sends (change_address add index a prefix)) = add
is_exposing (sends (change_gateway_route add index a)) = add
is_exposing (sends (change_link_route add index a prefix)) = add
is_exposing (sends (change_rule add a name)) = add
is_exposing (sends message) = false
is_exposing (writes path value) = text_eq path ip_forward_path
is_exposing (runs argv input) = false
is_exposing (puts state) = false

unfoldable pub conceals : List Event → Bool
conceals [] = true
conceals (e ∷ es) = not (is_exposing e) && conceals es

conceals-append :
    (xs ys : List Event) → conceals xs ≡ true → conceals ys ≡ true → conceals (xs ++ ys) ≡ true
unfolding conceals
conceals-append [] ys p q = q
conceals-append (x ∷ xs) ys p q = ground (arith, conceals-append xs ys)

module _ {W : Type 0} where
  -- A method that asks for no such change.
  record IsConcealing {A : Type 0} (m : M W A) : Type 0 where
    log : (n : Controller W) → conceals (m n).log ≡ true

  after-conceals :
      {B : Type 0} (k : M W B) (n : Controller W) (log : List Event)
      (o : Outcome Exception (Unit {0}))
      → conceals log ≡ true
      → IsConcealing k
      → conceals (after (λ _. k) n log o).log ≡ true
  after-conceals k n log (returned u) h v = conceals-append log (k n).log h (v.log n)
  after-conceals k n log (thrown e) h v = h

  then-IsConcealing :
      {B : Type 0} {m : M W (Unit {0})} {k : M W B}
      → IsConcealing m
      → IsConcealing k
      → IsConcealing (m >> k)
  then-IsConcealing {k} h v = record { log = λ n. after-conceals k _ _ _ (h.log n) v }

module _ (kernel : Kernel) (inet : Inet) where
  write_ipv6-IsConcealing :
      (name value : Text) → IsConcealing (write_file kernel (ipv6_path name) value)
  unfolding write_file conceals is_exposing text_eq
  write_ipv6-IsConcealing name value = record { log = λ n. refl }

  write_rp_filter-IsConcealing :
      (name value : Text) → IsConcealing (write_file kernel (rp_filter_path name) value)
  unfolding write_file conceals is_exposing text_eq
  write_rp_filter-IsConcealing name value = record { log = λ n. refl }

  link_state-IsConcealing :
      (name : Text) (up : Bool) (mac : Text) → IsConcealing (link_state kernel name up mac)
  unfolding link_state index_of netlink conceals is_exposing
  link_state-IsConcealing name up mac = record { log = λ n. ground arith }

  add_vlan-IsConcealing : (c : NetworkConfig) (id : ℕ) → IsConcealing (add_vlan kernel c id)
  unfolding add_vlan index_of netlink conceals is_exposing
  add_vlan-IsConcealing c id = record { log = λ n. ground arith }

  prepare_port-IsConcealing : (name : Text) → IsConcealing (prepare_port kernel inet name)
  unfolding prepare_port
  prepare_port-IsConcealing name =
      then-IsConcealing (write_ipv6-IsConcealing name _) (write_rp_filter-IsConcealing name _)

  vlan-IsConcealing :
      (c : NetworkConfig) (vlan : Option ℕ)
      → c.vlan_id ≡ vlan
      → IsConcealing (install_vlan kernel inet c)
  unfolding install_vlan conceals
  vlan-IsConcealing c none h = rw (h, install_vlan) (record { log = λ n. refl })
  vlan-IsConcealing c (some id) h =
      rw (h, install_vlan)
        (then-IsConcealing (add_vlan-IsConcealing c id) (
          then-IsConcealing (write_ipv6-IsConcealing vlan_name (codes "1")) (
            then-IsConcealing (write_rp_filter-IsConcealing vlan_name (codes "0"))
              (link_state-IsConcealing (outer_link c) true []))))

  install_links-IsConcealing : (c : NetworkConfig) → IsConcealing (install_links kernel inet c)
  unfolding install_links
  install_links-IsConcealing c = then-IsConcealing (prepare_port-IsConcealing _) (
      then-IsConcealing (prepare_port-IsConcealing _) (
        then-IsConcealing (link_state-IsConcealing _ _ _) (
          then-IsConcealing (link_state-IsConcealing _ _ _)
            (then-IsConcealing (link_state-IsConcealing _ _ _) (vlan-IsConcealing c _ refl)))))

  -- Nothing is exposed, or the guard was installed, with success, before anything that is.
  pub data GuardFirst (c : NetworkConfig) (log : List Event) : Type 0 where
    concealed : conceals log ≡ true → GuardFirst c log
    guarded :
        (before rest : List Event) (w : kernel.World)
        → conceals before ≡ true
        → log ≡ before ++ (runs nft_batch (guard c) ∷ rest)
        → (kernel.command nft_batch (guard c) w).0 ≡ returned tt
        → GuardFirst c log

  after-guard :
      (c : NetworkConfig) (before : List Event) (w : kernel.World) (n : Controller kernel.World)
      (o : Outcome Exception (Unit {0}))
      → conceals before ≡ true
      → (kernel.command nft_batch (guard c) w).0 ≡ o
      → GuardFirst c (
          before
          ++ (after (λ _. install_addresses kernel inet c) n (runs nft_batch (guard c) ∷ []) o).log)
  unfolding conceals is_exposing
  after-guard c before w n (returned u) h e = guarded before _ w h refl e
  after-guard c before w n (thrown x) h e = concealed (conceals-append before _ h refl)

  after_links :
      (c : NetworkConfig) (n : Controller kernel.World) (log : List Event)
      (o : Outcome Exception (Unit {0}))
      → conceals log ≡ true
      → GuardFirst c
          (after
            (λ _. command kernel nft_batch (guard c) >> install_addresses kernel inet c)
            n
            log
            o).log
  unfolding command
  after_links c n log (returned u) h = after-guard c log n.world _ _ h refl
  after_links c n log (thrown e) h = concealed h

  -- Whatever fails on the way, `install` adds no address, route or rule and does not turn forwarding
  -- on before it has asked `nft` to install the forwarding guard and `nft` has taken it.
  pub install-GuardFirst :
      (c : NetworkConfig) (n : Controller kernel.World) → GuardFirst c (install kernel inet c n).log
  unfolding install
  install-GuardFirst c n = after_links c _ _ _ ((install_links-IsConcealing c).log n)
