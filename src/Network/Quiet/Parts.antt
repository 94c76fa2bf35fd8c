-- ===== src/Network/Quiet/Parts.antt =====
-- `install` and the attempts of `restore` in src/network.cpp as methods that keep the controller's state
-- and store nothing.
use wirelab_experiments.Common.{
  ℕ, Bool, true, false, List, [], ◌∷◌, Option, none, some, Text, ◌≡◌, refl, ◌==◌, if◌then◌else◌,
  Bool-cases, inl, inr,
}
use wirelab_experiments.Inet.{Inet}
use wirelab_experiments.Config.{NetworkConfig}
use wirelab_experiments.Network.Outside.{Baseline, NetState, Kernel, pure, ask, ◌>>=◌}
use wirelab_experiments.Network.Netlink.{remove_vlan, outer_link, address, route}
use wirelab_experiments.Network.Install.{
  prepare_port, install_vlan, install_links, install_addresses, install,
}
use wirelab_experiments.Network.Restore.{
  attempt, restore_port, restore_ports, restore_outer, undo, release_guard, is_empty,
}
use wirelab_experiments.Network.Quiet.{
  IsQuiet, stores_nothing, pure-IsQuiet, bind-IsQuiet, then-IsQuiet, write_file-IsQuiet,
  command-IsQuiet, link_state-IsQuiet, add_vlan-IsQuiet, remove_vlan-IsQuiet, address-IsQuiet,
  route-IsQuiet, rule-IsQuiet, replace_by_guard-IsQuiet, delete_if_present-IsQuiet, attempt-IsQuiet,
}

module _ (kernel : Kernel) (inet : Inet) where
  prepare_port-IsQuiet : (name : Text) → IsQuiet (prepare_port kernel inet name)
  unfolding prepare_port
  prepare_port-IsQuiet name =
      then-IsQuiet (write_file-IsQuiet kernel inet _ _) (write_file-IsQuiet kernel inet _ _)

  install_vlan-IsQuiet :
      (c : NetworkConfig) (vlan : Option ℕ)
      → c.vlan_id ≡ vlan
      → IsQuiet (install_vlan kernel inet c)
  unfolding install_vlan
  install_vlan-IsQuiet c none h = rw (h, install_vlan) pure-IsQuiet
  install_vlan-IsQuiet c (some id) h =
      rw (h, install_vlan)
        (then-IsQuiet (add_vlan-IsQuiet kernel inet c id) (
          then-IsQuiet (write_file-IsQuiet kernel inet _ _) (
            then-IsQuiet (write_file-IsQuiet kernel inet _ _)
              (link_state-IsQuiet kernel inet (outer_link c) true []))))

  install_links-IsQuiet : (c : NetworkConfig) → IsQuiet (install_links kernel inet c)
  unfolding install_links
  install_links-IsQuiet c = then-IsQuiet (prepare_port-IsQuiet _) (
      then-IsQuiet (prepare_port-IsQuiet _) (
        then-IsQuiet (link_state-IsQuiet kernel inet _ _ _) (
          then-IsQuiet (link_state-IsQuiet kernel inet _ _ _)
            (then-IsQuiet (link_state-IsQuiet kernel inet _ _ _) (install_vlan-IsQuiet c _ refl)))))

  install_addresses-IsQuiet : (c : NetworkConfig) → IsQuiet (install_addresses kernel inet c)
  unfolding install_addresses
  install_addresses-IsQuiet c = then-IsQuiet (link_state-IsQuiet kernel inet _ _ _) (
      then-IsQuiet (address-IsQuiet kernel inet _ _ _ true) (
        then-IsQuiet (address-IsQuiet kernel inet (outer_link c) c.outer_ipv4 c.outer_prefix true) (
          then-IsQuiet (route-IsQuiet kernel inet c false true) (
            then-IsQuiet (route-IsQuiet kernel inet c true true) (
              then-IsQuiet (rule-IsQuiet kernel inet c true) (
                then-IsQuiet (write_file-IsQuiet kernel inet _ _) (
                  then-IsQuiet (write_file-IsQuiet kernel inet _ _)
                    (command-IsQuiet kernel inet _ _))))))))

  pub install-IsQuiet : (c : NetworkConfig) → IsQuiet (install kernel inet c)
  unfolding install
  install-IsQuiet c =
      then-IsQuiet (install_links-IsQuiet c)
        (then-IsQuiet (command-IsQuiet kernel inet _ _) (install_addresses-IsQuiet c))

  restore_port-IsQuiet : (b : Baseline) → IsQuiet (restore_port kernel inet b)
  unfolding restore_port
  restore_port-IsQuiet b = then-IsQuiet (link_state-IsQuiet kernel inet _ _ _) (
      then-IsQuiet (link_state-IsQuiet kernel inet _ _ _) (
        then-IsQuiet (write_file-IsQuiet kernel inet _ _) (
          then-IsQuiet (write_file-IsQuiet kernel inet _ _)
            (link_state-IsQuiet kernel inet _ _ _))))

  restore_ports-IsQuiet :
      (bs : List Baseline) (errors : Text) → IsQuiet (restore_ports kernel inet bs errors)
  unfolding restore_ports
  restore_ports-IsQuiet [] errors = pure-IsQuiet
  restore_ports-IsQuiet (b ∷ bs) errors =
      bind-IsQuiet (attempt-IsQuiet kernel inet _ (restore_port-IsQuiet b))
        (restore_ports-IsQuiet bs)

  outer_attempts-IsQuiet :
      (c : NetworkConfig) (errors : Text) (absent : Bool)
      → IsQuiet (
          if absent then pure errors else (do
            e1 ← attempt kernel inet (route kernel inet c true false) errors
            e2 ← attempt kernel inet (route kernel inet c false false) e1
            attempt kernel inet
                (address kernel inet (outer_link c) c.outer_ipv4 c.outer_prefix false)
                e2))
  outer_attempts-IsQuiet c errors true = pure-IsQuiet
  outer_attempts-IsQuiet c errors false =
      bind-IsQuiet (attempt-IsQuiet kernel inet _ (route-IsQuiet kernel inet c true false)) λ e1.
        bind-IsQuiet (attempt-IsQuiet kernel inet _ (route-IsQuiet kernel inet c false false)) λ e2.
          attempt-IsQuiet kernel inet _
            (address-IsQuiet kernel inet (outer_link c) c.outer_ipv4 c.outer_prefix false)

  ask-IsQuiet : {A : Type 0} (q : kernel.World → A) → IsQuiet (ask {A = A} q)
  unfolding stores_nothing
  ask-IsQuiet q = record { keeps = λ n. (refl, refl) }

  restore_outer-IsQuiet :
      (c : NetworkConfig) (errors : Text) → IsQuiet (restore_outer kernel inet c errors)
  unfolding restore_outer
  restore_outer-IsQuiet c errors =
      bind-IsQuiet (ask-IsQuiet (λ w. kernel.link_index w (outer_link c)))
        λ index. outer_attempts-IsQuiet c errors (index == 0)

  vlan_attempt-IsQuiet :
      (vlan_id : Option ℕ) (errors : Text)
      → IsQuiet {W = kernel.World} (elim vlan_id [
        | none ↦ pure errors
        | some id ↦ attempt kernel inet (remove_vlan kernel) errors
      ])
  vlan_attempt-IsQuiet none errors = pure-IsQuiet
  vlan_attempt-IsQuiet (some id) errors =
      attempt-IsQuiet kernel inet _ (remove_vlan-IsQuiet kernel inet)

  pub undo-IsQuiet : (c : NetworkConfig) (s : NetState) → IsQuiet (undo kernel inet c s)
  unfolding undo
  undo-IsQuiet c s =
      bind-IsQuiet (attempt-IsQuiet kernel inet _ (replace_by_guard-IsQuiet kernel inet c)) λ e1.
        bind-IsQuiet (attempt-IsQuiet kernel inet _ (rule-IsQuiet kernel inet c false)) λ e2.
          bind-IsQuiet (restore_outer-IsQuiet c e2) λ e3.
            bind-IsQuiet (attempt-IsQuiet kernel inet _ (address-IsQuiet kernel inet _ _ _ false))
              λ e4. bind-IsQuiet (vlan_attempt-IsQuiet c.vlan_id e4) λ e5.
                bind-IsQuiet
                  (attempt-IsQuiet kernel inet _ (delete_if_present-IsQuiet kernel inet _))
                  λ e6.
                    bind-IsQuiet
                      (attempt-IsQuiet kernel inet _ (write_file-IsQuiet kernel inet _ _))
                      λ e7.
                        bind-IsQuiet
                          (attempt-IsQuiet kernel inet _ (write_file-IsQuiet kernel inet _ _))
                          λ e8. restore_ports-IsQuiet s.baseline e8

  pub release_guard-IsQuiet : (errors : Text) → IsQuiet (release_guard kernel inet errors)
  unfolding release_guard
  release_guard-IsQuiet errors = elim (Bool-cases (is_empty errors)) [
    | inl e ↦ rw e (attempt-IsQuiet kernel inet _ (delete_if_present-IsQuiet kernel inet _))
    | inr e ↦ rw e pure-IsQuiet
  ]
