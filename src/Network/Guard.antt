-- ===== src/Network/Guard.antt =====
-- The forwarding guard in `restore` of src/network.cpp: when the table that holds it is deleted, and
-- where `undo` ends.
use wirelab_experiments.Common.{
  ℕ, Bool, true, false, List, [], ◌∷◌, ◌++◌, Option, none, some, Text, returned, Outcome-cases, inl,
  inr, codes, text_eq, ◌==◌, if◌then◌else◌, ◌≡◌, ◌⊎◌, refl, subst, sym, arith,
}
use wirelab_experiments.Inet.{Inet}
use wirelab_experiments.Config.{NetworkConfig}
use wirelab_experiments.Network.Outside.{
  what, Message, rollback_failed, Baseline, NetState, Kernel, Controller, Event, pure, after, ask,
  ◌>>=◌,
}
use wirelab_experiments.Network.Netlink.{
  N, netlink, index_of, write_file, command, store_put, link_state, outer_link, remove_vlan,
  clear_connections, ipv4, address, route, rule,
}
use wirelab_experiments.Network.Checks.{has_flag, ipv6_path, rp_filter_path}
use wirelab_experiments.Network.Restore.{
  attempt, replace_by_guard, delete_if_present, restore_port, restore_ports, restore_outer, undo,
  release_guard, settle, undo_and_settle,
}
use wirelab_experiments.Network.Steady.{
  texts_eq, is_release, keeps_guard, keeps_guard-append, KeepsGuard, IsKeeping, keeping,
  then-IsKeeping, IsSteady, bind-IsSteady, pure-IsSteady,
}

module _ (kernel : Kernel) (inet : Inet) where
  netlink-keeps :
      (message : Message) (missing_ok : Bool) → KeepsGuard (netlink kernel message missing_ok)
  unfolding netlink keeps_guard is_release
  netlink-keeps message missing_ok n = refl

  index_of-keeps : (name : Text) → KeepsGuard (index_of kernel name)
  unfolding index_of keeps_guard
  index_of-keeps name n = ground arith

  write_file-keeps : (path value : Text) → KeepsGuard (write_file kernel path value)
  unfolding write_file keeps_guard is_release
  write_file-keeps path value n = refl

  ipv4-keeps : (value : Text) → KeepsGuard (ipv4 kernel inet value)
  unfolding ipv4 keeps_guard
  ipv4-keeps value n = ground arith

  address-keeps :
      (iface ip : Text) (prefix : ℕ) (add : Bool)
      → KeepsGuard (address kernel inet iface ip prefix add)
  unfolding address index_of ipv4 netlink keeps_guard is_release
  address-keeps iface ip prefix add n = ground arith

  rule-keeps : (c : NetworkConfig) (add : Bool) → KeepsGuard (rule kernel inet c add)
  unfolding rule ipv4 netlink keeps_guard is_release
  rule-keeps c add n = ground arith

  route-keeps :
      (c : NetworkConfig) (gateway add : Bool) → KeepsGuard (route kernel inet c gateway add)
  unfolding route index_of ipv4 netlink keeps_guard is_release
  route-keeps c gateway add n = ground arith

  link_state-keeps :
      (name : Text) (up : Bool) (mac : Text) → KeepsGuard (link_state kernel name up mac)
  unfolding link_state index_of netlink keeps_guard is_release
  link_state-keeps name up mac n = ground arith

  remove_vlan-keeps : KeepsGuard (remove_vlan kernel)
  unfolding remove_vlan index_of netlink keeps_guard is_release
  remove_vlan-keeps n = ground arith

  delete_if_present-keeps : KeepsGuard (delete_if_present kernel inet (codes "ip"))
  unfolding delete_if_present command keeps_guard is_release texts_eq text_eq
  delete_if_present-keeps n = ground arith

  replace_by_guard-keeps : (c : NetworkConfig) → KeepsGuard (replace_by_guard kernel inet c)
  unfolding replace_by_guard command clear_connections netlink keeps_guard is_release texts_eq
      text_eq
  replace_by_guard-keeps c n = ground arith

  pub attempt_outcome :
      (action : N kernel (Unit {0})) (errors : Text) (n : Controller kernel.World)
      → (errors' : Text) × ((attempt kernel inet action errors n).outcome ≡ returned errors')
  unfolding attempt
  attempt_outcome action errors n = elim (Outcome-cases (action n).outcome) [
    | inl (a, e) ↦ (errors, rw e refl)
    | inr (x, e) ↦ (errors ++ (what x ++ codes "; "), rw e refl)
  ]

  attempt-keeps :
      (action : N kernel (Unit {0})) (errors : Text)
      → KeepsGuard action
      → KeepsGuard (attempt kernel inet action errors)
  unfolding attempt keeps_guard
  attempt-keeps action errors h n = ground (arith, h n, keeps_guard-append (action n).log [])

  attempt-IsSteady :
      (action : N kernel (Unit {0})) (errors : Text)
      → KeepsGuard action
      → IsSteady (attempt kernel inet action errors)
  attempt-IsSteady action errors h = record {
    keeps = attempt-keeps action errors h;
    returns = attempt_outcome action errors;
  }

  restore_port-IsKeeping : (b : Baseline) → IsKeeping (restore_port kernel inet b)
  unfolding restore_port
  restore_port-IsKeeping b =
      then-IsKeeping (link_state kernel b.ifname false []) (link_state-keeps _ _ _) (
        then-IsKeeping (link_state kernel b.ifname false b.address) (link_state-keeps _ _ _) (
          then-IsKeeping (write_file kernel (ipv6_path b.ifname) b.disable_ipv6)
            (write_file-keeps _ _)
            (then-IsKeeping (write_file kernel (rp_filter_path b.ifname) b.rp_filter)
              (write_file-keeps _ _)
              (keeping (link_state kernel b.ifname (has_flag (codes "UP") b.flags) [])
                (link_state-keeps _ _ _)))))

  restore_ports-IsSteady :
      (bs : List Baseline) (errors : Text) → IsSteady (restore_ports kernel inet bs errors)
  unfolding restore_ports
  restore_ports-IsSteady [] errors = pure-IsSteady
  restore_ports-IsSteady (b ∷ bs) errors =
      bind-IsSteady (attempt-IsSteady _ _ (restore_port-IsKeeping b).log)
        (restore_ports-IsSteady bs)

  outer_attempts-IsSteady :
      (c : NetworkConfig) (errors : Text) (absent : Bool)
      → IsSteady (
          if absent then pure errors else (do
            e1 ← attempt kernel inet (route kernel inet c true false) errors
            e2 ← attempt kernel inet (route kernel inet c false false) e1
            attempt kernel inet
                (address kernel inet (outer_link c) c.outer_ipv4 c.outer_prefix false)
                e2))
  outer_attempts-IsSteady c errors true = pure-IsSteady
  outer_attempts-IsSteady c errors false =
      bind-IsSteady (attempt-IsSteady _ _ (route-keeps c true false)) λ e1.
        bind-IsSteady (attempt-IsSteady _ _ (route-keeps c false false)) λ e2.
          attempt-IsSteady _ _ (address-keeps (outer_link c) c.outer_ipv4 c.outer_prefix false)

  ask-IsSteady : {A : Type 0} (q : kernel.World → A) → IsSteady (ask {A = A} q)
  unfolding keeps_guard
  ask-IsSteady q = record { keeps = λ n. refl; returns = λ n. (q n.world, refl) }

  restore_outer-IsSteady :
      (c : NetworkConfig) (errors : Text) → IsSteady (restore_outer kernel inet c errors)
  unfolding restore_outer
  restore_outer-IsSteady c errors =
      bind-IsSteady (ask-IsSteady (λ w. kernel.link_index w (outer_link c)))
        λ index. outer_attempts-IsSteady c errors (index == 0)

  vlan_attempt-IsSteady :
      (vlan_id : Option ℕ) (errors : Text)
      → IsSteady {W = kernel.World} (elim vlan_id [
        | none ↦ pure errors
        | some id ↦ attempt kernel inet (remove_vlan kernel) errors
      ])
  vlan_attempt-IsSteady none errors = pure-IsSteady
  vlan_attempt-IsSteady (some id) errors = attempt-IsSteady _ _ remove_vlan-keeps

  undo-IsSteady : (c : NetworkConfig) (s : NetState) → IsSteady (undo kernel inet c s)
  unfolding undo
  undo-IsSteady c s = bind-IsSteady (attempt-IsSteady _ _ (replace_by_guard-keeps c)) λ e1.
      bind-IsSteady (attempt-IsSteady _ _ (rule-keeps c false)) λ e2.
        bind-IsSteady (restore_outer-IsSteady c e2) λ e3.
          bind-IsSteady (attempt-IsSteady _ _ (address-keeps _ _ _ false)) λ e4.
            bind-IsSteady (vlan_attempt-IsSteady c.vlan_id e4) λ e5.
              bind-IsSteady (attempt-IsSteady _ _ delete_if_present-keeps) λ e6.
                bind-IsSteady (attempt-IsSteady _ _ (write_file-keeps _ _)) λ e7.
                  bind-IsSteady (attempt-IsSteady _ _ (write_file-keeps _ _))
                    λ e8. restore_ports-IsSteady s.baseline e8

  -- The end of `restore` where an error was noted.
  settle_errors :
      (x : ℕ) (xs : Text) (n : Controller kernel.World)
      → let r = (do errors' ← release_guard kernel inet (x ∷ xs); settle kernel inet errors') n in
        (keeps_guard r.log ≡ true) × (r.controller.state.status ≡ rollback_failed)
  unfolding release_guard settle store_put keeps_guard is_release
  settle_errors x xs n = ground arith

  after_errors :
      (errors : Text) (n : Controller kernel.World) (log : List Event)
      → keeps_guard log ≡ true
      → let r =
          after
            (λ e. do errors' ← release_guard kernel inet e; settle kernel inet errors')
            n
            log
            (returned errors) in
        (errors ≡ []) ⊎ ((keeps_guard r.log ≡ true) × (r.controller.state.status ≡ rollback_failed))
  after_errors [] n log h = inl refl
  after_errors (x ∷ xs) n log h =
      let s = settle_errors x xs n in inr (keeps_guard-append log _ h s.0, s.1)

  -- Whatever fails on the way, `undo` comes to its end with a text of errors; and unless that text is
  -- empty, `restore` never asks from there on to delete the table with the forwarding guard, and the
  -- status becomes `rollback_failed`.
  pub undo_and_settle-guard :
      (c : NetworkConfig) (s : NetState) (n : Controller kernel.World)
      → (errors : Text) × ((undo kernel inet c s n).outcome ≡ returned errors)
        × ((errors ≡ [])
            ⊎ ((keeps_guard (undo_and_settle kernel inet c s n).log ≡ true)
                × ((undo_and_settle kernel inet c s n).controller.state.status ≡ rollback_failed)))
  unfolding undo_and_settle
  undo_and_settle-guard c s n =
      let u = undo-IsSteady c s in
      let r = u.returns n in
      (
        r.0,
        r.1,
        subst
            (λ o.
              let t =
                after (λ e. do errors' ← release_guard kernel inet e; settle kernel inet errors')
                  (undo kernel inet c s n).controller (undo kernel inet c s n).log o in
              (r.0 ≡ [])
              ⊎ ((keeps_guard t.log ≡ true) × (t.controller.state.status ≡ rollback_failed)))
            (sym r.1)
            (after_errors r.0 (undo kernel inet c s n).controller (undo kernel inet c s n).log
              (u.keeps n)),
      )
