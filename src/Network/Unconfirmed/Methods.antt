-- ===== src/Network/Unconfirmed/Methods.antt =====
-- The methods of src/network.cpp other than `confirm`, which make no configuration confirmed.
use wirelab_experiments.Common.{
  leb, codes, ◌+◌, Bool, true, false, not, ◌&&◌, Text, ◌≡◌, refl, arith, if◌then◌else◌,
}
use wirelab_experiments.Inet.{Inet}
use wirelab_experiments.Config.{NetworkConfig}
use wirelab_experiments.Network.Outside.{
  Exception, runtime_error, inactive, awaiting_confirmation, rollback_failed, NetState, Baseline,
  Kernel, throw_if, ◌>>◌,
}
use wirelab_experiments.Network.Netlink.{store_put}
use wirelab_experiments.Network.Checks.{
  confirmation_time, is_confirmed, is_inactive, is_awaiting, saved_config, revalidate,
  check_resources, port_baseline,
}
use wirelab_experiments.Network.Restore.{is_empty, settle, undo_and_settle, restore_from, restore}
use wirelab_experiments.Network.Quiet.Parts.{install-IsQuiet, undo-IsQuiet, release_guard-IsQuiet}
use wirelab_experiments.Network.Journal.{
  revalidate-ReadsOnly, check_resources-ReadsOnly, port_baseline-ReadsOnly,
}
use wirelab_experiments.Network.{
  fill_journal, save_ports, check_and_save, prepare, install_and_wait, undo_install, commit, apply,
  tick, rollback, disabled, occupied,
}
use wirelab_experiments.Network.Unconfirmed.{
  IsModest, quiet-IsModest, bind-IsModest, then-IsModest, catch-IsModest, pure-IsModest,
  throw-IsModest, throw_if-IsModest, ask-IsModest, set-IsModest, get-IsModest, state-IsModest,
  reads-IsModest, if-IsModest, enabled-IsModest, deadline-IsModest, deadline_set-IsModest,
}
use wirelab_experiments.Network.Crash.Logs.{saved_config-ReadsOnly}

module _ (kernel : Kernel) (inet : Inet) where
  put-IsModest : (s : NetState) → IsModest (store_put kernel s)
  unfolding store_put
  put-IsModest s = record { modest = λ n h. h }

  unconfirmed_end : (b : Bool) → is_confirmed (if b then inactive else rollback_failed) ≡ false
  unconfirmed_end true = refl
  unconfirmed_end false = refl

  settle-IsModest : (errors : Text) → IsModest (settle kernel inet errors)
  unfolding settle
  settle-IsModest errors = bind-IsModest state-IsModest λ s.
      then-IsModest (set-IsModest _ (unconfirmed_end (is_empty errors)))
        (then-IsModest (put-IsModest _) (throw_if-IsModest _ _))

  undo_and_settle-IsModest :
      (c : NetworkConfig) (s : NetState) → IsModest (undo_and_settle kernel inet c s)
  unfolding undo_and_settle
  undo_and_settle-IsModest c s =
      bind-IsModest (quiet-IsModest (undo-IsQuiet kernel inet c s)) λ errors.
        bind-IsModest (quiet-IsModest (release_guard-IsQuiet kernel inet errors)) settle-IsModest

  restore_from-IsModest : (c : NetworkConfig) → IsModest (restore_from kernel inet c)
  unfolding restore_from
  restore_from-IsModest c = bind-IsModest state-IsModest λ s.
      then-IsModest (set-IsModest _ refl)
        (then-IsModest (put-IsModest _) (undo_and_settle-IsModest c s))

  saved_config-IsModest : IsModest (saved_config kernel inet)
  saved_config-IsModest =
      reads-IsModest (saved_config kernel inet) (saved_config-ReadsOnly kernel inet)

  pub restore-IsModest : IsModest (restore kernel inet)
  unfolding restore
  restore-IsModest = bind-IsModest saved_config-IsModest restore_from-IsModest

  pub rollback-IsModest : IsModest (rollback kernel inet)
  unfolding rollback
  rollback-IsModest = bind-IsModest enabled-IsModest λ enabled.
      then-IsModest
        (throw_if-IsModest (not enabled) (runtime_error (codes "Network changes disabled")))
        (bind-IsModest state-IsModest
          λ s. if-IsModest (is_inactive s.status) pure-IsModest restore-IsModest)

  pub tick-IsModest : IsModest (tick kernel inet)
  unfolding tick
  tick-IsModest = bind-IsModest enabled-IsModest λ enabled. bind-IsModest state-IsModest λ s.
      bind-IsModest (ask-IsModest kernel.clock) λ now. bind-IsModest deadline-IsModest λ deadline.
        if-IsModest (enabled && (is_awaiting s.status && leb deadline now)) restore-IsModest
          pure-IsModest

  fill_journal-IsModest :
      (c : NetworkConfig) (s : NetState) (outer inner : Baseline)
      → is_confirmed s.status ≡ false
      → IsModest (fill_journal kernel inet c s outer inner)
  unfolding fill_journal
  fill_journal-IsModest c s outer inner h = record { modest = λ n u. ground arith }

  check_and_save-IsModest :
      (c : NetworkConfig) (s : NetState)
      → is_confirmed s.status ≡ false
      → IsModest (check_and_save kernel inet c s)
  unfolding check_and_save save_ports
  check_and_save-IsModest c s h =
      bind-IsModest (reads-IsModest (revalidate kernel inet c) (revalidate-ReadsOnly kernel inet c))
        λ validated.
          then-IsModest
            (reads-IsModest (check_resources kernel inet) (check_resources-ReadsOnly kernel inet))
            (bind-IsModest
              (reads-IsModest (port_baseline kernel inet c.outer_interface)
                (port_baseline-ReadsOnly kernel inet c.outer_interface))
              λ outer.
                bind-IsModest
                  (reads-IsModest (port_baseline kernel inet c.inner_interface)
                    (port_baseline-ReadsOnly kernel inet c.inner_interface))
                  λ inner. fill_journal-IsModest c s outer inner h)

  prepare-IsModest : (c : NetworkConfig) → IsModest (prepare kernel inet c)
  unfolding prepare
  prepare-IsModest c = bind-IsModest enabled-IsModest λ enabled.
      then-IsModest (throw_if-IsModest (not enabled) disabled) (
        get-IsModest
          (λ s. throw_if (not (is_inactive s.status)) occupied >> check_and_save kernel inet c s)
          λ s h.
            then-IsModest (throw_if-IsModest (not (is_inactive s.status)) occupied)
              (check_and_save-IsModest c s h))

  install_and_wait-IsModest : (c : NetworkConfig) → IsModest (install_and_wait kernel inet c)
  unfolding install_and_wait
  install_and_wait-IsModest c = then-IsModest (quiet-IsModest (install-IsQuiet kernel inet c)) (
      bind-IsModest state-IsModest λ s.
        let s' : NetState = record s { status = awaiting_confirmation } in
        then-IsModest (set-IsModest s' refl) (
          bind-IsModest (ask-IsModest kernel.clock) λ now.
            then-IsModest (deadline_set-IsModest {d = now + confirmation_time}) (put-IsModest s')))

  undo_install-IsModest : (e : Exception) → IsModest (undo_install kernel inet e)
  unfolding undo_install
  undo_install-IsModest e =
      then-IsModest (catch-IsModest restore-IsModest (λ x. throw-IsModest)) throw-IsModest

  pub apply-IsModest : (c : NetworkConfig) → IsModest (apply kernel inet c)
  unfolding apply commit
  apply-IsModest c = bind-IsModest (prepare-IsModest c) λ s.
      then-IsModest (put-IsModest s)
        (catch-IsModest (install_and_wait-IsModest c) undo_install-IsModest)
