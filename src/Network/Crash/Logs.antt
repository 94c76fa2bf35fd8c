-- ===== src/Network/Crash/Logs.antt =====
-- What `apply` of src/network.cpp asks the store to keep.
use wirelab_experiments.Common.{
  ◌+◌, not, List, [], ◌∷◌, append-nil, some, Text, Outcome, returned, thrown, ◌≡◌, inl, inr, refl,
  sym, subst, arith, Bool-cases,
}
use wirelab_experiments.Inet.{Inet}
use wirelab_experiments.Config.{NetworkConfig, ConfigError, validate}
use wirelab_experiments.Network.Outside.{
  Exception, applying, awaiting_confirmation, rolling_back, NetState, Kernel, Controller, Run,
  Event, puts, throw_if, runtime_error, try_catch, set_state, set_deadline, get_state, ask, ◌>>◌,
  after, ◌>>=◌,
}
use wirelab_experiments.Network.Netlink.{store_put}
use wirelab_experiments.Network.Checks.{confirmation_time, saved_config, revalidate}
use wirelab_experiments.Network.Restore.{
  is_empty, undo, release_guard, settle, undo_and_settle, restore_from, restore,
}
use wirelab_experiments.Network.Quiet.Parts.{install-IsQuiet, undo-IsQuiet, release_guard-IsQuiet}
use wirelab_experiments.Network.Journal.{ReadsOnly, Journals, prepare-Prepared}
use wirelab_experiments.Network.{
  prepare, check_and_save, install_and_wait, undo_install, commit, apply,
}
use wirelab_experiments.Network.Crash.{
  SameJournal, Open, Journaled, quiet-Open, Open-append, after-Journaled, handle-Journaled,
  quiet-after-Journaled, SameJournal-status, SameJournal-refl,
}

module _ (kernel : Kernel) (inet : Inet) where
  put_or_throw_log :
      (s : NetState) (errors : Text) (n : Controller kernel.World)
      (o : Outcome Exception (Unit {0}))
      → (after (λ _. throw_if (not (is_empty errors)) (runtime_error errors)) n (puts s ∷ []) o).log
        ≡ puts s ∷ []
  put_or_throw_log s [] n (returned u) = refl
  put_or_throw_log s (x ∷ xs) n (returned u) = ground arith
  put_or_throw_log s errors n (thrown e) = refl

  settle-Journaled :
      (j : NetState) (errors : Text) (n : Controller kernel.World)
      → SameJournal j n.state
      → Journaled j (settle kernel inet errors n).log
  unfolding settle store_put
  settle-Journaled j errors n h = rw (put_or_throw_log _ errors) (
    SameJournal-status j n.state _ _ h,
    elim (Bool-cases (is_empty errors)) [
      | inl e ↦ inr (rw e refl, refl)
      | inr e ↦ inl (rw e (inr (inr (inr refl))), tt)
    ],
  )

  undo-Journaled :
      (j : NetState) (c : NetworkConfig) (s : NetState) (n : Controller kernel.World)
      → SameJournal j n.state
      → Journaled j (undo_and_settle kernel inet c s n).log
  unfolding undo_and_settle
  undo-Journaled j c s n h =
      quiet-after-Journaled j (undo kernel inet c s)
        (λ errors. release_guard kernel inet errors >>= settle kernel inet) n
        (undo-IsQuiet kernel inet c s) h
        λ errors n' h'.
          quiet-after-Journaled j (release_guard kernel inet errors) (settle kernel inet) n'
            (release_guard-IsQuiet kernel inet errors) h'
            λ errors' n'' h''. settle-Journaled j errors' n'' h''

  restore_from-Journaled :
      (j : NetState) (c : NetworkConfig) (n : Controller kernel.World)
      → SameJournal j n.state
      → Journaled j (restore_from kernel inet c n).log
  unfolding restore_from store_put
  restore_from-Journaled j c n h =
      let s = record (n.state) { status = rolling_back } in
      let r : SameJournal j s = SameJournal-status j n.state _ n.state.error h in
      after-Journaled j (λ _. undo_and_settle kernel inet c n.state)
        (record n { state = s; world = (kernel.put s n.world).1 }) (puts s ∷ [])
        (kernel.put s n.world).0 (r, inr (inr (inl refl)), tt) λ _. undo-Journaled j c n.state _ r

  pub saved_config-ReadsOnly :
      (n : Controller kernel.World) → ReadsOnly n (saved_config kernel inet n)
  unfolding saved_config revalidate
  saved_config-ReadsOnly n = ground arith

  restore-Journaled :
      (j : NetState) (n : Controller kernel.World)
      → SameJournal j n.state
      → Journaled j (restore kernel inet n).log
  unfolding restore
  restore-Journaled j n h =
      let r = saved_config-ReadsOnly n in
      rw (r.0, r.1)
        (after-Journaled j (restore_from kernel inet) n [] (saved_config kernel inet n).outcome tt
          λ c. restore_from-Journaled j c n h)

  undo_install_log :
      (e : Exception) (n : Controller kernel.World)
      → (undo_install kernel inet e n).log ≡ (restore kernel inet n).log
  unfolding undo_install
  undo_install_log e n = ground (arith, append-nil (restore kernel inet n).log)

  undo_install-Journaled :
      (j : NetState) (e : Exception) (n : Controller kernel.World)
      → SameJournal j n.state
      → Journaled j (undo_install kernel inet e n).log
  undo_install-Journaled j e n h = rw (undo_install_log e n) (restore-Journaled j n h)

  -- What the installation, done or not, leaves for its handler.
  record Waits (j : NetState) (r : Run kernel.World (Unit {0})) : Type 0 where
    log : Open j r.log
    journal : SameJournal j r.controller.state

  after_install :
      (j : NetState) (n : Controller kernel.World) (log : List Event)
      (o : Outcome Exception (Unit {0}))
      → SameJournal j n.state
      → Open j log
      → Waits j (
          after
            (λ _. do
              s ← get_state
              set_state (record s { status = awaiting_confirmation })
              now ← ask kernel.clock
              set_deadline (now + confirmation_time)
              store_put kernel (record s { status = awaiting_confirmation }))
            n
            log
            o)
  unfolding store_put
  after_install j n log (returned u) h k =
      let q = SameJournal-status j n.state awaiting_confirmation n.state.error h in
      record { log = Open-append j log _ k (q, inr (inl refl), tt); journal = q }
  after_install j n log (thrown e) h k = record { log = k; journal = h }

  install_and_wait-Waits :
      (j : NetState) (c : NetworkConfig) (n : Controller kernel.World)
      → SameJournal j n.state
      → Waits j (install_and_wait kernel inet c n)
  unfolding install_and_wait
  install_and_wait-Waits j c n h =
      let q = (install-IsQuiet kernel inet c).keeps n in
      after_install j _ _ _ (subst (SameJournal j) (sym q.0) h) (quiet-Open j _ q.1)

  guarded_install-Journaled :
      (j : NetState) (c : NetworkConfig) (n : Controller kernel.World)
      → SameJournal j n.state
      → Journaled j (try_catch (install_and_wait kernel inet c) (undo_install kernel inet) n).log
  guarded_install-Journaled j c n h =
      let q = install_and_wait-Waits j c n h in
      let r = install_and_wait kernel inet c n in
      handle-Journaled j (undo_install kernel inet) r.controller r.log r.outcome q.log
        λ e. undo_install-Journaled j e _ q.journal

  -- What `apply` logs: nothing, or a journal of `c` with what came behind it.
  pub data Log (c : NetworkConfig) : List Event → Type 0 where
    untouched : Log c []
    journaled :
        (j : NetState) (rest : List Event)
        → validate inet c ≡ []
        → j.status ≡ applying
        → j.config ≡ some c
        → Journaled j rest
        → Log c (puts j ∷ rest)

  prepare_valid :
      (c : NetworkConfig) (n : Controller kernel.World) (errors : List ConfigError) (s : NetState)
      → validate inet c ≡ errors
      → (prepare kernel inet c n).outcome ≡ returned s
      → errors ≡ []
  unfolding prepare check_and_save revalidate
  prepare_valid c n [] s h k = refl
  prepare_valid c n (e ∷ es) s h k = ground arith

  after_put :
      (c : NetworkConfig) (j : NetState) (n : Controller kernel.World)
      (o : Outcome Exception (Unit {0}))
      → validate inet c ≡ []
      → j.status ≡ applying
      → j.config ≡ some c
      → n.state ≡ j
      → Log c
          (after
            (λ _. try_catch (install_and_wait kernel inet c) (undo_install kernel inet))
            n
            (puts j ∷ [])
            o).log
  after_put c j n (returned u) v h k e =
      journaled j _ v h k (guarded_install-Journaled j c n (rw e (SameJournal-refl j)))
  after_put c j n (thrown x) v h k e = journaled j [] v h k tt

  after-Log :
      (c : NetworkConfig) (n : Controller kernel.World) (o : Outcome Exception NetState)
      → Journals kernel inet c n.state o
      → ((s : NetState) → o ≡ returned s → validate inet c ≡ [])
      → Log c (after (commit kernel inet c) n [] o).log
  unfolding commit store_put
  after-Log c n (returned s) j v =
      after_put c s (record n { world = (kernel.put s n.world).1 }) (kernel.put s n.world).0
        (v s refl) j.0 j.1 j.2
  after-Log c n (thrown e) j v = untouched

  pub apply-Log :
      (c : NetworkConfig) (n : Controller kernel.World) → Log c (apply kernel inet c n).log
  unfolding apply
  apply-Log c n =
      let p = prepare-Prepared kernel inet c n in
      rw p.log (
        after-Log c (prepare kernel inet c n).controller _ p.journal
          λ s. prepare_valid c n _ s refl)
