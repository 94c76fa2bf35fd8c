-- ===== src/Server/Shutdown/Settled.antt =====
-- What the end of `work` in src/server.cpp leaves of the network.
use wirelab_experiments.Common.{
  true, false, ◌≡◌, ◌⊎◌, inl, inr, refl, sym, ap, ◌∙◌, subst, List, [], some, Outcome, returned,
  thrown, Bool-cases, arith,
}
use wirelab_experiments.Inet.{Inet}
use wirelab_experiments.Config.{NetworkConfig}
use wirelab_experiments.Engine.{Engine}
use wirelab_experiments.Network.Outside.{
  Exception, Status, awaiting_confirmation, Kernel, Controller, Event, pure, handle,
}
use wirelab_experiments.Network.Checks.{is_awaiting, revalidate}
use wirelab_experiments.Network.Restore.{restore}
use wirelab_experiments.Network.Settled.{IsSettled, restore-IsSettled}
use wirelab_experiments.Network.{rollback}
use wirelab_experiments.Server.Sampling.{Runtime, Occasion}
use wirelab_experiments.Server.Shutdown.{leave_network, finish}

module _ (kernel : Kernel) (inet : Inet) where
  rollback-restore :
      (n : Controller kernel.World)
      → n.enabled ≡ true
      → n.state.status ≡ awaiting_confirmation
      → (rollback kernel inet n).controller ≡ (restore kernel inet n).controller
  unfolding rollback
  rollback-restore n e h = ground arith

  handled :
      (n : Controller kernel.World) (log : List Event) (o : Outcome Exception (Unit {0}))
      → let r = handle (λ e. pure tt) n log o in (r.outcome ≡ returned tt) × (r.controller ≡ n)
  handled n log (returned u) = (refl, refl)
  handled n log (thrown e) = (refl, refl)

  awaiting : (s : Status) → is_awaiting s ≡ true → s ≡ awaiting_confirmation
  awaiting s h = ground arith

  leave_awaiting :
      (n : Controller kernel.World)
      → is_awaiting n.state.status ≡ true
      → ((leave_network kernel inet n).outcome ≡ returned tt)
        × ((leave_network kernel inet n).controller ≡ (rollback kernel inet n).controller)
  unfolding leave_network
  leave_awaiting n h = rw h (handled _ _ _)

  leave_other :
      (n : Controller kernel.World)
      → is_awaiting n.state.status ≡ false
      → leave_network kernel inet n ≡ record { outcome = returned tt; controller = n; log = [] }
  unfolding leave_network
  leave_other n h = rw h refl

  -- With changes enabled and an acceptable configuration in the state, the end of `work` drops the
  -- waiting jobs and comes to its own end whatever fails: it leaves a network where no confirmation is
  -- awaited, a confirmed one included, exactly as it is and asks for no change; and otherwise the
  -- configuration is rolled back, or the status says that this failed or has begun.
  pub finish_settles :
      {J : Type 0} (halted : Engine) (o : Occasion) (s : Runtime) (tasks : List J)
      (n : Controller kernel.World) (c : NetworkConfig)
      → n.enabled ≡ true
      → n.state.config ≡ some c
      → (revalidate kernel inet c n).outcome ≡ returned c
      → let r = finish kernel inet halted o s tasks n in
        (r.tasks ≡ [])
        × (r.network.outcome ≡ returned tt)
        × (((is_awaiting n.state.status ≡ false)
              × (r.network ≡ record { outcome = returned tt; controller = n; log = [] }))
            ⊎ ((n.state.status ≡ awaiting_confirmation)
                × IsSettled r.network.controller.state.status))
  unfolding finish
  finish_settles halted o s tasks n c on k v = elim (Bool-cases (is_awaiting n.state.status)) [
    | inl e ↦
        let a = awaiting n.state.status e in
        let left = leave_awaiting n e in
        (
          refl,
          left.0,
          inr (
            a,
            subst (λ m. IsSettled m.state.status) (sym (left.1 ∙ rollback-restore n on a))
                (restore-IsSettled kernel inet n c k v),
          ),
        )
    | inr e ↦ let same = leave_other n e in (refl, ap (λ r. r.outcome) same, inl (e, same))
  ]
