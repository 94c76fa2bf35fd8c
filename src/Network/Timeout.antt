-- ===== src/Network/Timeout.antt =====
-- Confirmation and timeout in src/network.cpp: what `restore`, `confirm` and `tick` leave behind.
use wirelab_experiments.Common.{
  ◌≤◌, ◌<◌, true, false, List, [], ◌∷◌, some, Text, Outcome, returned, thrown, ◌≡◌, inl, inr, refl,
  ap, arith, Bool-cases,
}
use wirelab_experiments.Inet.{Inet}
use wirelab_experiments.Config.{NetworkConfig}
use wirelab_experiments.Network.Outside.{
  Exception, inactive, awaiting_confirmation, confirmed, rolling_back, NetState, Kernel, Controller,
  Event, puts, M, after, ◌>>=◌,
}
use wirelab_experiments.Network.Netlink.{store_put}
use wirelab_experiments.Network.Checks.{saved_config, is_awaiting, revalidate}
use wirelab_experiments.Network.Restore.{
  release_guard, settle, undo_and_settle, restore_from, restore, is_empty,
}
use wirelab_experiments.Network.{tick, confirm}

-- If a method that ends in `f` returns, then `f` returned where it was called, and left the
-- controller as it is.
returned_by :
    {W A B : Type 0} (P : Controller W → Type 0) (f : A → M W B) (n : Controller W)
    (log : List Event) (o : Outcome Exception A) (b : B)
    → ((a : A) → (f a n).outcome ≡ returned b → P (f a n).controller)
    → (after f n log o).outcome ≡ returned b
    → P (after f n log o).controller
returned_by P f n log (returned a) b h e = h a e
returned_by P f n log (thrown x) b h e = cc

module _ (kernel : Kernel) (inet : Inet) where
  -- Nothing is active, and no error was found.
  abbrev pub IsIdle : Controller kernel.World → Type 0
  IsIdle n = (n.state.status ≡ inactive) × (n.state.error ≡ some [])

  no_errors : (t : Text) → is_empty t ≡ true → t ≡ []
  no_errors [] h = refl
  no_errors (c ∷ cs) h = ground arith

  settle-IsIdle :
      (errors : Text) (n : Controller kernel.World)
      → (settle kernel inet errors n).outcome ≡ returned tt
      → IsIdle (settle kernel inet errors n).controller
  unfolding settle store_put
  settle-IsIdle errors n h = ground (arith, no_errors errors)

  pub undo-IsIdle :
      (c : NetworkConfig) (s : NetState) (n : Controller kernel.World)
      → (undo_and_settle kernel inet c s n).outcome ≡ returned tt
      → IsIdle (undo_and_settle kernel inet c s n).controller
  unfolding undo_and_settle
  undo-IsIdle c s n =
      returned_by IsIdle (λ errors. release_guard kernel inet errors >>= settle kernel inet) _ _ _
        tt
        λ errors.
          returned_by IsIdle (settle kernel inet) _ _ _ tt λ errors'. settle-IsIdle errors' _

  restore_from-IsIdle :
      (c : NetworkConfig) (n : Controller kernel.World)
      → (restore_from kernel inet c n).outcome ≡ returned tt
      → IsIdle (restore_from kernel inet c n).controller
  unfolding restore_from
  restore_from-IsIdle c n =
      returned_by IsIdle (λ _. undo_and_settle kernel inet c n.state) _ _ _ tt
        λ _. undo-IsIdle c n.state _

  -- If `restore` returns, the status is `inactive` and no error is left.
  pub restore-IsIdle :
      (n : Controller kernel.World)
      → (restore kernel inet n).outcome ≡ returned tt
      → IsIdle (restore kernel inet n).controller
  unfolding restore
  restore-IsIdle n =
      returned_by IsIdle (restore_from kernel inet) _ _ _ tt λ c. restore_from-IsIdle c _

  -- If `confirm` returns, changes were enabled, a confirmation was awaited and its deadline had not
  -- passed; the status becomes `confirmed`, the rest of the state and the deadline stay, and the new
  -- state is stored, which is the only change.
  pub confirm-returned :
      (n : Controller kernel.World)
      → (confirm kernel inet n).outcome ≡ returned tt
      → let s = record (n.state) { status = confirmed } in
        (n.enabled ≡ true)
        × (n.state.status ≡ awaiting_confirmation)
        × (kernel.clock n.world < n.deadline)
        × ((confirm kernel inet n).controller.state ≡ s)
        × ((confirm kernel inet n).controller.deadline ≡ n.deadline)
        × ((confirm kernel inet n).log ≡ puts s ∷ [])
  unfolding confirm tick store_put
  confirm-returned n h = ground (arith, restore-IsIdle n)

  -- Where `tick` has anything to do.
  abbrev pub IsDue : Controller kernel.World → Type 0
  IsDue n =
      (n.enabled ≡ true)
      × (n.state.status ≡ awaiting_confirmation)
      × (n.deadline ≤ kernel.clock n.world)

  tick_overdue :
      (n : Controller kernel.World) (c : NetworkConfig) (e : Exception)
      → IsDue n
      → n.state.config ≡ some c
      → (revalidate kernel inet c n).outcome ≡ returned c
      → (kernel.put (record (n.state) { status = rolling_back }) n.world).0 ≡ thrown e
      → ((tick kernel inet n).outcome ≡ thrown e)
        × ((tick kernel inet n).log ≡ puts (record (n.state) { status = rolling_back }) ∷ [])
        × ((tick kernel inet n).controller.state.status ≡ rolling_back)
  unfolding tick restore restore_from saved_config revalidate store_put
  tick_overdue n c e d k v p = ground arith

  -- Nothing happens where no confirmation is awaited.
  tick_idle :
      (n : Controller kernel.World)
      → is_awaiting n.state.status ≡ false
      → tick kernel inet n ≡ record { outcome = returned tt; controller = n; log = [] }
  unfolding tick
  tick_idle n h = elim (Bool-cases n.enabled) [ inl on ↦ rw (on, h) | inr off ↦ rw off ]

  -- When a confirmation is overdue and the store refuses the journal of the rollback, `tick` throws
  -- with the status `rolling_back` and has asked for no other change; and a later `tick` on the
  -- controller that it leaves, in any world and at any time, does nothing.
  pub tick_abandons :
      (n : Controller kernel.World) (c : NetworkConfig) (e : Exception)
      → IsDue n
      → n.state.config ≡ some c
      → (revalidate kernel inet c n).outcome ≡ returned c
      → (kernel.put (record (n.state) { status = rolling_back }) n.world).0 ≡ thrown e
      → let n' = (tick kernel inet n).controller in
        ((tick kernel inet n).outcome ≡ thrown e)
        × ((tick kernel inet n).log ≡ puts (record (n.state) { status = rolling_back }) ∷ [])
        × ((w : kernel.World)
            → tick kernel inet (record n' { world = w })
              ≡ record { outcome = returned tt; controller = record n' { world = w }; log = [] })
  tick_abandons n c e d k v p =
      let t = tick_overdue n c e d k v p in
      (
        t.0,
        t.1,
        λ w.
            tick_idle (record ((tick kernel inet n).controller) { world = w }) (ap is_awaiting t.2),
      )
