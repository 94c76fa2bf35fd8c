-- ===== src/Network/Settled.antt =====
-- What `restore` of src/network.cpp leaves, whatever fails on the way.
use wirelab_experiments.Common.{
  ◌≡◌, ◌⊎◌, inl, inr, refl, List, [], ◌∷◌, some, Text, codes, Outcome, returned, thrown, Bool-cases,
  arith,
}
use wirelab_experiments.Inet.{Inet}
use wirelab_experiments.Config.{NetworkConfig}
use wirelab_experiments.Network.Outside.{
  Exception, Status, inactive, rolling_back, rollback_failed, NetState, Kernel, Controller, Event,
  puts, after, ◌>>=◌,
}
use wirelab_experiments.Network.Netlink.{N, store_put}
use wirelab_experiments.Network.Checks.{saved_config, revalidate}
use wirelab_experiments.Network.Restore.{
  delete_if_present, release_guard, settle, undo_and_settle, restore_from, restore, is_empty,
}
use wirelab_experiments.Network.Guard.{attempt_outcome, undo_and_settle-guard}

-- Rolled back, or stopped on the way with the journal or an error to show for it.
abbrev pub IsSettled : Status → Type 0
IsSettled s = (s ≡ inactive) ⊎ (s ≡ rollback_failed) ⊎ (s ≡ rolling_back)

-- The same with the way back gone to its end.
abbrev pub IsDone : Status → Type 0
IsDone s = (s ≡ inactive) ⊎ (s ≡ rollback_failed)

IsDone-IsSettled : (s : Status) → IsDone s → IsSettled s
IsDone-IsSettled s h = ground arith

module _ (kernel : Kernel) (inet : Inet) where
  settle-IsDone :
      (errors : Text) (n : Controller kernel.World)
      → IsDone (settle kernel inet errors n).controller.state.status
  unfolding settle store_put
  settle-IsDone errors n = ground arith

  -- What holds behind a call that returned.
  after_returned :
      {A B : Type 0} (P : Controller kernel.World → Type 0) (f : A → N kernel B)
      (n : Controller kernel.World) (log : List Event) (a : A) (o : Outcome Exception A)
      → o ≡ returned a
      → ((a : A) → P (f a n).controller)
      → P (after f n log o).controller
  after_returned P f n log a (returned b) e h = h b
  after_returned P f n log a (thrown x) e h = cc

  abbrev Done : Controller kernel.World → Type 0
  Done n = IsDone n.state.status

  abbrev Settled : Controller kernel.World → Type 0
  Settled n = IsSettled n.state.status

  release_guard_returned :
      (errors : Text) (n : Controller kernel.World)
      → (errors' : Text) × ((release_guard kernel inet errors n).outcome ≡ returned errors')
  unfolding release_guard
  release_guard_returned errors n = elim (Bool-cases (is_empty errors)) [
    | inl e ↦
        rw e (attempt_outcome kernel inet (delete_if_present kernel inet (codes "inet")) errors n)
    | inr e ↦ rw e (errors, refl)
  ]

  pub undo-IsDone :
      (c : NetworkConfig) (s : NetState) (n : Controller kernel.World)
      → Done (undo_and_settle kernel inet c s n).controller
  unfolding undo_and_settle
  undo-IsDone c s n =
      after_returned Done (λ errors. release_guard kernel inet errors >>= settle kernel inet) _ _ _
        _ (undo_and_settle-guard kernel inet c s n).1
        λ errors.
          after_returned Done (settle kernel inet) _ _ _ _ (release_guard_returned errors _).1
            λ errors'. settle-IsDone errors' _

  after_put :
      (c : NetworkConfig) (s : NetState) (n : Controller kernel.World) (log : List Event)
      (o : Outcome Exception (Unit {0}))
      → n.state.status ≡ rolling_back
      → Settled (after (λ _. undo_and_settle kernel inet c s) n log o).controller
  after_put c s n log (returned u) h = IsDone-IsSettled _ (undo-IsDone c s n)
  after_put c s n log (thrown e) h = inr (inr h)

  restore_from-IsSettled :
      (c : NetworkConfig) (n : Controller kernel.World)
      → Settled (restore_from kernel inet c n).controller
  unfolding restore_from store_put
  restore_from-IsSettled c n =
      after_put c n.state _ (puts (record (n.state) { status = rolling_back }) ∷ []) _ refl

  saved_config_returned :
      (n : Controller kernel.World) (c : NetworkConfig)
      → n.state.config ≡ some c
      → (revalidate kernel inet c n).outcome ≡ returned c
      → (saved_config kernel inet n).outcome ≡ returned c
  unfolding saved_config revalidate
  saved_config_returned n c k v = ground arith

  pub restore-IsSettled :
      (n : Controller kernel.World) (c : NetworkConfig)
      → n.state.config ≡ some c
      → (revalidate kernel inet c n).outcome ≡ returned c
      → Settled (restore kernel inet n).controller
  unfolding restore
  restore-IsSettled n c k v =
      after_returned Settled (restore_from kernel inet) _ _ _ _ (saved_config_returned n c k v)
        λ c'. restore_from-IsSettled c' _
