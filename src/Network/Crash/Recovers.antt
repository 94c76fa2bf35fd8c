-- ===== src/Network/Crash/Recovers.antt =====
-- The constructor of `NetworkController` in src/network.cpp on a state that a crash in `apply` left.
use wirelab_experiments.Common.{
  true, false, List, [], ◌∷◌, ◌++◌, append-nil, some, Outcome, returned, thrown, ◌≡◌, ◌⊎◌, inl, inr,
  refl, sym, subst, arith, ap, ◌∙◌,
}
use wirelab_experiments.Inet.{Inet}
use wirelab_experiments.Config.{NetworkConfig, validate}
use wirelab_experiments.Network.Outside.{
  Exception, Status, inactive, applying, rolling_back, NetState, Kernel, Controller, Run, Event,
  sends, writes, runs, puts, after, pure,
}
use wirelab_experiments.Network.Netlink.{store_put}
use wirelab_experiments.Network.Checks.{is_inactive, is_confirmed, saved_config, revalidate}
use wirelab_experiments.Network.Restore.{undo, undo_and_settle, restore_from, restore}
use wirelab_experiments.Network.Timeout.{IsIdle, undo-IsIdle}
use wirelab_experiments.Network.Settled.{IsDone, undo-IsDone}
use wirelab_experiments.Network.Crash.{SameJournal, IsOpen, Journaled, SameJournal-refl}
use wirelab_experiments.Network.Crash.Logs.{Log, untouched, journaled, apply-Log}
use wirelab_experiments.Network.{apply, recover, reapply, initial}

-- What a log says of a state in it.
abbrev Left : NetState → NetState → List Event → Type 0
Left j s rest = SameJournal j s × ((IsOpen s.status) ⊎ ((s.status ≡ inactive) × (rest ≡ [])))

nothing_left : {A : Type 0} (x : A) (done rest : List A) → done ++ x ∷ rest ≡ [] → ⊥
nothing_left x [] rest e = cc
nothing_left x (y ∷ ys) rest e = cc

Journaled-Left :
    (j s : NetState) (done rest : List Event) → Journaled j (done ++ puts s ∷ rest) → Left j s rest
Journaled-Left j s [] rest (q, inl (o, h)) = (q, inl o)
Journaled-Left j s [] rest (q, inr h) = (q, inr h)
Journaled-Left j s (puts t ∷ es) rest (q, inl (o, h)) = Journaled-Left j s es rest h
Journaled-Left j s (puts t ∷ es) rest (q, inr (o, h)) = elim (nothing_left (puts s) es rest h) [ ]
Journaled-Left j s (sends message ∷ es) rest h = Journaled-Left j s es rest h
Journaled-Left j s (writes path value ∷ es) rest h = Journaled-Left j s es rest h
Journaled-Left j s (runs argv input ∷ es) rest h = Journaled-Left j s es rest h

module _ {W : Type 0} where
  after-pure :
      (n : Controller W) (log : List Event) (o : Outcome Exception (Unit {0}))
      → after (λ _. pure tt) n log o ≡ record { outcome = o; controller = n; log = log }
  after-pure n log (returned u) = rw (append-nil log) refl
  after-pure n log (thrown e) = refl

open_status : (s : Status) → IsOpen s → (is_inactive s ≡ false) × (is_confirmed s ≡ false)
open_status s h = ground arith

module _ (kernel : Kernel) (inet : Inet) where
  undo_and_settle-same :
      (c : NetworkConfig) (j s : NetState)
      → SameJournal j s
      → undo_and_settle kernel inet c s ≡ undo_and_settle kernel inet c j
  unfolding undo_and_settle undo
  undo_and_settle-same c j s h = rw (h.baseline, h.ip_forward, h.rp_filter_all) refl

  saved_config_found :
      (c : NetworkConfig) (n : Controller kernel.World)
      → n.state.config ≡ some c
      → validate inet c ≡ []
      → saved_config kernel inet n ≡ record { outcome = returned c; controller = n; log = [] }
  unfolding saved_config revalidate
  saved_config_found c n h v = ground arith

  restore-restore_from :
      (c : NetworkConfig) (n : Controller kernel.World)
      → n.state.config ≡ some c
      → validate inet c ≡ []
      → restore kernel inet n ≡ restore_from kernel inet c n
  unfolding restore
  restore-restore_from c n h v = rw (saved_config_found c n h v) refl

  recover-restore_from :
      (c : NetworkConfig) (s : NetState) (w : kernel.World)
      → IsOpen s.status
      → s.config ≡ some c
      → validate inet c ≡ []
      → recover kernel inet (initial kernel inet true (some s) w)
        ≡ restore_from kernel inet c (initial kernel inet true (some s) w)
  unfolding recover reapply
  recover-restore_from c s w o h v =
      let q = open_status s.status o in
      rw (q.0, q.1, restore-restore_from c (initial kernel inet true (some s) w) h v)
        (after-pure _ _ _)

  -- The state, marked as on its way back, and the controller that was marked so.
  abbrev pub marked : NetState → NetState
  marked s = record s { status = rolling_back }

  abbrev pub marked_controller : NetState → kernel.World → Controller kernel.World
  marked_controller s w = record {
    enabled = true;
    state = marked s;
    deadline = 0;
    world = (kernel.put (marked s) w).1;
  }

  -- The start on the state `s`, whose undoing is that of the journal `j`: the store refuses the mark
  -- that the way back has begun, or everything is undone.
  pub data Recovery (c : NetworkConfig) (j s : NetState) (w : kernel.World)
      (r : Run kernel.World (Unit {0})) : Type 0 where
    refused :
        (e : Exception)
        → (kernel.put (marked s) w).0 ≡ thrown e
        → r.outcome ≡ thrown e
        → r.log ≡ puts (marked s) ∷ []
        → Recovery c j s w r
    undone :
        (kernel.put (marked s) w).0 ≡ returned tt
        → r.log ≡ puts (marked s) ∷ (undo_and_settle kernel inet c j (marked_controller s w)).log
        → IsDone r.controller.state.status
        → (r.outcome ≡ returned tt → IsIdle kernel inet r.controller)
        → Recovery c j s w r

  after_put :
      (c : NetworkConfig) (j s : NetState) (w : kernel.World) (o : Outcome Exception (Unit {0}))
      → SameJournal j s
      → (kernel.put (marked s) w).0 ≡ o
      → Recovery c j s w (
          after
            (λ _. undo_and_settle kernel inet c s)
            (marked_controller s w)
            (puts (marked s) ∷ [])
            o)
  after_put c j s w (returned u) q h =
      undone h
        (ap (λ f. puts (marked s) ∷ (f (marked_controller s w)).log) (undo_and_settle-same c j s q))
        (undo-IsDone kernel inet c s _) (undo-IsIdle kernel inet c s _)
  after_put c j s w (thrown e) q h = refused e h refl refl

  restore_from-Recovery :
      (c : NetworkConfig) (j s : NetState) (w : kernel.World)
      → SameJournal j s
      → Recovery c j s w (restore_from kernel inet c (initial kernel inet true (some s) w))
  unfolding restore_from store_put
  restore_from-Recovery c j s w q = after_put c j s w _ q refl

  recover_inactive :
      (s : NetState) (w : kernel.World)
      → s.status ≡ inactive
      → recover kernel inet (initial kernel inet true (some s) w) ≡ record {
        outcome = returned tt;
        controller = initial kernel inet true (some s) w;
        log = [];
      }
  unfolding recover
  recover_inactive s w h = rw h refl

  -- What becomes of the state `s` in the log of `apply`, with `rest` behind it.
  pub data AfterCrash (c : NetworkConfig) (s : NetState) (rest : List Event)
      : List Event → Type 0 where
    over :
        {log : List Event}
        → s.status ≡ inactive
        → rest ≡ []
        → ((w : kernel.World)
            → recover kernel inet (initial kernel inet true (some s) w) ≡ record {
              outcome = returned tt;
              controller = initial kernel inet true (some s) w;
              log = [];
            })
        → AfterCrash c s rest log
    recovers :
        (j : NetState) (later : List Event)
        → j.status ≡ applying
        → j.config ≡ some c
        → ((w : kernel.World)
            → Recovery c j s w (recover kernel inet (initial kernel inet true (some s) w)))
        → AfterCrash c s rest (puts j ∷ later)

  Left-AfterCrash :
      (c : NetworkConfig) (j s : NetState) (later rest : List Event)
      → validate inet c ≡ []
      → j.status ≡ applying
      → j.config ≡ some c
      → Left j s rest
      → AfterCrash c s rest (puts j ∷ later)
  Left-AfterCrash c j s later rest v h k (q, inl o) =
      recovers j later h k
        λ w. rw (recover-restore_from c s w o (q.config ∙ k) v) (restore_from-Recovery c j s w q)
  Left-AfterCrash c j s later rest v h k (q, inr (i, e)) = over i e (λ w. recover_inactive s w i)

  Log-AfterCrash :
      (c : NetworkConfig) (log done : List Event) (s : NetState) (rest : List Event)
      → Log kernel inet c log
      → log ≡ done ++ puts s ∷ rest
      → AfterCrash c s rest log
  Log-AfterCrash c log done s rest untouched e = elim (nothing_left (puts s) done rest (sym e)) [ ]
  Log-AfterCrash c log done s rest (journaled j later v h k l) e =
      Left-AfterCrash c j s later rest v h k
        (Journaled-Left j s done rest (subst (Journaled j) e (SameJournal-refl j, inl (inl h, l))))

  -- Whenever the daemon stops after `apply` has asked to store a state, whatever the host then looks
  -- like: either that state is inactive, which is the last thing that `apply` asks for, and the next
  -- start asks for nothing; or the next start with changes enabled first asks to store that the way
  -- back has begun. If the store refuses that, the start throws and has asked for nothing else;
  -- and if it takes it, the start undoes the configuration by what the journal at the head of the
  -- log of `apply` says of the host, ends inactive or as a failed rollback, and returns only where it
  -- is inactive without an error.
  pub apply-AfterCrash :
      (c : NetworkConfig) (n : Controller kernel.World) (done : List Event) (s : NetState)
      (rest : List Event)
      → (apply kernel inet c n).log ≡ done ++ puts s ∷ rest
      → AfterCrash c s rest (apply kernel inet c n).log
  apply-AfterCrash c n done s rest = Log-AfterCrash c _ done s rest (apply-Log kernel inet c n)
