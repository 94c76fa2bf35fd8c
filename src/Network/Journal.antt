-- ===== src/Network/Journal.antt =====
-- The write-ahead journal of src/network.cpp.
use wirelab_experiments.Common.{
  List, [], ◌∷◌, some, Text, Outcome, returned, thrown, ◌≡◌, ◌⊎◌, inl, inr, refl, subst, arith,
}
use wirelab_experiments.Inet.{Inet}
use wirelab_experiments.Config.{NetworkConfig}
use wirelab_experiments.Network.Outside.{
  Exception, applying, Baseline, NetState, Kernel, Controller, Run, try_catch, after, ◌>>=◌, ◌>>◌,
  Event, puts, M,
}
use wirelab_experiments.Network.Netlink.{index_of, store_put}
use wirelab_experiments.Network.Checks.{revalidate, check_resources, port_baseline}
use wirelab_experiments.Network.{
  fill_journal, save_ports, check_and_save, prepare, install_and_wait, undo_install, commit, apply,
}

-- A call that only reads.
abbrev pub ReadsOnly : {W A : Type 0} → Controller W → Run W A → Type 0
ReadsOnly n r = (r.log ≡ []) × (r.controller ≡ n)

module _ (kernel : Kernel) (inet : Inet) where
  pub revalidate-ReadsOnly :
      (c : NetworkConfig) (n : Controller kernel.World) → ReadsOnly n (revalidate kernel inet c n)
  unfolding revalidate
  revalidate-ReadsOnly c n = ground arith

  pub check_resources-ReadsOnly :
      (n : Controller kernel.World) → ReadsOnly n (check_resources kernel inet n)
  unfolding check_resources
  check_resources-ReadsOnly n = ground arith

  pub port_baseline-ReadsOnly :
      (name : Text) (n : Controller kernel.World) → ReadsOnly n (port_baseline kernel inet name n)
  unfolding port_baseline index_of
  port_baseline-ReadsOnly name n = ground arith

  -- The state that a method returns is a journal for `c`, and the one that the controller holds.
  abbrev pub Journals : NetworkConfig → NetState → Outcome Exception NetState → Type 0
  Journals c now (returned s) = (s.status ≡ applying) × (s.config ≡ some c) × (now ≡ s)
  Journals c now (thrown e) = Unit {0}

  -- All that a preparation has changed is the state.
  pub record Prepared (c : NetworkConfig) (n : Controller kernel.World)
      (r : Run kernel.World NetState) : Type 0 where
    pub log : r.log ≡ []
    pub world : r.controller.world ≡ n.world
    pub enabled : r.controller.enabled ≡ n.enabled
    pub journal : Journals c r.controller.state r.outcome

  fill_journal-Prepared :
      (c : NetworkConfig) (s : NetState) (outer inner : Baseline) (n : Controller kernel.World)
      → Prepared c n (fill_journal kernel inet c s outer inner n)
  unfolding fill_journal
  fill_journal-Prepared c s outer inner n = ground arith

  Prepared-after :
      {A : Type 0} (c : NetworkConfig) (n : Controller kernel.World)
      (f : A → M kernel.World NetState) (o : Outcome Exception A)
      → ((a : A) → Prepared c n (f a n))
      → Prepared c n (after f n [] o)
  Prepared-after c n f (returned a) h = h a
  Prepared-after c n f (thrown e) h = record {
    log = refl;
    world = refl;
    enabled = refl;
    journal = tt;
  }

  Prepared-bind :
      {A : Type 0} (c : NetworkConfig) (n : Controller kernel.World) (m : M kernel.World A)
      (f : A → M kernel.World NetState)
      → ReadsOnly n (m n)
      → ((a : A) → Prepared c n (f a n))
      → Prepared c n ((m >>= f) n)
  Prepared-bind c n m f (l, k) h = rw (l, k) (Prepared-after c n f (m n).outcome h)

  save_ports-Prepared :
      (c : NetworkConfig) (s : NetState) (n : Controller kernel.World)
      → Prepared c n (save_ports kernel inet c s n)
  unfolding save_ports
  save_ports-Prepared c s n =
      Prepared-bind c n (port_baseline kernel inet c.outer_interface)
        (λ outer.
          port_baseline kernel inet c.inner_interface >>= fill_journal kernel inet c s outer)
        (port_baseline-ReadsOnly c.outer_interface n)
        λ outer.
          Prepared-bind c n (port_baseline kernel inet c.inner_interface)
            (fill_journal kernel inet c s outer) (port_baseline-ReadsOnly c.inner_interface n)
            λ inner. fill_journal-Prepared c s outer inner n

  check_and_save-Prepared :
      (c : NetworkConfig) (s : NetState) (n : Controller kernel.World)
      → Prepared c n (check_and_save kernel inet c s n)
  unfolding check_and_save
  check_and_save-Prepared c s n =
      Prepared-bind c n (revalidate kernel inet c)
        (λ _. check_resources kernel inet >> save_ports kernel inet c s) (revalidate-ReadsOnly c n)
        λ _.
          Prepared-bind c n (check_resources kernel inet) (λ _. save_ports kernel inet c s)
            (check_resources-ReadsOnly n) λ _. save_ports-Prepared c s n

  pub prepare-Prepared :
      (c : NetworkConfig) (n : Controller kernel.World) → Prepared c n (prepare kernel inet c n)
  unfolding prepare
  prepare-Prepared c n = ground (arith, check_and_save-Prepared c n.state n)

  -- What `apply` logs from the world `w`: nothing at all, or the attempt to store a journal of `c`,
  -- and anything more only if the store took it.
  pub data JournalFirst (c : NetworkConfig) (w : kernel.World) : List Event → Type 0 where
    untouched : JournalFirst c w []
    journaled :
        (s : NetState) (rest : List Event)
        → s.status ≡ applying
        → s.config ≡ some c
        → (rest ≡ []) ⊎ ((kernel.put s w).0 ≡ returned tt)
        → JournalFirst c w (puts s ∷ rest)

  commit_rest :
      (c : NetworkConfig) (w : kernel.World) (s : NetState)
      (f : Unit {0} → M kernel.World (Unit {0})) (n : Controller kernel.World)
      (o : Outcome Exception (Unit {0}))
      → (kernel.put s w).0 ≡ o
      → s.status ≡ applying
      → s.config ≡ some c
      → JournalFirst c w (after f n (puts s ∷ []) o).log
  commit_rest c w s f n (returned _) e h k = journaled s (f tt n).log h k (inr e)
  commit_rest c w s f n (thrown x) e h k = journaled s [] h k (inl refl)

  commit-JournalFirst :
      (c : NetworkConfig) (s : NetState) (n : Controller kernel.World)
      → s.status ≡ applying
      → s.config ≡ some c
      → JournalFirst c n.world (commit kernel inet c s n).log
  unfolding commit store_put
  commit-JournalFirst c s n h k =
      commit_rest c n.world s
        (λ _. try_catch (install_and_wait kernel inet c) (undo_install kernel inet))
        (record n { world = (kernel.put s n.world).1 }) _ refl h k

  after-commit :
      (c : NetworkConfig) (now : NetState) (n : Controller kernel.World)
      (o : Outcome Exception NetState)
      → Journals c now o
      → JournalFirst c n.world (after (commit kernel inet c) n [] o).log
  after-commit c now n (returned s) j = commit-JournalFirst c s n j.0 j.1
  after-commit c now n (thrown e) j = untouched

  -- Whatever `apply` does, either it asks the outside world for no change at all, or the first thing
  -- that it asks for is to store a journal with the configuration and status `applying`; and if the
  -- store refuses, that is also the last.
  pub apply-JournalFirst :
      (c : NetworkConfig) (n : Controller kernel.World)
      → JournalFirst c n.world (apply kernel inet c n).log
  unfolding apply
  apply-JournalFirst c n =
      let p = prepare-Prepared c n in
      rw p.log (
        subst
          (λ w.
            JournalFirst c w
              (after (commit kernel inet c) (prepare kernel inet c n).controller []
                (prepare kernel inet c n).outcome).log)
          p.world (after-commit c _ (prepare kernel inet c n).controller _ p.journal))
