-- ===== src/Network/Unconfirmed.antt =====
-- Methods of src/network.cpp that do not make a configuration confirmed: the rules for them.
pub mod Methods
use wirelab_experiments.Common.{
  ℕ, Bool, true, false, not, ◌&&◌, List, [], ◌∷◌, Option, none, some, Text, Outcome, returned,
  thrown, ◌≡◌, refl, sym, ap, ◌∙◌, arith, Bool-cases, inl, inr, if◌then◌else◌,
}
use wirelab_experiments.Inet.{Inet}
use wirelab_experiments.Config.{NetworkConfig}
use wirelab_experiments.Network.Outside.{
  Exception, Status, NetState, Baseline, Kernel, Controller, Event, M, pure, throw, throw_if, after,
  handle, try_catch, get_state, set_state, query, ask, get_enabled, get_deadline, set_deadline,
  ◌>>=◌, ◌>>◌,
}
use wirelab_experiments.Network.Netlink.{N, store_put}
use wirelab_experiments.Network.Checks.{
  is_confirmed, is_inactive, is_awaiting, saved_config, revalidate, check_resources, port_baseline,
}
use wirelab_experiments.Network.Restore.{
  is_empty, undo, release_guard, settle, undo_and_settle, restore_from, restore,
}
use wirelab_experiments.Network.Install.{install}
use wirelab_experiments.Network.Quiet.{IsQuiet}
use wirelab_experiments.Network.Quiet.Parts.{install-IsQuiet, undo-IsQuiet, release_guard-IsQuiet}
use wirelab_experiments.Network.Journal.{
  ReadsOnly, revalidate-ReadsOnly, check_resources-ReadsOnly, port_baseline-ReadsOnly,
}
use wirelab_experiments.Network.{
  fill_journal, save_ports, check_and_save, prepare, install_and_wait, undo_install, commit, apply,
  tick, rollback,
}

module _ {W : Type 0} where
  abbrev pub Unconfirmed : Controller W → Type 0
  Unconfirmed n = is_confirmed n.state.status ≡ false

  -- A method that leaves a configuration unconfirmed that is not confirmed.
  pub record IsModest {A : Type 0} (m : M W A) : Type 0 where
    pub modest : (n : Controller W) → Unconfirmed n → Unconfirmed (m n).controller

  pub quiet-IsModest : {A : Type 0} {m : M W A} → IsQuiet m → IsModest m
  quiet-IsModest q = record { modest = λ n h. ap (λ s. is_confirmed s.status) (q.keeps n).0 ∙ h }

  pub after-Unconfirmed :
      {A B : Type 0} (f : A → M W B) (n : Controller W) (log : List Event) (o : Outcome Exception A)
      → Unconfirmed n
      → ((a : A) → IsModest (f a))
      → Unconfirmed (after f n log o).controller
  after-Unconfirmed f n log (returned a) h k = (k a).modest n h
  after-Unconfirmed f n log (thrown e) h k = h

  handle-Unconfirmed :
      {A : Type 0} (f : Exception → M W A) (n : Controller W) (log : List Event)
      (o : Outcome Exception A)
      → Unconfirmed n
      → ((e : Exception) → IsModest (f e))
      → Unconfirmed (handle f n log o).controller
  handle-Unconfirmed f n log (returned a) h k = h
  handle-Unconfirmed f n log (thrown e) h k = (k e).modest n h

  pub bind-IsModest :
      {A B : Type 0} {m : M W A} {f : A → M W B}
      → IsModest m
      → ((a : A) → IsModest (f a))
      → IsModest (m >>= f)
  bind-IsModest {f} h k = record { modest = λ n u. after-Unconfirmed f _ _ _ (h.modest n u) k }

  pub then-IsModest :
      {B : Type 0} {m : M W (Unit {0})} {k : M W B} → IsModest m → IsModest k → IsModest (m >> k)
  then-IsModest h k = bind-IsModest h (λ _. k)

  pub catch-IsModest :
      {A : Type 0} {m : M W A} {f : Exception → M W A}
      → IsModest m
      → ((e : Exception) → IsModest (f e))
      → IsModest (try_catch m f)
  catch-IsModest {f} h k = record { modest = λ n u. handle-Unconfirmed f _ _ _ (h.modest n u) k }

  pub pure-IsModest : {A : Type 0} {a : A} → IsModest {A = A} (pure a)
  pure-IsModest = record { modest = λ n h. h }

  pub throw-IsModest : {A : Type 0} {e : Exception} → IsModest {A = A} (throw e)
  throw-IsModest = record { modest = λ n h. h }

  pub throw_if-IsModest : (b : Bool) (e : Exception) → IsModest (throw_if b e)
  throw_if-IsModest true e = throw-IsModest
  throw_if-IsModest false e = pure-IsModest

  pub ask-IsModest : {A : Type 0} (q : W → A) → IsModest (ask q)
  ask-IsModest q = record { modest = λ n h. h }

  pub query-IsModest : {A : Type 0} (q : W → Outcome Exception A) → IsModest (query q)
  query-IsModest q = record { modest = λ n h. h }

  pub set-IsModest : (s : NetState) → is_confirmed s.status ≡ false → IsModest (set_state s)
  set-IsModest s h = record { modest = λ n _. h }

  pub state-IsModest : IsModest (get_state {W = W})
  state-IsModest = record { modest = λ n h. h }

  -- A method behind the reading of the state, which is then known not to be confirmed.
  pub get-IsModest :
      {B : Type 0} (f : NetState → M W B)
      → ((s : NetState) → is_confirmed s.status ≡ false → IsModest (f s))
      → IsModest (get_state >>= f)
  get-IsModest f k = record { modest = λ n h. (k n.state h).modest n h }

  pub reads-IsModest :
      {A : Type 0} (m : M W A) → ((n : Controller W) → ReadsOnly n (m n)) → IsModest m
  reads-IsModest m r = record { modest = λ n h. ap (λ k. is_confirmed k.state.status) (r n).1 ∙ h }

  pub enabled-IsModest : IsModest {A = Bool} get_enabled
  enabled-IsModest = record { modest = λ n h. h }

  pub deadline-IsModest : IsModest {A = ℕ} get_deadline
  deadline-IsModest = record { modest = λ n h. h }

  pub deadline_set-IsModest : {d : ℕ} → IsModest (set_deadline d)
  deadline_set-IsModest = record { modest = λ n h. h }

  pub if-IsModest :
      {A : Type 0} {m k : M W A} (b : Bool)
      → IsModest m
      → IsModest k
      → IsModest (if b then m else k)
  if-IsModest true h l = h
  if-IsModest false h l = l
