-- ===== src/Network/Crash.antt =====
-- What a crash during `apply` of src/network.cpp leaves in the store: the states that `apply` and its
-- `restore` ask it to keep.
pub mod Logs
pub mod Recovers
use wirelab_experiments.Common.{
  ◌+◌, true, false, not, List, [], ◌∷◌, ◌++◌, append-nil, Option, none, some, Text, Outcome,
  returned, thrown, ◌≡◌, ◌⊎◌, inl, inr, refl, sym, subst, arith, Bool-cases, Outcome-cases,
}
use wirelab_experiments.Inet.{Inet}
use wirelab_experiments.Config.{NetworkConfig, validate}
use wirelab_experiments.Network.Outside.{
  Exception, Status, inactive, applying, awaiting_confirmation, rolling_back, rollback_failed,
  NetState, Kernel, Controller, Run, Event, sends, writes, runs, puts, M, throw_if, throw,
  runtime_error, try_catch, set_state, set_deadline, get_state, ask, ◌>>◌, after, handle, ◌>>=◌,
}
use wirelab_experiments.Network.Netlink.{N, store_put}
use wirelab_experiments.Network.Checks.{confirmation_time, saved_config, revalidate}
use wirelab_experiments.Network.Restore.{
  is_empty, undo, release_guard, settle, undo_and_settle, restore_from, restore,
}
use wirelab_experiments.Network.Install.{install}
use wirelab_experiments.Network.Quiet.{is_put, stores_nothing, IsQuiet}
use wirelab_experiments.Network.Quiet.Parts.{install-IsQuiet, undo-IsQuiet, release_guard-IsQuiet}
use wirelab_experiments.Network.Journal.{ReadsOnly, Prepared, Journals, prepare-Prepared}
use wirelab_experiments.Network.{prepare, install_and_wait, undo_install, commit, apply}

-- The same configuration and the same state of the host from before it.
pub record SameJournal (j s : NetState) : Type 0 where
  pub config : s.config ≡ j.config
  pub baseline : s.baseline ≡ j.baseline
  pub ip_forward : s.ip_forward ≡ j.ip_forward
  pub rp_filter_all : s.rp_filter_all ≡ j.rp_filter_all

pub SameJournal-refl : (s : NetState) → SameJournal s s
SameJournal-refl s = record {
  config = refl;
  baseline = refl;
  ip_forward = refl;
  rp_filter_all = refl;
}

-- On the way there or back.
abbrev pub IsOpen : Status → Type 0
IsOpen s = (s ≡ applying) ⊎ (s ≡ awaiting_confirmation) ⊎ (s ≡ rolling_back) ⊎ (s ≡ rollback_failed)

-- Every state that is stored is open and has the journal `j`.
abbrev pub Open : NetState → List Event → Type 0
Open j [] = Unit {0}
Open j (puts s ∷ es) = SameJournal j s × (IsOpen s.status) × Open j es
Open j (sends message ∷ es) = Open j es
Open j (writes path value ∷ es) = Open j es
Open j (runs argv input ∷ es) = Open j es

-- The same, or the last one stored is inactive, and nothing comes behind it.
abbrev pub Journaled : NetState → List Event → Type 0
Journaled j [] = Unit {0}
Journaled j (puts s ∷ es) =
    SameJournal j s × ((IsOpen s.status × Journaled j es) ⊎ ((s.status ≡ inactive) × (es ≡ [])))
Journaled j (sends message ∷ es) = Journaled j es
Journaled j (writes path value ∷ es) = Journaled j es
Journaled j (runs argv input ∷ es) = Journaled j es

pub quiet-Open : (j : NetState) (log : List Event) → stores_nothing log ≡ true → Open j log
unfolding stores_nothing is_put
quiet-Open j [] h = tt
quiet-Open j (puts s ∷ es) h = ground arith
quiet-Open j (sends message ∷ es) h = quiet-Open j es h
quiet-Open j (writes path value ∷ es) h = quiet-Open j es h
quiet-Open j (runs argv input ∷ es) h = quiet-Open j es h

pub Open-append : (j : NetState) (xs ys : List Event) → Open j xs → Open j ys → Open j (xs ++ ys)
Open-append j [] ys h k = k
Open-append j (puts s ∷ es) ys (q, o, h) k = (q, o, Open-append j es ys h k)
Open-append j (sends message ∷ es) ys h k = Open-append j es ys h k
Open-append j (writes path value ∷ es) ys h k = Open-append j es ys h k
Open-append j (runs argv input ∷ es) ys h k = Open-append j es ys h k

Journaled-append :
    (j : NetState) (xs ys : List Event) → Open j xs → Journaled j ys → Journaled j (xs ++ ys)
Journaled-append j [] ys h k = k
Journaled-append j (puts s ∷ es) ys (q, o, h) k = (q, inl (o, Journaled-append j es ys h k))
Journaled-append j (sends message ∷ es) ys h k = Journaled-append j es ys h k
Journaled-append j (writes path value ∷ es) ys h k = Journaled-append j es ys h k
Journaled-append j (runs argv input ∷ es) ys h k = Journaled-append j es ys h k

Open-Journaled : (j : NetState) (log : List Event) → Open j log → Journaled j log
Open-Journaled j log h = subst (Journaled j) (append-nil log) (Journaled-append j log [] h tt)

module _ {W : Type 0} where
  pub after-Journaled :
      {A B : Type 0} (j : NetState) (f : A → M W B) (n : Controller W) (log : List Event)
      (o : Outcome Exception A)
      → Open j log
      → ((a : A) → Journaled j (f a n).log)
      → Journaled j (after f n log o).log
  after-Journaled j f n log (returned a) h k = Journaled-append j log (f a n).log h (k a)
  after-Journaled j f n log (thrown e) h k = Open-Journaled j log h

  pub handle-Journaled :
      {A : Type 0} (j : NetState) (f : Exception → M W A) (n : Controller W) (log : List Event)
      (o : Outcome Exception A)
      → Open j log
      → ((e : Exception) → Journaled j (f e n).log)
      → Journaled j (handle f n log o).log
  handle-Journaled j f n log (returned a) h k = Open-Journaled j log h
  handle-Journaled j f n log (thrown e) h k = Journaled-append j log (f e n).log h (k e)

  pub quiet-after-Journaled :
      {A B : Type 0} (j : NetState) (m : M W A) (f : A → M W B) (n : Controller W)
      → IsQuiet m
      → SameJournal j n.state
      → ((a : A) (n' : Controller W) → SameJournal j n'.state → Journaled j (f a n').log)
      → Journaled j ((m >>= f) n).log
  quiet-after-Journaled j m f n h s k =
      let q = h.keeps n in
      after-Journaled j f (m n).controller (m n).log (m n).outcome (quiet-Open j _ q.1)
        λ a. k a (m n).controller (subst (SameJournal j) (sym q.0) s)

pub SameJournal-status :
    (j s : NetState) (status : Status) (error : Option Text)
    → SameJournal j s
    → SameJournal j (record s { status = status; error = error })
SameJournal-status j s status error h = record {
  config = h.config;
  baseline = h.baseline;
  ip_forward = h.ip_forward;
  rp_filter_all = h.rp_filter_all;
}
