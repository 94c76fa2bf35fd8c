-- ===== src/Engine/System/Stop.antt =====
-- `stop` of src/engine.cpp: the worker's own schedule, run to its last line.
use wirelab_experiments.Common.{
  ℕ, ◌≤◌, ◌<◌, ◌≡◌, refl, ap, ◌∙◌, ◌⊎◌, inl, inr, Bool, true, false, List, [], ◌∷◌, Option, Outcome,
  arith, length,
}
use wirelab_experiments.Packet.{PacketMetadata}
use wirelab_experiments.Engine.{
  Failure, Worker, absent, looping, polling, holding, failing, leaving, finished, test_loop, poll,
  record_poll, store_error, leave,
}
use wirelab_experiments.Engine.System.{
  System, Step, tests, polls, records, fails, leaves, note_poll,
}
use wirelab_experiments.Engine.System.Lifecycle.{
  IsSound, is_live, steps_left, IsWorkerStep, Step-IsSound, Step-steps_left,
}

-- What the source answers at one step of the worker, if that step asks it.
pub record Answer : Type 0 where
  pub next : Outcome Failure (Option PacketMetadata)
  pub drops : Outcome Failure (Option ℕ)

-- One step of the worker from where it stands. A thread that has ended makes none.
unfoldable pub advance_at : Worker → Answer → System → System
advance_at absent a s = s
advance_at finished a s = s
advance_at looping a s = record s { engine = test_loop s.engine }
advance_at polling a s = record s { engine = poll a.next s.engine }
advance_at (holding p) a s = record (note_poll p a.drops s) {
  engine = record_poll p a.drops s.engine;
}
advance_at (failing what) a s = record s { engine = store_error what s.engine }
advance_at leaving a s = record s { engine = leave s.engine }

pub advance : Answer → System → System
unfolding advance_at
advance a s = advance_at s.engine.worker a s

pub advances : List Answer → System → System
advances [] s = s
advances (a ∷ rest) s = advances rest (advance a s)

advance_at-Step :
    (w : Worker) (a : Answer) (s : System)
    → s.engine.worker ≡ w
    → is_live w ≡ true
    → (st : Step s (advance_at w a s)) × IsWorkerStep st
unfolding advance_at
advance_at-Step absent a s e h = cc
advance_at-Step finished a s e h = cc
advance_at-Step looping a s e h = (tests e refl, tt)
advance_at-Step polling a s e h = (polls a.next e refl, tt)
advance_at-Step (holding p) a s e h = (records p a.drops e refl, tt)
advance_at-Step (failing what) a s e h = (fails what e refl, tt)
advance_at-Step leaving a s e h = (leaves e refl, tt)

-- While the worker is live it has a step to make, whatever the source answers.
pub advance-Step :
    (a : Answer) (s : System)
    → is_live s.engine.worker ≡ true
    → (st : Step s (advance a s)) × IsWorkerStep st
unfolding advance
advance-Step a s h = advance_at-Step s.engine.worker a s refl h

-- The thread exists and has not been joined.
abbrev pub is_spawned : Worker → Bool
is_spawned absent = false
is_spawned _ = true

advance-is_spawned :
    (a : Answer) (s : System)
    → is_spawned s.engine.worker ≡ true
    → is_spawned (advance a s).engine.worker ≡ true
unfolding advance advance_at test_loop poll record_poll store_error leave
advance-is_spawned a s h = ground arith

finished_or_live :
    (w : Worker) → is_spawned w ≡ true → (w ≡ finished) ⊎ ((is_live w ≡ true) × (0 < steps_left w))
finished_or_live w h = ground arith

advances-finished :
    (answers : List Answer) (s : System) → s.engine.worker ≡ finished → advances answers s ≡ s
unfolding advances advance advance_at
advances-finished [] s h = refl
advances-finished (a ∷ rest) s h =
    ap (λ w. advances rest (advance_at w a s)) h ∙ advances-finished rest s h

-- Once a stop is requested of a sound engine, any answers of the source, one for each step that the
-- worker has left and so four at most, take it to its end: `join` returns.
pub advances-stop :
    (answers : List Answer) (s : System)
    → IsSound s.engine
    → s.engine.stop_requested ≡ true
    → is_spawned s.engine.worker ≡ true
    → steps_left s.engine.worker ≤ length answers
    → (advances answers s).engine.worker ≡ finished
unfolding advances
advances-stop [] s v q h n = elim (finished_or_live s.engine.worker h) [
  | inl e ↦ e
  | inr (live, more) ↦ absurd (omega arith)
]
advances-stop (a ∷ rest) s v q h n = elim (finished_or_live s.engine.worker h) [
  | inl e ↦ rw (advances-finished (a ∷ rest) s e) e
  | inr (live, more) ↦
      let st = advance-Step a s live in
      let left = Step-steps_left st.0 v q in
      advances-stop rest (advance a s) (Step-IsSound st.0 v) left.0 (advance-is_spawned a s h)
        (omega (arith, left.2 st.1))
]
