-- ===== src/Tests/SourceRuns.antt =====
-- A round of the engine over the source of src/capture.cpp, and the engine as a channel.
use wirelab_experiments.Common.{◌≡◌, refl, true, false, [], ◌∷◌, none, some}
use wirelab_experiments.Engine.{Engine, polling}
use wirelab_experiments.Engine.System.Channel.{Implements}
use wirelab_experiments.Engine.System.Channel.Refines.{Reach-create-Implements}
use wirelab_experiments.Capture.Source.{Source, Poll, frame, refresh, turn}
use wirelab_experiments.Capture.Source.Turns.{Effect, turn-Effect}
use wirelab_experiments.Tests.Samples.{small_inet}
use wirelab_experiments.Tests.EngineRuns.{new_engine, new_engine-create, drained, drained-Reach}

abbrev polling_engine : Engine
polling_engine = record new_engine { started = true; worker = polling }

-- A frame of 14 bytes, cut from 60, with the statistics due.
abbrev short_poll : Poll
short_poll = record {
  stop_requested = false;
  now = 3_000_000_000;
  stats = some 4;
  next = frame (2 ∷ 0 ∷ 0 ∷ 0 ∷ 0 ∷ 1 ∷ 2 ∷ 0 ∷ 0 ∷ 0 ∷ 0 ∷ 2 ∷ 8 ∷ 6 ∷ []) 60 10 5;
}

abbrev new_source : Source
new_source = record { dropped = none; last_stats = 0 }

turn-Effect_example :
    (e : Engine) × (turn small_inet short_poll new_source polling_engine
      ≡ some (refresh short_poll new_source, e))
    × Effect short_poll.next (refresh short_poll new_source).dropped polling_engine e
turn-Effect_example = turn-Effect small_inet short_poll new_source polling_engine refl

Reach-create-Implements_example : Implements 1 drained
Reach-create-Implements_example = Reach-create-Implements true 1 new_engine-create drained-Reach
