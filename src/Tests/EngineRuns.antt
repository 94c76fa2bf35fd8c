-- ===== src/Tests/EngineRuns.antt =====
-- Runs of src/engine.cpp: a queue for one record takes the first of two packets and counts the
-- other as dropped.
use wirelab_experiments.Common.{
  ◌≡◌, refl, true, false, List, [], ◌∷◌, ◌++◌, none, some, returned, arith, inl, inr,
}
use wirelab_experiments.Packet.{PacketMetadata}
use wirelab_experiments.Tests.Samples.{query_packet, reply_packet}
use wirelab_experiments.Engine.{
  Engine, no_counters, absent, finished, create, start, test_loop, poll, record_poll, count_packet,
  set_kernel_dropped, request_stop, leave, join, drain,
}
use wirelab_experiments.Engine.System.{
  System, fresh_system, note_poll, starts, tests, polls, records, drains, Reach, here, next,
}
use wirelab_experiments.Engine.System.Counters.{Counted, Reach-create-Counted}
use wirelab_experiments.Engine.System.Lifecycle.{
  IsSound, SameTraffic, Reach-create-IsSound, join-SameTraffic,
}
use wirelab_experiments.Engine.System.Stop.{Answer, advances, advances-stop}

abbrev pub new_engine : Engine
new_engine = record {
  capacity = 1;
  queue = [];
  counters = no_counters;
  started = false;
  worker = absent;
  stop_requested = false;
}

abbrev started_system : System
started_system = record (fresh_system new_engine) { engine = (start true new_engine).0 }

abbrev tested : System → System
tested s = record s { engine = test_loop s.engine }

abbrev polled : PacketMetadata → System → System
polled p s = record s { engine = poll (returned (some p)) s.engine }

abbrev recorded : PacketMetadata → System → System
recorded p s = record (note_poll (some p) (returned none) s) {
  engine = record_poll (some p) (returned none) s.engine;
}

abbrev one_queued : System
one_queued = recorded query_packet (polled query_packet (tested started_system))

abbrev one_dropped : System
one_dropped = recorded reply_packet (polled reply_packet (tested one_queued))

abbrev pub drained : System
drained = record one_dropped {
  engine = (drain 8 one_dropped.engine).1;
  delivered = one_dropped.delivered ++ (drain 8 one_dropped.engine).0;
}

pub drained-Reach : Reach (fresh_system new_engine) drained
unfolding start test_loop poll record_poll count_packet set_kernel_dropped note_poll
drained-Reach =
    next
      (next
        (next
          (next
            (next
              (next (next (next here (starts true refl)) (tests refl refl))
                (polls (returned (some query_packet)) refl refl))
              (records (some query_packet) (returned none) refl refl))
            (tests refl refl))
          (polls (returned (some reply_packet)) refl refl))
        (records (some reply_packet) (returned none) refl refl))
      (drains 8 refl)

pub new_engine-create : create true 1 ≡ returned new_engine
unfolding create
new_engine-create = refl

Reach-create-Counted_example : Counted drained
Reach-create-Counted_example = Reach-create-Counted true 1 new_engine-create drained-Reach

Reach-create-IsSound_example : IsSound drained.engine
Reach-create-IsSound_example = Reach-create-IsSound true 1 new_engine-create drained-Reach

abbrev stopping : System
stopping = record one_queued { engine = request_stop one_queued.engine }

abbrev idle_answers : List Answer
idle_answers =
    record { next = returned none; drops = returned none }
    ∷ record { next = returned none; drops = returned none }
    ∷ []

advances-stop_example : (advances idle_answers stopping).engine.worker ≡ finished
unfolding start test_loop poll record_poll count_packet set_kernel_dropped note_poll request_stop
advances-stop_example =
    advances-stop idle_answers stopping
      (record { running = refl; spawned = inl refl; requested = inr refl }) refl refl (omega arith)

abbrev stopped_system : System
stopped_system = record stopping { engine = leave (test_loop stopping.engine) }

abbrev joined : System
joined = record stopped_system { engine = join stopped_system.engine }

abbrev restarted : System
restarted = record joined { engine = (start true joined.engine).0 }

join-SameTraffic_example : SameTraffic joined restarted
unfolding start test_loop poll record_poll count_packet set_kernel_dropped note_poll request_stop
    leave
join-SameTraffic_example = join-SameTraffic stopped_system refl refl (next here (starts true refl))
