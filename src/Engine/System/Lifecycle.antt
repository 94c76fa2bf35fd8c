-- ===== src/Engine/System/Lifecycle.antt =====
-- The life of the worker thread of src/engine.cpp.
use wirelab_experiments.Common.{
  ℕ, ◌≤◌, ◌<◌, ◌≡◌, refl, ◌⊎◌, Bool, true, false, ◌++◌, returned, thrown, arith, take-append-drop,
  append_assoc,
}
use wirelab_experiments.Engine.{
  Engine, Worker, absent, looping, polling, holding, failing, leaving, finished, create, start,
  request_stop, join, test_loop, poll, record_poll, store_error, leave, count_packet,
  set_kernel_dropped,
}
use wirelab_experiments.Engine.Drain.{drain_lem}
use wirelab_experiments.Engine.System.{
  System, Step, starts, requests, joins, drains, tests, polls, records, fails, leaves, Reach, here,
  next, fresh_system,
}

-- The thread is inside `run` and has not yet cleared `running`.
abbrev pub is_live : Worker → Bool
is_live absent = false
is_live finished = false
is_live _ = true

pub record IsSound (e : Engine) : Type 0 where
  pub running : e.counters.running ≡ is_live e.worker
  pub spawned : (e.started ≡ true) ⊎ (e.worker ≡ absent)
  pub requested : (e.stop_requested ≡ false) ⊎ (e.started ≡ true)

pub Step-IsSound : {s t : System} → Step s t → IsSound s.engine → IsSound t.engine
unfolding start request_stop join test_loop poll store_error leave record_poll count_packet
    set_kernel_dropped
Step-IsSound (starts b e) v = rw e (ground arith)
Step-IsSound (requests e) v = rw e (ground arith)
Step-IsSound (joins w e) v = rw e (ground arith)
Step-IsSound {s} (drains n e) v =
    rw (e, drain_lem n s.engine)
      (record { running = v.running; spawned = v.spawned; requested = v.requested })
Step-IsSound (tests w e) v = rw e (ground arith)
Step-IsSound (polls r w e) v = rw e (ground arith)
Step-IsSound (records p d w e) v = rw e (ground arith)
Step-IsSound (fails what w e) v = rw e (ground arith)
Step-IsSound (leaves w e) v = rw e (ground arith)

create-IsSound :
    (has_source : Bool) (capacity : ℕ) {e : Engine}
    → create has_source capacity ≡ returned e
    → IsSound e
unfolding create
create-IsSound has_source capacity h = ground arith

Reach-IsSound : {s t : System} → IsSound s.engine → Reach s t → IsSound t.engine
Reach-IsSound v here = v
Reach-IsSound v (next r st) = Step-IsSound st (Reach-IsSound v r)

-- However the threads interleave from a new engine on: `running` is set exactly while the worker
-- is between the start of `run` and its last line, a worker or a stop request is there only after a
-- successful `start`.
pub Reach-create-IsSound :
    (has_source : Bool) (capacity : ℕ) {e : Engine} {s : System}
    → create has_source capacity ≡ returned e
    → Reach (fresh_system e) s
    → IsSound s.engine
Reach-create-IsSound has_source capacity h r =
    Reach-IsSound (create-IsSound has_source capacity h) r

-- What the end of `stop` leaves fixed.
pub record SameTraffic (s t : System) : Type 0 where
  pub counters : t.engine.counters ≡ s.engine.counters
  pub polled : t.polled ≡ s.polled
  pub records : t.delivered ++ t.engine.queue ≡ s.delivered ++ s.engine.queue

record Stopped (s t : System) : Type 0 where
  started : t.engine.started ≡ true
  worker : t.engine.worker ≡ absent
  same : SameTraffic s t

Step-Stopped : {s t u : System} → Step t u → Stopped s t → Stopped s u
unfolding start request_stop join
Step-Stopped (starts b e) v = rw e (ground arith)
Step-Stopped (requests e) v = rw e (ground arith)
Step-Stopped (joins w e) v = absurd (cc)
Step-Stopped {s} {t} (drains n e) v =
    rw (e, drain_lem n t.engine)
      (record {
        started = v.started;
        worker = v.worker;
        same = record {
          counters = v.same.counters;
          polled = v.same.polled;
          records = rw (append_assoc, take-append-drop) v.same.records;
        };
      })
Step-Stopped (tests w e) v = absurd (cc)
Step-Stopped (polls r w e) v = absurd (cc)
Step-Stopped (records p d w e) v = absurd (cc)
Step-Stopped (fails what w e) v = absurd (cc)
Step-Stopped (leaves w e) v = absurd (cc)

Reach-Stopped : {s t u : System} → Stopped s t → Reach t u → Stopped s u
Reach-Stopped v here = v
Reach-Stopped v (next r st) = Step-Stopped st (Reach-Stopped v r)

-- Once `stop` has joined the worker of a started engine, no later call changes a counter or the
-- polled packets, a further `start` included; packets only move from the queue to the callers of
-- `drain`, in order.
pub join-SameTraffic :
    (s : System) {t : System}
    → s.engine.started ≡ true
    → s.engine.worker ≡ finished
    → Reach (record s { engine = join s.engine }) t
    → SameTraffic (record s { engine = join s.engine }) t
unfolding join
join-SameTraffic s b w r =
    (Reach-Stopped
      (record {
        started = b;
        worker = refl;
        same = record { counters = refl; polled = refl; records = refl };
      })
      r).same

-- Worker steps still to come once a stop is requested.
abbrev pub steps_left : Worker → ℕ
steps_left absent = 0
steps_left finished = 0
steps_left leaving = 1
steps_left looping = 2
steps_left (failing what) = 2
steps_left (holding packet) = 3
steps_left polling = 4

-- A step of the worker thread, rather than of a caller.
abbrev pub IsWorkerStep : {s t : System} → Step s t → Type 0
IsWorkerStep (tests w e) = Unit
IsWorkerStep (polls r w e) = Unit
IsWorkerStep (records p d w e) = Unit
IsWorkerStep (fails what w e) = Unit
IsWorkerStep (leaves w e) = Unit
IsWorkerStep _ = ⊥

steps_left-le : (w : Worker) → steps_left w ≤ 4
steps_left-le absent = omega arith
steps_left-le finished = omega arith
steps_left-le leaving = omega arith
steps_left-le looping = omega arith
steps_left-le (failing what) = omega arith
steps_left-le (holding packet) = omega arith
steps_left-le polling = omega arith

-- After `request_stop` on a sound engine, each step of the worker brings it nearer to its end, at
-- most four of them away, and no step of a caller takes it back or withdraws the request.
pub Step-steps_left :
    {s t : System} (st : Step s t)
    → IsSound s.engine
    → s.engine.stop_requested ≡ true
    → (t.engine.stop_requested ≡ true)
      × (steps_left t.engine.worker ≤ steps_left s.engine.worker)
      × (IsWorkerStep st → steps_left t.engine.worker < steps_left s.engine.worker)
      × (steps_left s.engine.worker ≤ 4)
unfolding start request_stop join test_loop poll store_error leave record_poll count_packet
    set_kernel_dropped
Step-steps_left (starts b e) v q = rw e (ground arith)
Step-steps_left (requests e) v q = rw e (ground arith)
Step-steps_left (joins w e) v q = rw (e, w) (ground arith)
Step-steps_left {s} (drains n e) v q =
    rw (e, drain_lem n s.engine) (q, omega arith, λ h. absurd h, steps_left-le s.engine.worker)
Step-steps_left (tests w e) v q = rw (e, w, q) (ground arith)
Step-steps_left (polls (returned p) w e) v q = rw (e, w) (ground arith)
Step-steps_left (polls (thrown f) w e) v q = rw (e, w) (ground arith)
Step-steps_left (records p d w e) v q = rw (e, w) (ground arith)
Step-steps_left (fails what w e) v q = rw (e, w) (ground arith)
Step-steps_left (leaves w e) v q = rw (e, w) (ground arith)
