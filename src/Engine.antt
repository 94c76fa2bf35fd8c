-- ===== src/Engine.antt =====
-- src/engine.cpp and the class `CaptureEngine` of include/magicbox/engine.hpp: the bounded queue
-- of packet metadata, its counters, and the worker thread that fills it.
-- Each function below is one critical section of `mutex_`, or one step of a thread between two.
pub mod Drain
pub mod System
use wirelab_experiments.Common.{
  ℕ, suc, zero, ◌+◌, ◌%◌, ◌^◌, min, Bool, true, false, List, [], ◌∷◌, ◌++◌, Option, none, some,
  Text, codes, length, ◌==◌, ◌||◌, not, if◌then◌else◌, Outcome, returned, thrown,
}
use wirelab_experiments.Packet.{PacketMetadata}

pub record CaptureSnapshot : Type 0 where
  pub packets : ℕ
  pub wire_bytes : ℕ
  pub metadata_dropped : ℕ
  pub kernel_dropped : Option ℕ
  pub queued : ℕ
  pub running : Bool
  pub error : Text

-- Where the worker stands in `run`. `absent`: there is no thread to join.
pub data Worker : Type 0 where
  absent looping polling : Worker
  holding : Option PacketMetadata → Worker
  failing : Text → Worker
  leaving finished : Worker

pub record Engine : Type 0 where
  pub capacity : ℕ
  pub queue : List PacketMetadata
  pub counters : CaptureSnapshot
  pub started : Bool
  pub worker : Worker
  pub stop_requested : Bool

-- The exceptions that the constructor and `start` throw.
pub data EngineError : Type 0 where
  no_source_or_capacity started_twice no_thread : EngineError

abbrev pub no_counters : CaptureSnapshot
no_counters = record {
  packets = 0;
  wire_bytes = 0;
  metadata_dropped = 0;
  kernel_dropped = none;
  queued = 0;
  running = false;
  error = [];
}

-- The constructor; `has_source` is the test of the pointer.
unfoldable pub create : Bool → ℕ → Outcome EngineError Engine
create has_source capacity =
    if not has_source || capacity == 0
    then thrown no_source_or_capacity
    else returned (record {
      capacity = capacity;
      queue = [];
      counters = no_counters;
      started = false;
      worker = absent;
      stop_requested = false;
    })

-- `start`; `spawned` says whether `std::jthread` could create the thread.
unfoldable pub start : Bool → Engine → Engine × Outcome EngineError (Unit {0})
start spawned e =
    if e.started
    then (e, thrown started_twice)
    else if spawned
    then (
      record e {
        counters = record (e.counters) { running = true };
        worker = looping;
        started = true;
      },
      returned tt,
    )
    else (record e { counters = record (e.counters) { running = false } }, thrown no_thread)

-- The two halves of `stop`: `request_stop`, and `join`, which waits for the worker to finish.
unfoldable pub request_stop : Engine → Engine
request_stop e = elim e.worker [ absent ↦ e | _ ↦ record e { stop_requested = true } ]

unfoldable pub join : Engine → Engine
join e = record e { worker = absent }

-- The test of `while (!stop.stop_requested())`.
unfoldable pub test_loop : Engine → Engine
test_loop e = record e { worker = if e.stop_requested then leaving else polling }

-- `source_->next(stop)` returned, or threw: the message is what the handlers will store.
pub data Failure : Type 0 where
  exception : Text → Failure
  unknown_failure : Failure

unfoldable pub failure_text : Failure → Text
failure_text (exception what) = what
failure_text unknown_failure = codes "Unknown capture failure"

unfoldable pub poll : Outcome Failure (Option PacketMetadata) → Engine → Engine
unfolding failure_text
poll (returned packet) e = record e { worker = holding packet }
poll (thrown failure) e = record e { worker = failing (failure_text failure) }

-- The body of the loop under the lock, with a packet.
unfoldable pub count_packet : PacketMetadata → Engine → Engine
count_packet p e =
    let c : CaptureSnapshot = record (e.counters) {
      packets = (e.counters.packets + 1) % 2 ^ 64;
      wire_bytes = (e.counters.wire_bytes + p.wire_bytes) % 2 ^ 64;
    } in
    if length e.queue == e.capacity
    then record e { counters = record c { metadata_dropped = (c.metadata_dropped + 1) % 2 ^ 64 } }
    else record e { counters = c; queue = e.queue ++ p ∷ [] }

unfoldable pub set_kernel_dropped : Option ℕ → Engine → Engine
set_kernel_dropped drops e = record e { counters = record (e.counters) { kernel_dropped = drops } }

-- The body of the loop under the lock; `kernel_drops` may throw too.
unfoldable pub record_poll : Option PacketMetadata → Outcome Failure (Option ℕ) → Engine → Engine
unfolding count_packet set_kernel_dropped failure_text
record_poll packet (thrown failure) e = record e { worker = failing (failure_text failure) }
record_poll none (returned drops) e = record (set_kernel_dropped drops e) { worker = looping }
record_poll (some p) (returned drops) e = record (count_packet p (set_kernel_dropped drops e)) {
  worker = looping;
}

-- A handler stores the error; then, in every case, `running` is cleared.
unfoldable pub store_error : Text → Engine → Engine
store_error what e = record e { counters = record (e.counters) { error = what }; worker = leaving }

unfoldable pub leave : Engine → Engine
leave e = record e { counters = record (e.counters) { running = false }; worker = finished }

unfoldable pub snapshot : Engine → CaptureSnapshot
snapshot e = record (e.counters) { queued = length e.queue }

-- `count` rounds that move the front of the queue behind `result`.
drain_loop :
    ℕ → List PacketMetadata → List PacketMetadata → List PacketMetadata × List PacketMetadata
drain_loop zero result queue = (result, queue)
drain_loop (suc n) result [] = (result, [])
drain_loop (suc n) result (p ∷ queue) = drain_loop n (result ++ p ∷ []) queue

unfoldable pub drain : ℕ → Engine → List PacketMetadata × Engine
unfolding drain_loop
drain limit e =
    let r = drain_loop (min limit (length e.queue)) [] e.queue in (r.0, record e { queue = r.1 })
