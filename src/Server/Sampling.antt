-- ===== src/Server/Sampling.antt =====
-- `sample`, `start_capture` and the end of a capture in src/server.cpp: the packets are drained from the
-- engine and aggregated, and once a second the counters since the last sample are stored. Times are
-- nanoseconds of the steady clock. The rates, which are floating point, are left as the differences
-- and the elapsed time that they are computed from.
pub mod Totals
pub mod Stored
pub mod Empties
use wirelab_experiments.Common.{
  ℕ, ◌+◌, ◌-◌, ◌*◌, ◌%◌, ◌^◌, Bool, true, false, not, ◌&&◌, ◌||◌, List, [], ◌∷◌, ◌++◌, take, Option,
  none, some, Text, codes, length, ltb, leb, ◌==◌, if◌then◌else◌, Outcome, returned, thrown,
}
use wirelab_experiments.Config.{interface_bytes}
use wirelab_experiments.Engine.{Engine, EngineError, CaptureSnapshot, create, start, drain}
use wirelab_experiments.Network.Outside.{Exception, invalid_argument, runtime_error, what}
use wirelab_experiments.Server.Traffic.{Map, Traffic, collect, clear}

-- The members of `metrics_` that a sample sets.
pub record Metrics : Type 0 where
  pub elapsed : ℕ
  pub packets : ℕ
  pub bytes : ℕ
  pub protocols : Map ℕ
  pub top_talkers : Map ℕ
  pub talkers_omitted : ℕ
  pub flows_omitted : ℕ
  pub breakdown_complete : Bool

pub record Runtime : Type 0 where
  pub engine : Option Engine
  pub capture_interface : Text
  pub capture_error : Text
  pub storage_error : Text
  pub metrics : Option Metrics
  pub traffic : Traffic
  pub previous_packets : ℕ
  pub previous_bytes : ℕ
  pub last_sample : ℕ

-- `std::sort` by the bytes, the largest first. Among equal ones any order is allowed.
unfoldable pub insert_talker : Text × ℕ → Map ℕ → Map ℕ
insert_talker x [] = x ∷ []
insert_talker x (y ∷ ys) = if ltb x.1 y.1 then y ∷ insert_talker x ys else x ∷ (y ∷ ys)

unfoldable pub sort_talkers : Map ℕ → Map ℕ
unfolding insert_talker
sort_talkers [] = []
sort_talkers (x ∷ xs) = insert_talker x (sort_talkers xs)

-- `a - b` of `std::uint64_t`.
abbrev pub sub_word : ℕ → ℕ → ℕ
sub_word a b = (a + 2 ^ 64 - b) % 2 ^ 64

abbrev pub second : ℕ
second = 1_000_000_000

-- `elapsed`, which is at least a microsecond.
abbrev pub elapsed_since : ℕ → ℕ → ℕ
elapsed_since last now = if ltb (now - last) 1000 then 1000 else now - last

unfoldable pub measure : ℕ → CaptureSnapshot → Runtime → Metrics
measure now counters s = record {
  elapsed = elapsed_since s.last_sample now;
  packets = sub_word counters.packets s.previous_packets;
  bytes = sub_word counters.wire_bytes s.previous_bytes;
  protocols = s.traffic.protocols;
  top_talkers = take 10 (sort_talkers s.traffic.talkers);
  talkers_omitted = s.traffic.talkers_omitted;
  flows_omitted = s.traffic.flows_omitted;
  breakdown_complete = counters.metadata_dropped == 0 && s.traffic.talkers_omitted == 0;
}

-- The error that the `catch` keeps, or none.
abbrev pub error_of : Outcome Exception (Unit {0}) → Text
error_of (returned u) = []
error_of (thrown e) = what e

-- The part behind the test of the elapsed time; `stored` is what the two calls of the store did.
unfoldable pub publish : ℕ → CaptureSnapshot → Outcome Exception (Unit {0}) → Runtime → Runtime
publish now counters stored s = record s {
  metrics = some (measure now counters s);
  storage_error = error_of stored;
  previous_packets = counters.packets;
  previous_bytes = counters.wire_bytes;
  last_sample = now;
  traffic = clear s.traffic;
}

-- Draining and aggregating.
unfoldable pub gather : Engine → Runtime → Runtime
gather e s =
    let r = drain 8192 e in
    record s { engine = some r.1; traffic = collect s.capture_interface r.0 s.traffic }

-- The test behind the draining: a second has passed, or the sample is forced.
abbrev pub is_due : Bool → ℕ → Runtime → Bool
is_due force now s = not (ltb (elapsed_since s.last_sample now) second && not force)

-- `sample`: the time, what `snapshot` says by then, and what the store does are arguments.
unfoldable pub sample :
    Bool → ℕ → CaptureSnapshot → Outcome Exception (Unit {0}) → Runtime → Runtime
sample force now counters stored s = elim s.engine [
  | none ↦ s
  | some e ↦ if is_due force now s then publish now counters stored (gather e s) else gather e s
]

-- The arguments of one call of `sample`.
pub record Occasion : Type 0 where
  pub force : Bool
  pub now : ℕ
  pub counters : CaptureSnapshot
  pub stored : Outcome Exception (Unit {0})

unfoldable pub sample_at : Occasion → Runtime → Runtime
unfolding sample
sample_at o s = sample o.force o.now o.counters o.stored s

unfoldable pub valid_capture_name : Text → Bool
valid_capture_name name =
    not (length name == 0 || ltb 15 (length name) || not (interface_bytes name))

-- The old engine is stopped, which leaves it as `halted`, and sampled.
unfoldable pub end_capture : Engine → Occasion → Runtime → Runtime
unfolding sample_at
end_capture halted o s = elim s.engine [
  | none ↦ s
  | some e ↦ sample_at (record o { force = true }) (record s { engine = some halted })
]

-- The end of `start_capture`, with nothing thrown.
unfoldable pub install_engine : Engine → Text → ℕ → Runtime → Runtime
install_engine e name now s = record s {
  engine = some e;
  capture_interface = name;
  capture_error = [];
  previous_packets = 0;
  previous_bytes = 0;
  traffic = record (clear s.traffic) { recent = [] };
  metrics = none;
  last_sample = now;
}

-- `start_capture` behind the last sample: `next->start()`, which fails with `reason` where no thread
-- could be made, then the store.
unfoldable pub start_next :
    Bool
    → Text
    → Outcome Exception (Unit {0})
    → Text
    → ℕ
    → Engine
    → Runtime
    → Runtime × Outcome Exception (Unit {0})
start_next spawned reason put name now e s = elim (start spawned e).1 [
  | thrown x ↦ (s, thrown (runtime_error reason))
  | returned u ↦ elim put [
    | thrown x ↦ (s, thrown x)
    | returned v ↦ (install_engine (start spawned e).0 name now s, returned tt)
  ]
]

-- What a call of `start_capture` meets: whether the source could be opened, how the old engine was
-- left by `stop` and sampled, whether there is a thread for the new one, the store, and the time.
pub record Opening : Type 0 where
  pub source : Outcome Exception (Unit {0})
  pub halted : Engine
  pub occasion : Occasion
  pub spawned : Bool
  pub reason : Text
  pub put : Outcome Exception (Unit {0})
  pub now : ℕ

unfoldable pub start_capture : Text → Opening → Runtime → Runtime × Outcome Exception (Unit {0})
unfolding valid_capture_name end_capture start_next install_engine
start_capture name p s =
    if not (valid_capture_name name)
    then (s, thrown (invalid_argument (codes "Invalid capture interface")))
    else elim p.source [
      | thrown x ↦ (s, thrown x)
      | returned u ↦ elim (create true 8192) [
        | thrown x ↦ (
          s,
          thrown (invalid_argument (codes "Capture requires a source and positive queue capacity")),
        )
        | returned e ↦
            start_next p.spawned p.reason p.put name p.now e (end_capture p.halted p.occasion s)
      ]
    ]

-- The DELETE request: the interface is forgotten before the store is asked to.
unfoldable pub delete_capture :
    Engine
    → Occasion
    → Outcome Exception (Unit {0})
    → Runtime
    → Runtime × Outcome Exception (Unit {0})
unfolding end_capture
delete_capture halted o put s =
    (record (end_capture halted o s) { engine = none; capture_interface = [] }, put)
