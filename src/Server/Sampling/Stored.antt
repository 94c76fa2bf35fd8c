-- ===== src/Server/Sampling/Stored.antt =====
-- `sample` of src/server.cpp with its two calls of the store. The texts that `json_text` makes of the
-- metrics and of a flow are parameters.
pub mod Balance
pub mod Deposits
use wirelab_experiments.Common.{
  ℕ, Bool, List, [], ◌∷◌, Option, none, some, Text, Outcome, if◌then◌else◌,
}
use wirelab_experiments.Common.Int.{ℤ, pos}
use wirelab_experiments.Common.Logged.{◌>>◌}
use wirelab_experiments.Engine.{Engine, CaptureSnapshot}
use wirelab_experiments.Network.Outside.{Exception}
use wirelab_experiments.Store as Store
use wirelab_experiments.Store.{Database, D, FlowRow, record_flows}
use wirelab_experiments.Server.Traffic.{Map, Flow, milliseconds}
use wirelab_experiments.Server.Sampling.{
  Metrics, Runtime, sub_word, is_due, measure, publish, gather,
}

module _ (db : Database) (metrics_text : Metrics → Text) (flow_text : Flow → Text) where
  -- What `record_flows` reads of the JSON of a flow.
  unfoldable pub flow_row : Text × Flow → FlowRow
  flow_row (key, f) = record {
    key = key;
    first_seen = pos f.first_seen;
    timestamp_ms = pos (milliseconds f.packet);
    packets = pos f.packets;
    bytes = pos f.bytes;
    metadata = flow_text f;
  }

  unfoldable pub flow_rows : Map Flow → List FlowRow
  flow_rows [] = []
  flow_rows (f ∷ fs) = flow_row f ∷ flow_rows fs

  -- The body of the `try`; `ts` is `now_seconds()`.
  unfoldable pub store_sample : ℤ → ℕ → CaptureSnapshot → Runtime → D db (Unit {0})
  store_sample ts now counters s = do
    Store.sample db ts (sub_word counters.packets s.previous_packets)
        (sub_word counters.wire_bytes s.previous_bytes) (metrics_text (measure now counters s))
    record_flows db (flow_rows s.traffic.flows)

  -- The part behind the draining.
  unfoldable pub publish_if_due :
      Bool → ℕ → ℤ → CaptureSnapshot → Runtime → db.World → Runtime × db.World
  publish_if_due force now ts counters s w =
      let r = store_sample ts now counters s w in
      if is_due force now s then (publish now counters r.outcome s, r.state) else (s, w)

  unfoldable pub sample_and_store :
      Bool → ℕ → ℤ → CaptureSnapshot → Runtime → db.World → Runtime × db.World
  sample_and_store force now ts counters s w = elim s.engine [
    | none ↦ (s, w)
    | some e ↦ publish_if_due force now ts counters (gather e s) w
  ]
