-- ===== src/Server/App.antt =====
-- `ApplianceRuntime` of src/server.cpp as a whole: the capture with its samples, and the network
-- controller, behind one queue with one worker. What a call meets outside (the capture source, the
-- threads, the store, the clocks) is an argument.
pub mod Late
pub mod Requests
pub mod Confirmed
pub mod Opened
use wirelab_experiments.Common.{
  ℕ, Bool, true, false, not, List, [], ◌∷◌, Option, none, some, Text, codes, length, ◌==◌,
  if◌then◌else◌, Outcome, returned, thrown,
}
use wirelab_experiments.Inet.{Inet}
use wirelab_experiments.Packet.{PacketMetadata}
use wirelab_experiments.Engine.{Engine, CaptureSnapshot, snapshot}
use wirelab_experiments.Network.Outside.{
  Exception, invalid_argument, what, NetState, Kernel, Controller,
}
use wirelab_experiments.Network.Netlink.{N}
use wirelab_experiments.Network.{tick, confirm, remaining_seconds}
use wirelab_experiments.Json.{Json}
use wirelab_experiments.Server.Queue.{Job, Server, work_round}
use wirelab_experiments.Server.Routes.{
  Method, Endpoint, get_status, get_interfaces, get_config, validate_config, put_config,
  confirm_config, rollback_config, put_capture, delete_capture, get_metrics, get_packets, get_flows,
  get_history, endpoint, Answer, serve_endpoint,
}
use wirelab_experiments.Server.Sampling.{
  Metrics, Runtime, Occasion, Opening, sample_at, start_capture, end_capture,
}
use wirelab_experiments.Server.Sampling as Sampling

-- `state` of the controller.
pub record NetworkView : Type 0 where
  pub state : NetState
  pub enabled : Bool
  pub remaining : Option ℕ

-- `snapshot`, where `metrics` are absent until a first sample, and `counters` without an engine.
pub record Snapshot : Type 0 where
  pub metrics : Option Metrics
  pub capture_interface : Text
  pub network : NetworkView
  pub counters : Option CaptureSnapshot

-- `value["running"]`
abbrev pub is_running : Snapshot → Bool
is_running s = elim s.counters [ none ↦ false | some c ↦ c.running ]

-- The answer to GET /api/v1/status.
pub record Status : Type 0 where
  pub network : NetworkView
  pub capture_interface : Text
  pub capture_error : Text
  pub storage_error : Text
  pub metrics : Snapshot

pub data AppAnswer (V : Type 0) : Type 0 where
  of_network : Answer V → AppAnswer V
  of_status : Status → AppAnswer V
  of_snapshot : Snapshot → AppAnswer V
  of_packets : List PacketMetadata → AppAnswer V
  of_store : V → AppAnswer V

-- What one request meets: the arguments of `start_capture`, of the end of a capture and of the store
-- behind it, and what the store and `ip` answer.
pub record Moment (V : Type 0) : Type 0 where
  pub opening : Opening
  pub halted : Engine
  pub occasion : Occasion
  pub put : Outcome Exception (Unit {0})
  pub fetched : Outcome Exception V

unfoldable pub state_view : {W : Type 0} → ℕ → Controller W → NetworkView
state_view now n = record {
  state = n.state;
  enabled = n.enabled;
  remaining = remaining_seconds now n;
}

-- `store_.get("capture_interface")` where it is a string that is not empty.
abbrev pub saved_name : Option Text → Option Text
saved_name none = none
saved_name (some name) = if length name == 0 then none else some name

-- The constructor up to the worker: an interface from the command line must be captured, a saved one
-- is tried.
unfoldable pub open_capture :
    Text → Option Text → Opening → Runtime → Runtime × Outcome Exception (Unit {0})
open_capture option stored p s =
    if not (length option == 0) then start_capture option p s else elim (saved_name stored) [
      | none ↦ (s, returned tt)
      | some name ↦
          let r = start_capture name p s in
          elim r.1 [
            | returned u ↦ (r.0, returned tt)
            | thrown e ↦ (record (r.0) { capture_error = what e }, returned tt)
          ]
    ]

module _ (kernel : Kernel) (inet : Inet) (json : Json) where
  pub record App : Type 0 where
    pub runtime : Runtime
    pub network : Controller kernel.World

  unfoldable pub app_snapshot : App → Snapshot
  app_snapshot a = record {
    metrics = a.runtime.metrics;
    capture_interface = a.runtime.capture_interface;
    network = state_view (kernel.clock a.network.world) a.network;
    counters = elim a.runtime.engine [ none ↦ none | some e ↦ some (snapshot e) ];
  }

  unfoldable pub app_status : App → Status
  app_status a = record {
    network = state_view (kernel.clock a.network.world) a.network;
    capture_interface = a.runtime.capture_interface;
    capture_error = a.runtime.capture_error;
    storage_error = a.runtime.storage_error;
    metrics = app_snapshot a;
  }

  -- A task on the network.
  unfoldable pub on_network :
      {A : Type 0}
      → (A → AppAnswer json.Value)
      → N kernel A
      → App
      → Outcome Exception (AppAnswer json.Value) × App
  on_network answer m a =
      let r = m a.network in
      (
        elim r.outcome [ returned x ↦ returned (answer x) | thrown e ↦ thrown e ],
        record a { network = r.controller },
      )

  -- A task on the capture, answered by a snapshot.
  unfoldable pub on_capture :
      (Runtime → Runtime × Outcome Exception (Unit {0}))
      → App
      → Outcome Exception (AppAnswer json.Value) × App
  on_capture act a =
      let r = act a.runtime in
      let a' = record a { runtime = r.0 } in
      (elim r.1 [ returned u ↦ returned (of_snapshot (app_snapshot a')) | thrown e ↦ thrown e ], a')

  -- The PUT request, behind the parsing of its body.
  unfoldable pub put_capture_value :
      json.Value → Opening → App → Outcome Exception (AppAnswer json.Value) × App
  put_capture_value v p a =
      let name = json.at v (codes "interface") in
      if not (json.is_string name)
      then (thrown (invalid_argument (codes "interface must be a string")), a)
      else on_capture (start_capture (json.as_string name) p) a

  unfoldable pub serve_app :
      (Text → Outcome Exception json.Value)
      → Moment json.Value
      → Endpoint
      → Text
      → App
      → Outcome Exception (AppAnswer json.Value) × App
  serve_app parse_json m get_status body a = (returned (of_status (app_status a)), a)
  serve_app parse_json m get_metrics body a = (returned (of_snapshot (app_snapshot a)), a)
  serve_app parse_json m get_packets body a = (returned (of_packets a.runtime.traffic.recent), a)
  serve_app parse_json m get_flows body a =
      (elim m.fetched [ returned v ↦ returned (of_store v) | thrown e ↦ thrown e ], a)
  serve_app parse_json m get_history body a =
      (elim m.fetched [ returned v ↦ returned (of_store v) | thrown e ↦ thrown e ], a)
  serve_app parse_json m put_capture body a = elim (parse_json body) [
    | thrown e ↦ (thrown e, a)
    | returned v ↦ put_capture_value v m.opening a
  ]
  serve_app parse_json m delete_capture body a =
      on_capture (Sampling.delete_capture m.halted m.occasion m.put) a
  serve_app parse_json m e body a =
      on_network of_network (serve_endpoint kernel inet json parse_json (λ _. m.fetched) e body) a

  unfoldable pub app_request :
      (Text → Outcome Exception json.Value)
      → Moment json.Value
      → Method
      → Text
      → Text
      → App
      → Outcome Exception (AppAnswer json.Value) × App
  app_request parse_json m method path body a = elim (endpoint method path) [
    | none ↦ (thrown (invalid_argument (codes "Unknown endpoint or unsupported method")), a)
    | some e ↦ serve_app parse_json m e body a
  ]

  -- What one round does before the task and behind it; exceptions of `tick` are only printed.
  unfoldable pub tick_app : App → App
  tick_app a = record a { network = (tick kernel inet a.network).controller }

  unfoldable pub sample_app : Occasion → App → App
  sample_app o a = record a { runtime = sample_at o a.runtime }

  -- One round of `work`.
  unfoldable pub app_round :
      Occasion → Server App (AppAnswer json.Value) → Server App (AppAnswer json.Value)
  app_round o = work_round tick_app (sample_app o)
