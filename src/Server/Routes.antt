-- ===== src/Server/Routes.antt =====
-- `request` of src/server.cpp: the endpoints of the API, and what those of the network do with the
-- controller. What the other endpoints answer is an argument.
pub mod Queries
pub mod Apply
pub mod History
use wirelab_experiments.Common.{
  ℕ, Bool, true, false, not, ◌&&◌, ◌||◌, List, [], ◌∷◌, ◌++◌, Option, none, some, Text, codes,
  text_eq, if◌then◌else◌, Outcome, returned, thrown,
}
use wirelab_experiments.Inet.{Inet}
use wirelab_experiments.Config.{NetworkConfig}
use wirelab_experiments.Network.Outside.{
  Exception, invalid_argument, NetState, Kernel, Controller, Run, M, pure, throw, get_state, ◌>>=◌,
  ◌>>◌,
}
use wirelab_experiments.Network.Netlink.{N}
use wirelab_experiments.Network.{apply, confirm, rollback}
use wirelab_experiments.Json.{Json, config_from_json, config_json}

pub data Method : Type 0 where
  get post put delete : Method

pub data Endpoint : Type 0 where
  get_status get_interfaces get_config validate_config put_config confirm_config rollback_config :
      Endpoint
  put_capture delete_capture get_metrics get_packets get_flows get_history : Endpoint

-- The tests on the path, for each method in their order.
unfoldable pub endpoint : Method → Text → Option Endpoint
endpoint get path =
    if text_eq path (codes "/api/v1/status")
    then some get_status
    else if text_eq path (codes "/api/v1/interfaces")
    then some get_interfaces
    else if text_eq path (codes "/api/v1/config")
    then some get_config
    else if text_eq path (codes "/api/v1/metrics")
    then some get_metrics
    else if text_eq path (codes "/api/v1/packets")
    then some get_packets
    else if text_eq path (codes "/api/v1/flows")
    then some get_flows
    else if text_eq path (codes "/api/v1/history")
    then some get_history
    else none
endpoint post path =
    if text_eq path (codes "/api/v1/config/validate")
    then some validate_config
    else if text_eq path (codes "/api/v1/config/confirm")
    then some confirm_config
    else if text_eq path (codes "/api/v1/config/rollback")
    then some rollback_config
    else none
endpoint put path =
    if text_eq path (codes "/api/v1/config")
    then some put_config
    else if text_eq path (codes "/api/v1/capture")
    then some put_capture
    else none
endpoint delete path = if text_eq path (codes "/api/v1/capture") then some delete_capture else none

pub data Answer (V : Type 0) : Type 0 where
  network_state : NetState → Answer V
  valid_config : V → Answer V
  other_answer : V → Answer V

module _ (kernel : Kernel) (inet : Inet) (json : Json) where
  -- A call that works on no state of the controller.
  abbrev pub lift : {A : Type 0} → Outcome Exception A → N kernel A
  lift o n = record { outcome = o; controller = n; log = [] }

  unfoldable pub answer_state : N kernel (Answer json.Value)
  answer_state = do s ← get_state; pure (network_state s)

  -- `config_from_json(parse_json(request->body()))`
  unfoldable pub body_config : (Text → Outcome Exception json.Value) → Text → N kernel NetworkConfig
  body_config parse_json body = do v ← lift (parse_json body); lift (config_from_json json inet v)

  -- `other` answers the endpoints of the capture, the metrics and the store.
  unfoldable pub serve_endpoint :
      (Text → Outcome Exception json.Value)
      → (Endpoint → Outcome Exception json.Value)
      → Endpoint
      → Text
      → N kernel (Answer json.Value)
  serve_endpoint parse_json other get_config body = answer_state
  serve_endpoint parse_json other validate_config body = do
    c ← body_config parse_json body
    pure (valid_config (config_json json c))
  serve_endpoint parse_json other put_config body = do
    c ← body_config parse_json body
    apply kernel inet c
    answer_state
  serve_endpoint parse_json other confirm_config body = do confirm kernel inet; answer_state
  serve_endpoint parse_json other rollback_config body = do rollback kernel inet; answer_state
  serve_endpoint parse_json other get_status body = do
    v ← lift (other get_status)
    pure (other_answer v)
  serve_endpoint parse_json other get_interfaces body = do
    v ← lift (other get_interfaces)
    pure (other_answer v)
  serve_endpoint parse_json other put_capture body = do
    v ← lift (other put_capture)
    pure (other_answer v)
  serve_endpoint parse_json other delete_capture body = do
    v ← lift (other delete_capture)
    pure (other_answer v)
  serve_endpoint parse_json other get_metrics body = do
    v ← lift (other get_metrics)
    pure (other_answer v)
  serve_endpoint parse_json other get_packets body = do
    v ← lift (other get_packets)
    pure (other_answer v)
  serve_endpoint parse_json other get_flows body = do
    v ← lift (other get_flows)
    pure (other_answer v)
  serve_endpoint parse_json other get_history body = do
    v ← lift (other get_history)
    pure (other_answer v)

  unfoldable pub request :
      (Text → Outcome Exception json.Value)
      → (Endpoint → Outcome Exception json.Value)
      → Method
      → Text
      → Text
      → N kernel (Answer json.Value)
  request parse_json other method path body = elim (endpoint method path) [
    | none ↦ throw (invalid_argument (codes "Unknown endpoint or unsupported method"))
    | some e ↦ serve_endpoint parse_json other e body
  ]
