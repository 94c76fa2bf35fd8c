-- ===== src/Server/Routes/Queries.antt =====
-- Which requests to src/server.cpp leave the network alone.
use wirelab_experiments.Common.{
  ◌≡◌, inl, inr, refl, Bool, true, false, [], some, Option-cases, Text, Outcome, arith,
}
use wirelab_experiments.Inet.{Inet}
use wirelab_experiments.Network.Outside.{Exception, Kernel, Controller, Run}
use wirelab_experiments.Json.{Json}
use wirelab_experiments.Server.Routes.{
  get, Endpoint, get_status, get_interfaces, get_config, validate_config, put_config,
  confirm_config, rollback_config, put_capture, delete_capture, get_metrics, get_packets, get_flows,
  get_history, endpoint, answer_state, body_config, serve_endpoint, request,
}

-- The endpoints that may change the network.
abbrev pub changes_network : Endpoint → Bool
changes_network put_config = true
changes_network confirm_config = true
changes_network rollback_config = true
changes_network _ = false

endpoint-get : (path : Text) (e : Endpoint) → endpoint get path ≡ some e → changes_network e ≡ false
unfolding endpoint
endpoint-get path e h = ground arith

module _ (kernel : Kernel) (inet : Inet) (json : Json)
    (parse_json : Text → Outcome Exception json.Value)
    (other : Endpoint → Outcome Exception json.Value) where
  -- A run that asked for nothing and left the controller as it was.
  abbrev pub Untouched : {A : Type 0} → Controller kernel.World → Run kernel.World A → Type 0
  Untouched n r = (r.log ≡ []) × (r.controller ≡ n)

  pub serve_endpoint-Untouched :
      (e : Endpoint) (body : Text) (n : Controller kernel.World)
      → changes_network e ≡ false
      → Untouched n (serve_endpoint kernel inet json parse_json other e body n)
  unfolding serve_endpoint body_config answer_state
  serve_endpoint-Untouched get_config body n h = ground arith
  serve_endpoint-Untouched validate_config body n h = ground arith
  serve_endpoint-Untouched put_config body n h = cc
  serve_endpoint-Untouched confirm_config body n h = cc
  serve_endpoint-Untouched rollback_config body n h = cc
  serve_endpoint-Untouched get_status body n h = ground arith
  serve_endpoint-Untouched get_interfaces body n h = ground arith
  serve_endpoint-Untouched put_capture body n h = ground arith
  serve_endpoint-Untouched delete_capture body n h = ground arith
  serve_endpoint-Untouched get_metrics body n h = ground arith
  serve_endpoint-Untouched get_packets body n h = ground arith
  serve_endpoint-Untouched get_flows body n h = ground arith
  serve_endpoint-Untouched get_history body n h = ground arith

  -- No GET request, whatever its path and body, asks for a change of the network or changes the state
  -- of the controller.
  pub request-get-Untouched :
      (path body : Text) (n : Controller kernel.World)
      → Untouched n (request kernel inet json parse_json other get path body n)
  unfolding request
  request-get-Untouched path body n = elim (Option-cases (endpoint get path)) [
    | inl e ↦ rw (e, request) (refl, refl)
    | inr (p, e) ↦ rw (e, request) (serve_endpoint-Untouched p body n (endpoint-get path p e))
  ]
