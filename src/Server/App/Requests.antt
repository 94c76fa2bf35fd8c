-- ===== src/Server/App/Requests.antt =====
-- The GET requests of src/server.cpp on the whole application.
use wirelab_experiments.Common.{
  Bool, true, false, some, Text, ◌≡◌, inl, inr, refl, ap, Outcome, arith, Option-cases,
}
use wirelab_experiments.Inet.{Inet}
use wirelab_experiments.Network.Outside.{Exception, Kernel}
use wirelab_experiments.Json.{Json}
use wirelab_experiments.Server.Routes.{
  Endpoint, get, endpoint, serve_endpoint, get_status, get_interfaces, get_config, validate_config,
  put_config, confirm_config, rollback_config, put_capture, delete_capture, get_metrics,
  get_packets, get_flows, get_history,
}
use wirelab_experiments.Server.Routes.Queries.{changes_network, serve_endpoint-Untouched}
use wirelab_experiments.Server.App.{App, Moment, on_network, serve_app, app_request}

-- The endpoints of the GET requests.
abbrev is_query : Endpoint → Bool
is_query get_status = true
is_query get_interfaces = true
is_query get_config = true
is_query get_metrics = true
is_query get_packets = true
is_query get_flows = true
is_query get_history = true
is_query _ = false

endpoint-get-query : (path : Text) (e : Endpoint) → endpoint get path ≡ some e → is_query e ≡ true
unfolding endpoint
endpoint-get-query path e h = ground arith

module _ (kernel : Kernel) (inet : Inet) (json : Json)
    (parse_json : Text → Outcome Exception json.Value) where
  network_untouched :
      (m : Moment json.Value) (e : Endpoint) (body : Text) (a : App kernel inet json)
      → changes_network e ≡ false
      → record a {
        network =
            (serve_endpoint kernel inet json parse_json
              (λ _. m.fetched)
              e
              body
              a.network).controller;
      }
        ≡ a
  network_untouched m e body a h =
      ap (λ n. record a { network = n })
        (serve_endpoint-Untouched kernel inet json parse_json (λ _. m.fetched) e body a.network h).1

  serve_app-same :
      (m : Moment json.Value) (e : Endpoint) (body : Text) (a : App kernel inet json)
      → is_query e ≡ true
      → (serve_app kernel inet json parse_json m e body a).1 ≡ a
  unfolding serve_app on_network
  serve_app-same m get_status body a h = refl
  serve_app-same m get_interfaces body a h = network_untouched m get_interfaces body a refl
  serve_app-same m get_config body a h = network_untouched m get_config body a refl
  serve_app-same m get_metrics body a h = refl
  serve_app-same m get_packets body a h = refl
  serve_app-same m get_flows body a h = refl
  serve_app-same m get_history body a h = refl
  serve_app-same m validate_config body a h = cc
  serve_app-same m put_config body a h = cc
  serve_app-same m confirm_config body a h = cc
  serve_app-same m rollback_config body a h = cc
  serve_app-same m put_capture body a h = cc
  serve_app-same m delete_capture body a h = cc

  -- No GET request, whatever its path and body, changes the capture or the network.
  pub app_request-get-same :
      (m : Moment json.Value) (path body : Text) (a : App kernel inet json)
      → (app_request kernel inet json parse_json m get path body a).1 ≡ a
  unfolding app_request
  app_request-get-same m path body a = elim (Option-cases (endpoint get path)) [
    | inl e ↦ rw (e, app_request) refl
    | inr (p, e) ↦ rw (e, app_request) (serve_app-same m p body a (endpoint-get-query path p e))
  ]
