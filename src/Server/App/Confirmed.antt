-- ===== src/Server/App/Confirmed.antt =====
-- Which requests to src/server.cpp can make a configuration confirmed.
use wirelab_experiments.Common.{
  true, ◌<◌, some, Text, ◌≡◌, ◌≢◌, ◌⊎◌, inl, inr, refl, ap, Outcome, arith, Option-cases,
}
use wirelab_experiments.Inet.{Inet}
use wirelab_experiments.Network.Outside.{Exception, awaiting_confirmation, Kernel, Controller}
use wirelab_experiments.Network.Netlink.{store_put}
use wirelab_experiments.Network.Timeout.{restore-IsIdle}
use wirelab_experiments.Network.{tick, confirm}
use wirelab_experiments.Network.Unconfirmed.{
  Unconfirmed, IsModest, after-Unconfirmed, bind-IsModest, then-IsModest, pure-IsModest,
  state-IsModest,
}
use wirelab_experiments.Network.Unconfirmed.Methods.{
  apply-IsModest, rollback-IsModest, restore-IsModest, tick-IsModest,
}
use wirelab_experiments.Json.{Json, config_from_json}
use wirelab_experiments.Server.Routes.{
  Method, Endpoint, get_status, get_interfaces, get_config, validate_config, put_config,
  confirm_config, rollback_config, put_capture, delete_capture, get_metrics, get_packets, get_flows,
  get_history, endpoint, serve_endpoint, answer_state, body_config, lift,
}
use wirelab_experiments.Server.App.{
  App, Moment, on_network, on_capture, put_capture_value, serve_app, app_request, tick_app,
}

module _ (kernel : Kernel) (inet : Inet) where
  -- A confirmation is awaited, and its time is not over.
  abbrev pub IsInTime : Controller kernel.World → Type 0
  IsInTime n =
      (n.enabled ≡ true)
      × (n.state.status ≡ awaiting_confirmation)
      × (kernel.clock n.world < n.deadline)

  confirm-IsInTime :
      (n : Controller kernel.World)
      → Unconfirmed n
      → Unconfirmed (confirm kernel inet n).controller ⊎ IsInTime n
  unfolding confirm tick store_put
  confirm-IsInTime n h =
      ground (arith, restore-IsIdle kernel inet n, (restore-IsModest kernel inet).modest n)

  module _ (json : Json) (parse_json : Text → Outcome Exception json.Value) where
    lift-IsModest : {A : Type 0} (o : Outcome Exception A) → IsModest (lift kernel inet json o)
    lift-IsModest o = record { modest = λ n h. h }

    answer_state-IsModest : IsModest (answer_state kernel inet json)
    unfolding answer_state
    answer_state-IsModest = bind-IsModest state-IsModest λ s. pure-IsModest

    body_config-IsModest : (body : Text) → IsModest (body_config kernel inet json parse_json body)
    unfolding body_config
    body_config-IsModest body =
        bind-IsModest (lift-IsModest (parse_json body))
          λ v. lift-IsModest (config_from_json json inet v)

    serve_endpoint-IsModest :
        (other : Endpoint → Outcome Exception json.Value) (e : Endpoint) (body : Text)
        → e ≢ confirm_config
        → IsModest (serve_endpoint kernel inet json parse_json other e body)
    unfolding serve_endpoint
    serve_endpoint-IsModest other get_config body d = answer_state-IsModest
    serve_endpoint-IsModest other validate_config body d =
        bind-IsModest (body_config-IsModest body) λ c. pure-IsModest
    serve_endpoint-IsModest other put_config body d =
        bind-IsModest (body_config-IsModest body)
          λ c. then-IsModest (apply-IsModest kernel inet c) answer_state-IsModest
    serve_endpoint-IsModest other confirm_config body d = elim (d refl) [ ]
    serve_endpoint-IsModest other rollback_config body d =
        then-IsModest (rollback-IsModest kernel inet) answer_state-IsModest
    serve_endpoint-IsModest other get_status body d = record { modest = λ n h. ground arith }
    serve_endpoint-IsModest other get_interfaces body d = record { modest = λ n h. ground arith }
    serve_endpoint-IsModest other put_capture body d = record { modest = λ n h. ground arith }
    serve_endpoint-IsModest other delete_capture body d = record { modest = λ n h. ground arith }
    serve_endpoint-IsModest other get_metrics body d = record { modest = λ n h. ground arith }
    serve_endpoint-IsModest other get_packets body d = record { modest = λ n h. ground arith }
    serve_endpoint-IsModest other get_flows body d = record { modest = λ n h. ground arith }
    serve_endpoint-IsModest other get_history body d = record { modest = λ n h. ground arith }

    -- What a request to confirm leaves, its answer included.
    serve_endpoint-IsInTime :
        (other : Endpoint → Outcome Exception json.Value) (body : Text)
        (n : Controller kernel.World)
        → Unconfirmed n
        → Unconfirmed
            (serve_endpoint kernel inet json parse_json other confirm_config body n).controller
          ⊎ IsInTime n
    unfolding serve_endpoint answer_state
    serve_endpoint-IsInTime other body n h = elim (confirm-IsInTime n h) [
      | inl u ↦ inl (after-Unconfirmed _ _ _ _ u (λ _. answer_state-IsModest))
      | inr t ↦ inr t
    ]

    -- Where a request may lead.
    abbrev pub ConfirmsInTime : Endpoint → App kernel inet json → App kernel inet json → Type 0
    ConfirmsInTime e a a' = Unconfirmed a'.network ⊎ ((e ≡ confirm_config) × IsInTime a.network)

    serve_app-ConfirmsInTime :
        (m : Moment json.Value) (e : Endpoint) (body : Text) (a : App kernel inet json)
        → Unconfirmed a.network
        → ConfirmsInTime e a (serve_app kernel inet json parse_json m e body a).1
    unfolding serve_app on_network on_capture put_capture_value
    serve_app-ConfirmsInTime m get_status body a h = inl h
    serve_app-ConfirmsInTime m get_metrics body a h = inl h
    serve_app-ConfirmsInTime m get_packets body a h = inl h
    serve_app-ConfirmsInTime m get_flows body a h = inl h
    serve_app-ConfirmsInTime m get_history body a h = inl h
    serve_app-ConfirmsInTime m put_capture body a h = inl (ground arith)
    serve_app-ConfirmsInTime m delete_capture body a h = inl h
    serve_app-ConfirmsInTime m get_interfaces body a h =
        inl ((serve_endpoint-IsModest (λ _. m.fetched) get_interfaces body (λ e. cc)).modest _ h)
    serve_app-ConfirmsInTime m get_config body a h =
        inl ((serve_endpoint-IsModest (λ _. m.fetched) get_config body (λ e. cc)).modest _ h)
    serve_app-ConfirmsInTime m validate_config body a h =
        inl ((serve_endpoint-IsModest (λ _. m.fetched) validate_config body (λ e. cc)).modest _ h)
    serve_app-ConfirmsInTime m put_config body a h =
        inl ((serve_endpoint-IsModest (λ _. m.fetched) put_config body (λ e. cc)).modest _ h)
    serve_app-ConfirmsInTime m rollback_config body a h =
        inl ((serve_endpoint-IsModest (λ _. m.fetched) rollback_config body (λ e. cc)).modest _ h)
    serve_app-ConfirmsInTime m confirm_config body a h =
        elim (serve_endpoint-IsInTime (λ _. m.fetched) body a.network h) [
          | inl u ↦ inl u
          | inr t ↦ inr (refl, t)
        ]

    -- If a configuration is not confirmed before a request, then it is not confirmed behind it either,
    -- whatever the request and however it ends; unless it is the request to confirm, changes are
    -- enabled, a confirmation is awaited, and its deadline has not passed.
    pub app_request-Unconfirmed :
        (m : Moment json.Value) (method : Method) (path body : Text) (a : App kernel inet json)
        → Unconfirmed a.network
        → Unconfirmed (app_request kernel inet json parse_json m method path body a).1.network
          ⊎ ((endpoint method path ≡ some confirm_config) × IsInTime a.network)
    unfolding app_request
    app_request-Unconfirmed m method path body a h = elim (Option-cases (endpoint method path)) [
      | inl e ↦ rw (e, app_request) (inl h)
      | inr (p, e) ↦
          rw (e, app_request)
            (elim (serve_app-ConfirmsInTime m p body a h) [
              | inl u ↦ inl u
              | inr (q, t) ↦ inr (ap some q, t)
            ])
    ]

    -- A round's own calls, for the tick before its job.
    pub tick_app-Unconfirmed :
        (a : App kernel inet json)
        → Unconfirmed a.network
        → Unconfirmed (tick_app kernel inet json a).network
    unfolding tick_app
    tick_app-Unconfirmed a h = (tick-IsModest kernel inet).modest a.network h
