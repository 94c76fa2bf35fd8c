-- ===== src/Server/App/Late.antt =====
-- The loop of `work` in src/server.cpp against the timeout of the network: `tick` comes before the task.
use wirelab_experiments.Common.{
  ℕ, false, List, [], ◌∷◌, ◌++◌, some, Text, codes, text_eq, ◌≡◌, inl, inr, refl, sym, ap, subst,
  returned, thrown, Outcome, arith, Bool-cases,
}
use wirelab_experiments.Inet.{Inet}
use wirelab_experiments.Config.{NetworkConfig}
use wirelab_experiments.Network.Outside.{Exception, runtime_error, Status, Kernel, Controller, Run}
use wirelab_experiments.Network.Checks.{is_awaiting, revalidate}
use wirelab_experiments.Network.Restore.{restore}
use wirelab_experiments.Network.Settled.{IsSettled, restore-IsSettled}
use wirelab_experiments.Network.Timeout.{IsDue}
use wirelab_experiments.Network.{tick, confirm}
use wirelab_experiments.Json.{Json}
use wirelab_experiments.Server.Queue.{Job, Reply, Server, error, answer, serve, work_round}
use wirelab_experiments.Server.Routes.{post, endpoint, serve_endpoint}
use wirelab_experiments.Server.Sampling.{Occasion}
use wirelab_experiments.Server.App.{
  App, AppAnswer, Moment, on_network, serve_app, app_request, tick_app, sample_app, app_round,
}

abbrev pub confirm_path : Text
confirm_path = codes "/api/v1/config/confirm"

module _ (kernel : Kernel) (inet : Inet) where
  tick-restore :
      (n : Controller kernel.World)
      → IsDue kernel inet n
      → (tick kernel inet n).controller ≡ (restore kernel inet n).controller
  unfolding tick
  tick-restore n d = ground arith

  settled-not_awaiting : (s : Status) → IsSettled s → is_awaiting s ≡ false
  settled-not_awaiting s h = ground arith

  -- A method that was refused: it throws, and changes nothing.
  abbrev pub IsRefused : {A : Type 0} → Controller kernel.World → Run kernel.World A → Type 0
  IsRefused n r = (t : Text) × (r.outcome ≡ thrown (runtime_error t)) × (r.controller ≡ n)

  confirm-IsRefused :
      (n : Controller kernel.World)
      → is_awaiting n.state.status ≡ false
      → IsRefused n (confirm kernel inet n)
  unfolding confirm tick
  confirm-IsRefused n h = elim (Bool-cases n.enabled) [
    | inl e ↦ (codes "No pending configuration", ground arith, ground arith)
    | inr e ↦ (codes "Network changes disabled", ground arith, ground arith)
  ]

  module _ (json : Json) (parse_json : Text → Outcome Exception json.Value) where
    confirm_request-refused :
        (m : Moment json.Value) (body : Text) (a : App kernel inet json)
        → is_awaiting a.network.state.status ≡ false
        → (t : Text) × (app_request kernel inet json parse_json m post confirm_path body a
            ≡ (thrown (runtime_error t), a))
    unfolding app_request endpoint serve_app on_network serve_endpoint text_eq
    confirm_request-refused m body a h =
        let r = confirm-IsRefused a.network h in (r.0, rw (r.1, r.2) refl)

    tick_app-IsSettled :
        (a : App kernel inet json) (c : NetworkConfig)
        → IsDue kernel inet a.network
        → a.network.state.config ≡ some c
        → (revalidate kernel inet c a.network).outcome ≡ returned c
        → IsSettled (tick_app kernel inet json a).network.state.status
    unfolding tick_app
    tick_app-IsSettled a c d k v =
        subst (λ n. IsSettled n.state.status) (sym (tick-restore a.network d))
          (restore-IsSettled kernel inet a.network c k v)

    -- The state of a server whose next job is a request to confirm.
    abbrev pub confirming :
        Moment json.Value
        → Text
        → ℕ
        → App kernel inet json
        → List (Job (App kernel inet json) (AppAnswer json.Value))
        → List (Reply (AppAnswer json.Value))
        → Server (App kernel inet json) (AppAnswer json.Value)
    confirming m body client a rest replies = record {
      app = a;
      tasks =
          record {
            client = client;
            task = app_request kernel inet json parse_json m post confirm_path body;
          }
          ∷ rest;
      replies = replies;
    }

    -- If, with changes enabled and an acceptable configuration in the state, a round of the worker finds
    -- the deadline of a pending configuration passed and a request to confirm as the next job,
    -- whenever that was submitted, then the job is answered with 409, the other jobs stay, and the
    -- configuration is rolled back, or the status says that this failed or has begun.
    pub app_round-confirm_late :
        (o : Occasion) (m : Moment json.Value) (body : Text) (client : ℕ) (a : App kernel inet json)
        (c : NetworkConfig) (rest : List (Job (App kernel inet json) (AppAnswer json.Value)))
        (replies : List (Reply (AppAnswer json.Value)))
        → IsDue kernel inet a.network
        → a.network.state.config ≡ some c
        → (revalidate kernel inet c a.network).outcome ≡ returned c
        → let s = app_round kernel inet json o (confirming m body client a rest replies) in
          (s.tasks ≡ rest)
          × ((t : Text) × (s.replies
                ≡ replies ++ record { client = client; status = 409; body = error t } ∷ []))
          × IsSettled s.app.network.state.status
    unfolding app_round work_round serve sample_app answer
    app_round-confirm_late o m body client a c rest replies d k v =
        let a' = tick_app kernel inet json a in
        let settled = tick_app-IsSettled a c d k v in
        let r = confirm_request-refused m body a' (settled-not_awaiting _ settled) in
        (
          refl,
          (r.0, ap (λ q. replies ++ answer client q.0 ∷ []) r.1),
          subst (λ q. IsSettled q.1.network.state.status) (sym r.1) settled,
        )
