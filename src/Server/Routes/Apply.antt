-- ===== src/Server/Routes/Apply.antt =====
-- The path of a new configuration in src/server.cpp, src/json.cpp and src/network.cpp: what a PUT
-- request has passed before the network is touched.
use wirelab_experiments.Common.{
  ◌≡◌, ◌⊎◌, inl, inr, refl, sym, subst, false, List, [], append-nil, some, Option-cases, Text,
  Outcome, returned, thrown, arith,
}
use wirelab_experiments.Inet.{Inet}
use wirelab_experiments.Config.{NetworkConfig}
use wirelab_experiments.Config.Accepted.{IsAcceptable}
use wirelab_experiments.Network.Outside.{Exception, Kernel, Controller, Event, after, ◌>>◌}
use wirelab_experiments.Network.{apply}
use wirelab_experiments.Network.Journal.{JournalFirst, apply-JournalFirst}
use wirelab_experiments.Json.{Json, config_from_json}
use wirelab_experiments.Json.RoundTrip.{config_from_json-IsAcceptable}
use wirelab_experiments.Server.Routes.{
  put, Endpoint, put_config, endpoint, answer_state, body_config, lift, serve_endpoint, request,
}
use wirelab_experiments.Server.Routes.Queries.{changes_network, serve_endpoint-Untouched}

endpoint-put :
    (path : Text) (e : Endpoint)
    → endpoint put path ≡ some e
    → (e ≡ put_config) ⊎ (changes_network e ≡ false)
unfolding endpoint
endpoint-put path e h = ground arith

module _ (kernel : Kernel) (inet : Inet) (json : Json)
    (parse_json : Text → Outcome Exception json.Value)
    (other : Endpoint → Outcome Exception json.Value) where
  -- How a request for a new configuration went: refused with nothing asked of the network, or
  -- accepted, with a journal of that configuration first.
  pub data Put (body : Text) (w : kernel.World) (log : List Event) : Type 0 where
    refused : log ≡ [] → Put body w log
    accepted :
        (v : json.Value) (c : NetworkConfig)
        → parse_json body ≡ returned v
        → config_from_json json inet v ≡ returned c
        → IsAcceptable inet c
        → JournalFirst kernel inet c w log
        → Put body w log

  then_answer_log :
      (n : Controller kernel.World) (log : List Event) (o : Outcome Exception (Unit {0}))
      → (after (λ _. answer_state kernel inet json) n log o).log ≡ log
  unfolding answer_state
  then_answer_log n log (returned u) = append-nil log
  then_answer_log n log (thrown e) = refl

  put_read :
      (body : Text) (v : json.Value) (n : Controller kernel.World)
      (o : Outcome Exception NetworkConfig)
      → parse_json body ≡ returned v
      → config_from_json json inet v ≡ o
      → Put body n.world
          (after (λ c. apply kernel inet c >> answer_state kernel inet json) n [] o).log
  put_read body v n (thrown e) p q = refused refl
  put_read body v n (returned c) p q =
      let r = apply kernel inet c n in
      accepted v c p q (config_from_json-IsAcceptable json inet v c q) (
        subst (JournalFirst kernel inet c n.world)
          (sym (then_answer_log r.controller r.log r.outcome)) (apply-JournalFirst kernel inet c n))

  put_parsed :
      (body : Text) (n : Controller kernel.World) (o : Outcome Exception json.Value)
      → parse_json body ≡ o
      → let r = after (λ v. lift kernel inet json (config_from_json json inet v)) n [] o in
        Put body n.world
          (after
            (λ c. apply kernel inet c >> answer_state kernel inet json)
            r.controller
            r.log
            r.outcome).log
  put_parsed body n (thrown e) p = refused refl
  put_parsed body n (returned v) p = put_read body v n (config_from_json json inet v) p refl

  serve_endpoint-Put :
      (body : Text) (n : Controller kernel.World)
      → Put body n.world (serve_endpoint kernel inet json parse_json other put_config body n).log
  unfolding serve_endpoint body_config
  serve_endpoint-Put body n = put_parsed body n (parse_json body) refl

  -- Whatever a PUT request says, either it asks for no change of the network; or its body was read as
  -- an acceptable configuration, and the first change that it asks for is to store the journal of
  -- that configuration.
  pub request-put-Put :
      (path body : Text) (n : Controller kernel.World)
      → Put body n.world (request kernel inet json parse_json other put path body n).log
  unfolding request
  request-put-Put path body n = elim (Option-cases (endpoint put path)) [
    | inl e ↦ rw (e, request) (refused refl)
    | inr (p, e) ↦
        rw (e, request)
          (elim (endpoint-put path p e) [
            | inl q ↦ rw q (serve_endpoint-Put body n)
            | inr q ↦
                refused (serve_endpoint-Untouched kernel inet json parse_json other p body n q).0
          ])
  ]
