-- ===== src/Tests/ServerRuns.antt =====
-- Runs of src/server.cpp.
use wirelab_experiments.Common.{
  ℕ, ◌+◌, ◌≤◌, ◌≡◌, ◌↔◌, true, List, [], ◌∷◌, ◌++◌, codes, length, returned, arith,
}
use wirelab_experiments.Tests.Samples.{query_packet, reply_packet}
use wirelab_experiments.Server.Token.{Request, admitted, admitted_iff, IsSameOrigin}
use wirelab_experiments.Server.Queue.{
  Job, Server, Event, submits, works, run, accepted, served, waiting, run-in_order,
}
use wirelab_experiments.Server.Traffic.{Traffic, collect}
use wirelab_experiments.Server.Traffic.Sums.{IsBounded, collect-IsBounded}

abbrev page_request : Request
page_request = record {
  origin = codes "http://box";
  host = codes "box";
  authorization = codes "Bearer secret";
}

admitted_iff_example :
    (admitted (codes "secret") page_request ≡ true)
    ↔ (IsSameOrigin page_request × (page_request.authorization ≡ codes "Bearer " ++ codes "secret"))
admitted_iff_example = admitted_iff (codes "secret") page_request

abbrev no_traffic : Traffic
no_traffic = record {
  flows = [];
  protocols = [];
  talkers = [];
  recent = [];
  flows_omitted = 0;
  talkers_omitted = 0;
}

collect-IsBounded_example :
    IsBounded (collect (codes "eth0") (query_packet ∷ reply_packet ∷ []) no_traffic)
    × (length (collect (codes "eth0") (query_packet ∷ reply_packet ∷ []) no_traffic).recent ≤ 200)
collect-IsBounded_example =
    collect-IsBounded (codes "eth0") (query_packet ∷ reply_packet ∷ []) no_traffic
      (record { flows = omega arith; talkers = omega arith })

abbrev count_job : ℕ → Job ℕ ℕ
count_job client = record { client = client; task = λ n. (returned n, n + 1) }

abbrev events : List (Event ℕ ℕ)
events = submits (count_job 1) ∷ submits (count_job 2) ∷ works ∷ submits (count_job 3) ∷ []

run-in_order_example :
    let s : Server ℕ ℕ = record { app = 0; tasks = []; replies = [] } in
    (length (run (λ n. n) (λ n. n) events s).tasks ≤ 64)
    × (served (run (λ n. n) (λ n. n) events s).replies
          ++ waiting (run (λ n. n) (λ n. n) events s).tasks
        ≡ accepted (λ n. n) (λ n. n) events s)
run-in_order_example = run-in_order (λ n. n) (λ n. n) events 0
