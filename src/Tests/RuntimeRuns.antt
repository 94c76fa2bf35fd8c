-- ===== src/Tests/RuntimeRuns.antt =====
-- Runs of the routes, the sampling and the start of src/server.cpp, and of `install`.
use wirelab_experiments.Common.{
  ℕ, ◌+◌, ◌*◌, ◌≤◌, ◌≡◌, ◌≢◌, refl, true, false, List, [], ◌∷◌, ◌++◌, none, some, Text, codes,
  length, Outcome, returned, thrown, text_eq,
}
use wirelab_experiments.Engine.{Engine, no_counters, absent, create, start, drain}
use wirelab_experiments.Engine.System.{System, here, next, starts, fresh_system}
use wirelab_experiments.Network.Outside.{Exception, invalid_argument}
use wirelab_experiments.Network.Install.{install}
use wirelab_experiments.Network.Exposure.{GuardFirst, install-GuardFirst}
use wirelab_experiments.Json.{config_json}
use wirelab_experiments.Server.Routes.{Endpoint, put, request}
use wirelab_experiments.Server.Routes.Apply.{Put, request-put-Put}
use wirelab_experiments.Server.Sampling.{Runtime, Occasion, measure, end_capture}
use wirelab_experiments.Server.Sampling.Totals.{Visit}
use wirelab_experiments.Server.Sampling.Empties.{end_capture_complete}
use wirelab_experiments.Server.Startup.{
  Host, run_appliance, is_private, private_file, handle_request,
}
use wirelab_experiments.Server.Startup.Guarded.{IsPrivate, run_appliance-guards}
use wirelab_experiments.Server.Token.{
  Request, IsSameOrigin, admitted, valid_origin, token_equal, differences,
}
use wirelab_experiments.Server.Queue.{Job, Server, submit}
use wirelab_experiments.Server.Traffic.{collect}
use wirelab_experiments.Capture.{starts_with}
use wirelab_experiments.Tests.Samples.{small_inet, lab_config}
use wirelab_experiments.Tests.JsonRuns.{Value, small_json}
use wirelab_experiments.Tests.NetworkRuns.{willing_kernel, waiting_at}

-- Any body reads as the configuration of the laboratory, and no other endpoint answers.
abbrev parse_lab : Text → Outcome Exception Value
parse_lab body = returned (config_json small_json lab_config)

abbrev no_answer : Endpoint → Outcome Exception Value
no_answer e = thrown (invalid_argument [])

request-put-Put_example :
    Put
      (willing_kernel (returned tt))
      small_inet
      small_json
      parse_lab
      no_answer
      []
      5
      (request
        (willing_kernel (returned tt))
        small_inet
        small_json
        parse_lab
        no_answer
        put
        (codes "/api/v1/config")
        []
        (waiting_at 5)).log
request-put-Put_example =
    request-put-Put (willing_kernel (returned tt)) small_inet small_json parse_lab no_answer
      (codes "/api/v1/config") [] (waiting_at 5)

install-GuardFirst_example :
    GuardFirst
      (willing_kernel (returned tt))
      small_inet
      lab_config
      (install (willing_kernel (returned tt)) small_inet lab_config (waiting_at 5)).log
install-GuardFirst_example =
    install-GuardFirst (willing_kernel (returned tt)) small_inet lab_config (waiting_at 5)

abbrev pub no_packets : Engine
no_packets = record {
  capacity = 8192;
  queue = [];
  counters = no_counters;
  started = false;
  worker = absent;
  stop_requested = false;
}

no_packets-create : create true 8192 ≡ returned no_packets
unfolding create
no_packets-create = refl

abbrev pub captures : Runtime
captures = record {
  engine = some no_packets;
  capture_interface = codes "eth0";
  capture_error = [];
  storage_error = [];
  metrics = none;
  traffic = record {
    flows = [];
    protocols = [];
    talkers = [];
    recent = [];
    flows_omitted = 0;
    talkers_omitted = 0;
  };
  previous_packets = 3;
  previous_bytes = 300;
  last_sample = 0;
}

-- The counters of a later sample.
abbrev pub at_time : ℕ → ℕ → Occasion
at_time now packets = record {
  force = false;
  now = now;
  counters = record no_counters { packets = packets; wire_bytes = packets * 100 };
  stored = returned tt;
}

abbrev pub started_system : System
started_system = record (fresh_system no_packets) { engine = (start true no_packets).0 }

end_capture_complete_example :
    let ended = end_capture started_system.engine (at_time 5 4) captures in
    let traffic = collect captures.capture_interface started_system.engine.queue captures.traffic in
    (ended.engine ≡ some (record (started_system.engine) { queue = [] }))
    × (length started_system.polled
        ≡ length (started_system.delivered ++ (drain 8192 started_system.engine).0)
          + started_system.lost)
    × (ended.metrics
        ≡ some (measure 5 (at_time 5 4).counters (record captures { traffic = traffic })))
    × (ended.previous_packets ≡ 4)
    × (ended.previous_bytes ≡ 400)
end_capture_complete_example =
    end_capture_complete no_packets (at_time 5 4) captures no_packets-create
      (next here (starts true refl)) refl

-- Two samples that are due, and between them one that is not.
abbrev visits : List Visit
visits =
    record { engine = no_packets; occasion = at_time 2_000_000_000 7 }
    ∷ record { engine = no_packets; occasion = at_time 2_100_000_000 9 }
    ∷ record { engine = no_packets; occasion = at_time 4_000_000_000 12 }
    ∷ []

abbrev long_token : Text
long_token = codes "0123456789abcdef0123456789abcdef"

-- A file of mode 0600.
abbrev ready_host : Host
ready_host = record {
  status = some 0x8180;
  first_line = long_token;
  lock_opened = true;
  locked = true;
  has_index = true;
}

abbrev page_request : Request
page_request = record {
  origin = [];
  host = codes "box";
  authorization = codes "Bearer " ++ long_token;
}

abbrev idle_server : Server ℕ ℕ
idle_server = record { app = 0; tasks = []; replies = [] }

abbrev pub read_job : Job ℕ ℕ
read_job = record { client = 1; task = λ n. (returned n, n) }

ready_host-runs : run_appliance ready_host ≡ returned long_token
unfolding run_appliance is_private private_file
ready_host-runs = refl

page_request-queued : (handle_request long_token page_request read_job idle_server).tasks ≢ []
unfolding handle_request admitted valid_origin token_equal differences submit starts_with text_eq
page_request-queued = λ e. cc

run_appliance-guards_example :
    ((mode : ℕ) × (some 0x8180 ≡ some mode) × IsPrivate mode)
    × ((long_token ≡ long_token)
        × (32 ≤ length long_token)
        × (length long_token ≤ 256)
        × (true ≡ true))
    × IsSameOrigin page_request
    × (page_request.authorization ≡ codes "Bearer " ++ long_token)
run_appliance-guards_example =
    run_appliance-guards ready_host long_token page_request read_job idle_server ready_host-runs
      page_request-queued
