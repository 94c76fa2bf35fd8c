-- ===== src/Tests/AppRuns.antt =====
-- Runs of the application of src/server.cpp: its start, requests, a late confirmation, and samples that
-- are stored and asked for.
use wirelab_experiments.Common.{
  ℕ, ◌-◌, ◌*◌, ◌≡◌, ◌⊎◌, refl, true, false, List, [], ◌∷◌, none, some, Text, codes, Outcome,
  returned, thrown, arith,
}
use wirelab_experiments.Common.Int.{pos, signed, low_word, ◌-ℤ◌}
use wirelab_experiments.Common.Int.Sums.{◌+ℤ◌, sum_ℤ, eq_ℤ}
use wirelab_experiments.Engine.{no_counters, drain}
use wirelab_experiments.Network.Outside.{Exception, invalid_argument, runtime_error}
use wirelab_experiments.Network.Settled.{IsSettled}
use wirelab_experiments.Store.{
  Row, history, sample, record_flows, execute, insert_and_commit, insert_flows, roll_back,
  invalid_range, valid_interval,
}
use wirelab_experiments.Store.Keyed.{upsert}
use wirelab_experiments.Store.Tables.{
  Sqlite, Connection, upsert_sample, delete_before, select_range, bucket, delete_flows_before,
  order_latest, trim_flows,
}
use wirelab_experiments.Store.Tables.Statements.{
  database, effect, finish_statement, run_statement, run_query, select_sums, sample_row, add_row,
  group_row, group_rows,
}
use wirelab_experiments.Json.{config_json}
use wirelab_experiments.Server.Queue.{error}
use wirelab_experiments.Server.Routes.{get, post, endpoint, confirm_config}
use wirelab_experiments.Server.Traffic.{collect, add_packets, trim, clear}
use wirelab_experiments.Server.Sampling.{Opening, gather, publish}
use wirelab_experiments.Server.Sampling.Stored.{
  flow_rows, store_sample, publish_if_due, sample_and_store,
}
use wirelab_experiments.Server.Sampling.Stored.Deposits.{
  Deposit, IsGrowing, deposit_all, history-deposit_all,
}
use wirelab_experiments.Server.App.{App, Moment, app_request, app_round}
use wirelab_experiments.Server.App.Late.{confirming, app_round-confirm_late}
use wirelab_experiments.Server.App.Opened.{Opened}
use wirelab_experiments.Network.Unconfirmed.{Unconfirmed}
use wirelab_experiments.Server.App.Confirmed.{IsInTime, app_request-Unconfirmed}
use wirelab_experiments.Server.App.Requests.{app_request-get-same}
use wirelab_experiments.Tests.Samples.{small_inet, lab_config}
use wirelab_experiments.Tests.ConfigRuns.{lab_config-valid}
use wirelab_experiments.Tests.JsonRuns.{Value, small_json}
use wirelab_experiments.Tests.NetworkRuns.{willing_kernel, waiting_at, revalidate-returned}
use wirelab_experiments.Tests.RuntimeRuns.{captures, no_packets, at_time}

abbrev opening : Opening
opening = record {
  source = returned tt;
  halted = no_packets;
  occasion = at_time 5 4;
  spawned = true;
  reason = [];
  put = returned tt;
  now = 5;
}

-- The source is refused.
abbrev refused_opening : Opening
refused_opening = record opening { source = thrown (runtime_error (codes "No such device")) }

abbrev parse_lab : Text → Outcome Exception Value
parse_lab body = returned (config_json small_json lab_config)

abbrev moment : Moment Value
moment = record {
  opening = opening;
  halted = no_packets;
  occasion = at_time 5 4;
  put = returned tt;
  fetched = thrown (invalid_argument []);
}

abbrev overdue : App (willing_kernel (returned tt)) small_inet small_json
overdue = record { runtime = captures; network = waiting_at 100 }

app_request-get-same_example :
    (app_request
      (willing_kernel (returned tt))
      small_inet
      small_json
      parse_lab
      moment
      get
      (codes "/api/v1/status")
      []
      overdue).1
    ≡ overdue
app_request-get-same_example =
    app_request-get-same (willing_kernel (returned tt)) small_inet small_json parse_lab moment
      (codes "/api/v1/status") [] overdue

app_round-confirm_late_example :
    let s = app_round (willing_kernel (returned tt)) small_inet small_json (at_time 5 4) (
      confirming
        (willing_kernel (returned tt))
        small_inet
        small_json
        parse_lab
        moment
        []
        1
        overdue
        []
        []) in
    (s.tasks ≡ [])
    × ((t : Text) × (s.replies ≡ record { client = 1; status = 409; body = error t } ∷ []))
    × IsSettled s.app.network.state.status
app_round-confirm_late_example =
    app_round-confirm_late (willing_kernel (returned tt)) small_inet small_json parse_lab
      (at_time 5 4) moment [] 1 overdue lab_config [] [] (refl, refl, omega arith) refl
      (revalidate-returned (willing_kernel (returned tt)) small_inet lab_config (waiting_at 100)
        lab_config-valid)

abbrev free_sqlite : Sqlite
free_sqlite = record {
  Host = Unit {0};
  refuses = λ s h. (none, h);
  now = λ h. 700_000;
  extract = λ name details. pos 0;
  left = λ h t. t;
}

abbrev empty_store : Connection (Unit {0})
empty_store = record {
  tables = record { settings = []; samples = []; flows = [] };
  begun = none;
  host = tt;
}

abbrev deposit_at : ℕ → ℕ → ℕ → Deposit
deposit_at now ts packets = record {
  engine = no_packets;
  force = false;
  now = now;
  ts = pos ts;
  counters = record no_counters { packets = packets; wire_bytes = packets * 100 };
}

-- The second comes too early.
abbrev deposits : List Deposit
deposits =
    deposit_at 2_000_000_000 700_000 7
    ∷ deposit_at 2_100_000_000 700_000 9
    ∷ deposit_at 4_000_000_000 700_002 12
    ∷ []

abbrev row_of_nine : Row
row_of_nine = record {
  timestamp = pos 699_960;
  packets = pos 9;
  bytes = pos 900;
  samples = pos 2;
  tcp = pos 0;
  udp = pos 0;
  icmp = pos 0;
  other = pos 0;
}

deposits-IsGrowing : IsGrowing (pos 699_000) (pos 700_100) 3 deposits
unfolding ◌-ℤ◌ signed low_word
deposits-IsGrowing = (
  omega arith,
  omega arith,
  omega arith,
  (omega arith, omega arith),
  (
    omega arith,
    omega arith,
    omega arith,
    (omega arith, omega arith),
    (omega arith, omega arith, omega arith, (omega arith, omega arith), tt),
  ),
)

deposits-history :
    (history
      (database free_sqlite)
      (pos 699_000)
      (pos 700_100)
      60
      (deposit_all free_sqlite (λ m. []) (λ f. []) deposits (captures, empty_store)).1).outcome
    ≡ returned (row_of_nine ∷ [])
unfolding deposit_all sample_and_store publish_if_due publish gather drain collect add_packets trim
    store_sample flow_rows sample record_flows execute insert_and_commit insert_flows roll_back
    run_statement finish_statement effect upsert_sample upsert delete_before trim_flows order_latest
    delete_flows_before history invalid_range valid_interval ◌-ℤ◌ signed low_word run_query
    select_sums group_rows group_row sample_row add_row ◌+ℤ◌ eq_ℤ select_range bucket clear
deposits-history = refl

history-deposit_all_example :
    sum_ℤ (λ r. r.packets) (row_of_nine ∷ [])
    ≡ pos (
        (deposit_all free_sqlite
          (λ m. [])
          (λ f. [])
          deposits
          (captures, empty_store)).0.previous_packets
        - 3)
history-deposit_all_example =
    history-deposit_all free_sqlite (λ m. []) (λ f. []) (pos 699_000) (pos 700_100) 60 3 deposits
      captures empty_store (row_of_nine ∷ []) (λ s h. refl) deposits-IsGrowing (omega arith) refl
      refl deposits-history (omega arith)

app_request-Unconfirmed_example :
    Unconfirmed
      (app_request
        (willing_kernel (returned tt))
        small_inet
        small_json
        parse_lab
        moment
        post
        (codes "/api/v1/config/rollback")
        []
        overdue).1.network
    ⊎ ((endpoint post (codes "/api/v1/config/rollback") ≡ some confirm_config)
        × IsInTime (willing_kernel (returned tt)) small_inet (waiting_at 100))
app_request-Unconfirmed_example =
    app_request-Unconfirmed (willing_kernel (returned tt)) small_inet small_json parse_lab moment
      post (codes "/api/v1/config/rollback") [] overdue refl
