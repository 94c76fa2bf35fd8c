-- ===== src/Tests/TableRuns.antt =====
-- Runs of src/store.cpp on its tables.
use wirelab_experiments.Common.{
  ℕ, zero, suc, ◌≡◌, ◌⊎◌, ◌≤◌, refl, true, List, [], ◌∷◌, Option, none, some, Text, codes, text_eq,
  text_eq-false_iff, Outcome, returned, length, if◌then◌else◌,
}
use wirelab_experiments.Common.Int.{ℤ, pos, signed, low_word, ◌-ℤ◌, ◌≤ℤ◌, ◌<ℤ◌}
use wirelab_experiments.Network.Outside.{Exception, runtime_error}
use wirelab_experiments.Store.{
  Statement, get_setting, Row, FlowRow, Summary, execute, put, get, sample, history, insert_flow,
  insert_flows, insert_and_commit, roll_back, record_flows, invalid_range, valid_interval,
}
use wirelab_experiments.Store.Keyed.{upsert}
use wirelab_experiments.Store.Tables.{
  Sample, Tables, Refusal, Sqlite, Connection, upsert_sample, delete_before, select_range, bucket,
}
use wirelab_experiments.Store.Tables.Statements.{
  database, effect, finish_statement, run_statement, run_query, select_sums, sample_row, group_row,
  group_rows,
}
use wirelab_experiments.Store.Tables.Atomic.{Atomic, record_flows-Atomic}
use wirelab_experiments.Store.Tables.Keys.{HasKeys}
use wirelab_experiments.Store.Tables.Totals.{Recorded, record_flows-Recorded}
use wirelab_experiments.Store.Tables.Values.{Sampled, get-put, sample-Sampled}
use mathlib.Core.List.{Memᴰ}
use wirelab_experiments.Store.Tables.Rows.{IsAscending, HasRow, Before}
use wirelab_experiments.Store.Tables.Buckets.{IsSum}
use wirelab_experiments.Store.Tables.Sums.{BucketStart, history-Sums}

-- Refuses once it has run out of room, and then ends the transaction.
abbrev room_for : Statement → ℕ → Option Refusal × ℕ
room_for s zero =
    (some (record { error = runtime_error (codes "full"); ends_transaction = true }), 0)
room_for s (suc n) = (none, n)

abbrev pub small_sqlite : Sqlite
small_sqlite = record {
  Host = ℕ;
  refuses = room_for;
  now = λ h. 1_000_000;
  extract = λ name details. pos 1;
  left = λ h t. t;
}

abbrev empty_tables : Tables
empty_tables = record { settings = []; samples = []; flows = [] }

abbrev connected : ℕ → Connection ℕ
connected room = record { tables = empty_tables; begun = none; host = room }

abbrev flow_at : ℤ → FlowRow
flow_at ts = record {
  key = codes "eth0|a|b";
  first_seen = ts;
  timestamp_ms = ts;
  packets = pos 2;
  bytes = pos 200;
  metadata = codes "{}";
}

abbrev seen_at : ℤ → Summary
seen_at ts = record {
  first_seen = ts;
  last_seen = ts;
  packets = pos 5;
  bytes = pos 500;
  metadata = codes "{}";
}

abbrev two_flows : List FlowRow
two_flows = flow_at (pos 900_000_000) ∷ flow_at (pos 900_001_000) ∷ []

-- The second flow is refused, and the ROLLBACK too.
record_flows-Atomic_example :
    let r = record_flows (database small_sqlite) two_flows (connected 2) in
    Atomic small_sqlite two_flows empty_tables r.outcome r.state
record_flows-Atomic_example = record_flows-Atomic small_sqlite two_flows (connected 2) refl

-- The table knows the flow already, and another one that is too old.
abbrev known_flows : Connection ℕ
known_flows = record {
  tables = record empty_tables {
    flows =
        (codes "eth0|a|b", seen_at (pos 899_000_000))
        ∷ (codes "eth0|c|d", seen_at (pos 1_000))
        ∷ [];
  };
  begun = none;
  host = 9;
}

two_flows-recorded :
    (record_flows (database small_sqlite) two_flows known_flows).outcome ≡ returned tt
unfolding record_flows execute insert_and_commit insert_flows insert_flow roll_back run_statement
    finish_statement effect
two_flows-recorded = refl

known_flows-HasKeys : HasKeys known_flows.tables.flows
unfolding text_eq
known_flows-HasKeys =
    (((text_eq-false_iff (codes "eth0|c|d") (codes "eth0|a|b")).0 refl, tt), (tt, tt))

record_flows-Recorded_example :
    let r = record_flows (database small_sqlite) two_flows known_flows in
    Recorded 1_000_000 two_flows known_flows.tables r.state.tables
record_flows-Recorded_example =
    record_flows-Recorded small_sqlite two_flows known_flows refl known_flows-HasKeys
      two_flows-recorded

abbrev parse_length : Text → Outcome Exception ℕ
parse_length text = returned (length text)

abbrev setting : Text
setting = codes "capture_interface"

setting-put :
    (put (database small_sqlite) setting (codes "eth0") (connected 5)).outcome ≡ returned tt
unfolding put execute run_statement finish_statement
setting-put = refl

setting-readable :
    (room_for
      (get_setting setting)
      (put (database small_sqlite) setting (codes "eth0") (connected 5)).state.host).0
    ≡ none
unfolding put execute run_statement finish_statement effect
setting-readable = refl

get-put_example :
    (get
      (database small_sqlite)
      parse_length
      0
      setting
      (put (database small_sqlite) setting (codes "eth0") (connected 5)).state).outcome
    ≡ (if text_eq setting setting
        then returned 4
        else (get (database small_sqlite) parse_length 0 setting (connected 5)).outcome)
get-put_example =
    get-put small_sqlite parse_length 0 setting setting (codes "eth0") (connected 5) setting-put
      setting-readable refl

abbrev sampled : Connection ℕ
sampled = (sample (database small_sqlite) (pos 700_000) 4 400 (codes "{}") (connected 9)).state

sample-runs :
    (sample (database small_sqlite) (pos 700_000) 4 400 (codes "{}") (connected 9)).outcome
    ≡ returned tt
unfolding sample execute run_statement finish_statement effect
sample-runs = refl

sample-Sampled_example :
    (sampled.tables.settings ≡ [])
    × (sampled.tables.flows ≡ [])
    × Sampled (pos 700_000) 4 400 (codes "{}") [] sampled.tables.samples
sample-Sampled_example =
    sample-Sampled small_sqlite (pos 700_000) 4 400 (codes "{}") (connected 9) sample-runs

-- The row of its minute.
abbrev minute_row : Row
minute_row = record {
  timestamp = pos 699_960;
  packets = pos 4;
  bytes = pos 400;
  samples = pos 1;
  tcp = pos 1;
  udp = pos 1;
  icmp = pos 1;
  other = pos 1;
}

history-runs :
    (history (database small_sqlite) (pos 699_000) (pos 700_100) 60 sampled).outcome
    ≡ returned (minute_row ∷ [])
unfolding history invalid_range valid_interval ◌-ℤ◌ signed low_word run_query select_sums group_rows
    group_row sample_row select_range bucket sample execute run_statement finish_statement effect
    upsert_sample upsert delete_before
history-runs = refl

history-Sums_example :
    (length (minute_row ∷ []) ≤ 1000)
    × IsAscending (minute_row ∷ [])
    × ((x : ℤ × Sample)
        → Memᴰ x sampled.tables.samples
        → pos 699_000 ≤ℤ x.0
        → x.0 <ℤ pos 700_100
        → HasRow (bucket 60 x.0) (minute_row ∷ [])
          ⊎ ((length (minute_row ∷ []) ≡ 1000) × Before (bucket 60 x.0) (minute_row ∷ [])))
    × ((r : Row)
        → Memᴰ r (minute_row ∷ [])
        → IsSum small_sqlite (pos 699_000) (pos 700_100) 60 sampled.tables.samples r)
    × ((n : ℕ) → BucketStart 60 n)
history-Sums_example =
    history-Sums small_sqlite (pos 699_000) (pos 700_100) 60 sampled (minute_row ∷ []) history-runs
