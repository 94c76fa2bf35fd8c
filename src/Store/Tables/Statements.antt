-- ===== src/Store/Tables/Statements.antt =====
-- The statements of src/store.cpp on its tables, and the database that they make.
use wirelab_experiments.Common.{
  ℕ, List, [], ◌∷◌, Option, none, some, Text, codes, text_eq, take, if◌then◌else◌, Outcome,
  returned, thrown,
}
use wirelab_experiments.Common.Int.{ℤ, pos, ltb_ℤ}
use wirelab_experiments.Common.Int.Sums.{◌+ℤ◌, eq_ℤ}
use wirelab_experiments.Network.Outside.{Exception}
use wirelab_experiments.Store.{
  Statement, put_setting, get_setting, add_sample, delete_samples_before, sum_samples,
  begin_immediate, add_flow, trim_flows_and_commit, rollback, latest_flows, Row, Database,
}
use wirelab_experiments.Store.Keyed.{lookup, upsert}
use wirelab_experiments.Store.Tables.{
  Sample, Tables, Refusal, Sqlite, Connection, upsert_sample, upsert_flow, delete_before,
  select_range, bucket, trim_flows, select_latest,
}

module _ (sqlite : Sqlite) where
  -- One row of the answer for one sample, and the sample in the row of its group.
  unfoldable pub sample_row : ℤ → Sample → Row
  sample_row start s = record {
    timestamp = start;
    packets = s.packets;
    bytes = s.bytes;
    samples = pos 1;
    tcp = sqlite.extract (codes "tcp") s.details;
    udp = sqlite.extract (codes "udp") s.details;
    icmp = sqlite.extract (codes "icmp") s.details;
    other = sqlite.extract (codes "other") s.details;
  }

  unfoldable pub add_row : Row → Row → Row
  add_row a b = record {
    timestamp = b.timestamp;
    packets = a.packets +ℤ b.packets;
    bytes = a.bytes +ℤ b.bytes;
    samples = a.samples +ℤ b.samples;
    tcp = a.tcp +ℤ b.tcp;
    udp = a.udp +ℤ b.udp;
    icmp = a.icmp +ℤ b.icmp;
    other = a.other +ℤ b.other;
  }

  -- `GROUP BY 1 ORDER BY 1`
  unfoldable pub group_row : Row → List Row → List Row
  group_row a [] = a ∷ []
  group_row a (b ∷ rows) =
      let rest = group_row a rows in
      if eq_ℤ a.timestamp b.timestamp
      then add_row a b ∷ rows
      else if ltb_ℤ a.timestamp b.timestamp
      then a ∷ b ∷ rows
      else b ∷ rest

  unfoldable pub group_rows : ℕ → List (ℤ × Sample) → List Row
  group_rows interval [] = []
  group_rows interval ((ts, s) ∷ rows) =
      group_row (sample_row (bucket interval ts) s) (group_rows interval rows)

  unfoldable pub select_sums : ℕ → ℤ → ℤ → List (ℤ × Sample) → List Row
  select_sums interval from to rows = take 1000 (group_rows interval (select_range from to rows))

  -- What a statement that is not refused does.
  unfoldable pub effect : Statement → Connection sqlite.Host → Connection sqlite.Host
  effect (put_setting key value) c =
      let t = c.tables in
      record c { tables = record t { settings = upsert text_eq key value (λ _. value) t.settings } }
  effect (add_sample ts packets bytes details) c =
      let t = c.tables in
      record c { tables = record t { samples = upsert_sample ts packets bytes details t.samples } }
  effect (delete_samples_before limit) c =
      let t = c.tables in record c { tables = record t { samples = delete_before limit t.samples } }
  effect begin_immediate c = record c { begun = some c.tables }
  effect (add_flow key first_seen last_seen packets bytes metadata) c =
      let t = c.tables in
      record c {
        tables = record t {
          flows = upsert_flow key first_seen last_seen packets bytes metadata t.flows;
        };
      }
  effect trim_flows_and_commit c =
      let t = c.tables in
      record c {
        tables = record t { flows = trim_flows (sqlite.now c.host) t.flows };
        begun = none;
      }
  effect s c = c

  -- The open transaction taken back, if there is one.
  unfoldable pub undone : Connection sqlite.Host → Connection sqlite.Host
  undone c = elim c.begun [ none ↦ c | some t ↦ record c { tables = t; begun = none } ]

  -- What a refused statement leaves. Of one statement nothing is left.
  unfoldable pub partial : Statement → Connection sqlite.Host → Connection sqlite.Host
  partial trim_flows_and_commit c = record c { tables = sqlite.left c.host c.tables }
  partial s c = c

  unfoldable pub finish_statement :
      Statement
      → Connection sqlite.Host
      → Option Refusal
      → Outcome Exception (Unit {0}) × Connection sqlite.Host
  finish_statement s c none = (returned tt, effect s c)
  finish_statement s c (some x) =
      (thrown x.error, if x.ends_transaction then undone c else partial s c)

  -- A ROLLBACK that is refused finds its transaction taken back already.
  unfoldable pub run_statement :
      Statement → Connection sqlite.Host → Outcome Exception (Unit {0}) × Connection sqlite.Host
  run_statement rollback c =
      let r = sqlite.refuses rollback c.host in
      (elim r.0 [ none ↦ returned tt | some x ↦ thrown x.error ], undone (record c { host = r.1 }))
  run_statement s c =
      let r = sqlite.refuses s c.host in finish_statement s (record c { host = r.1 }) r.0

  -- A SELECT, with its answer from the tables.
  unfoldable pub run_query :
      {A : Type 0}
      → Statement
      → (Tables → A)
      → Connection sqlite.Host
      → Outcome Exception A × Connection sqlite.Host
  run_query s answer c =
      let r = sqlite.refuses s c.host in
      (
        elim r.0 [ none ↦ returned (answer c.tables) | some x ↦ thrown x.error ],
        record c { host = r.1 },
      )

  unfoldable pub select_setting : Text → Tables → List Text
  select_setting key t = elim (lookup text_eq key t.settings) [
    | none ↦ []
    | some value ↦ value ∷ []
  ]

  abbrev pub database : Database
  database = record {
    World = Connection sqlite.Host;
    execute = run_statement;
    setting = λ key. run_query (get_setting key) (select_setting key);
    sums = λ interval from to.
        run_query (sum_samples interval from to) (λ t. select_sums interval from to t.samples);
    flows = run_query latest_flows (λ t. select_latest t.flows);
  }
