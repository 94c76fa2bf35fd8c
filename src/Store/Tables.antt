-- ===== src/Store/Tables.antt =====
-- The tables of src/store.cpp and what its statements, which are texts in SQL there, say of them. What
-- the texts leave to SQLite and to the host is the parameter `Sqlite`: which statement is refused, and
-- whether that ends the transaction; the time that `strftime('%s','now')` gives; and the number that
-- `COALESCE(json_extract(details,'$.protocols.<name>'),0)` adds to a sum. Numbers are integers without
-- a bound here.
pub mod Statements
pub mod Rows
pub mod Kept
pub mod Totals
pub mod Latest
pub mod Keys
pub mod Buckets
pub mod Sums
pub mod Values
pub mod Atomic
use wirelab_experiments.Common.{
  ℕ, zero, suc, ◌+◌, ◌-◌, ◌*◌, ◌/◌, Bool, true, false, not, ◌&&◌, List, [], ◌∷◌, Option, none, some,
  Text, codes, text_eq, take, if◌then◌else◌, Outcome, returned, thrown,
}
use wirelab_experiments.Common.Int.{ℤ, pos, negsuc, leb_ℤ, ltb_ℤ, ◌-ℤ◌}
use wirelab_experiments.Common.Int.Sums.{◌+ℤ◌, eq_ℤ}
use wirelab_experiments.Network.Outside.{Exception}
use wirelab_experiments.Store.{
  Statement, put_setting, get_setting, add_sample, delete_samples_before, sum_samples,
  begin_immediate, add_flow, trim_flows_and_commit, rollback, latest_flows, Row, Summary, Database,
  week,
}
use wirelab_experiments.Store.Keyed.{lookup, upsert}

-- The columns but the key.
pub record Sample : Type 0 where
  pub packets : ℤ
  pub bytes : ℤ
  pub details : Text

pub record Tables : Type 0 where
  pub settings : List (Text × Text)
  pub samples : List (ℤ × Sample)
  pub flows : List (Text × Summary)

-- An error, and whether SQLite has rolled the transaction back with it.
pub record Refusal : Type 0 where
  pub error : Exception
  pub ends_transaction : Bool

pub record Sqlite : Type 1 where
  pub Host : Type 0
  pub refuses : Statement → Host → Option Refusal × Host
  pub now : Host → ℕ
  pub extract : Text → Text → ℤ
  -- What is left in the open transaction of a text of several statements that stopped on the way.
  pub left : Host → Tables → Tables

-- `begun` is what the tables were when the open transaction began.
pub record Connection (H : Type 0) : Type 0 where
  pub tables : Tables
  pub begun : Option Tables
  pub host : H

unfoldable pub upsert_sample : ℤ → ℤ → ℤ → Text → List (ℤ × Sample) → List (ℤ × Sample)
upsert_sample ts packets bytes details =
    upsert eq_ℤ ts (record { packets = packets; bytes = bytes; details = details })
      λ s. record { packets = s.packets +ℤ packets; bytes = s.bytes +ℤ bytes; details = details }

unfoldable pub upsert_flow :
    Text → ℤ → ℤ → ℤ → ℤ → Text → List (Text × Summary) → List (Text × Summary)
upsert_flow key first_seen last_seen packets bytes metadata =
    upsert text_eq key
      (record {
        first_seen = first_seen;
        last_seen = last_seen;
        packets = packets;
        bytes = bytes;
        metadata = metadata;
      })
      λ f. record {
        first_seen = f.first_seen;
        last_seen = last_seen;
        packets = f.packets +ℤ packets;
        bytes = f.bytes +ℤ bytes;
        metadata = metadata;
      }

unfoldable pub delete_before : ℤ → List (ℤ × Sample) → List (ℤ × Sample)
delete_before limit [] = []
delete_before limit ((ts, s) ∷ rows) =
    let rest = delete_before limit rows in if ltb_ℤ ts limit then rest else (ts, s) ∷ rest

unfoldable pub select_range : ℤ → ℤ → List (ℤ × Sample) → List (ℤ × Sample)
select_range from to [] = []
select_range from to ((ts, s) ∷ rows) =
    let rest = select_range from to rows in
    if leb_ℤ from ts && ltb_ℤ ts to then (ts, s) ∷ rest else rest

abbrev negative : ℕ → ℤ
negative zero = pos 0
negative (suc n) = negsuc n

-- `(ts / ?) * ?`, where the division rounds to zero.
unfoldable pub bucket : ℕ → ℤ → ℤ
bucket interval (pos n) = pos (n / interval * interval)
bucket interval (negsuc n) = negative (suc n / interval * interval)

unfoldable pub delete_flows_before : ℤ → List (Text × Summary) → List (Text × Summary)
delete_flows_before limit [] = []
delete_flows_before limit ((k, f) ∷ rows) =
    let rest = delete_flows_before limit rows in
    if ltb_ℤ f.last_seen limit then rest else (k, f) ∷ rest

-- `ORDER BY last_seen DESC`
unfoldable pub insert_latest : Text × Summary → List (Text × Summary) → List (Text × Summary)
insert_latest f [] = f ∷ []
insert_latest f (g ∷ rows) =
    let rest = insert_latest f rows in
    if ltb_ℤ f.1.last_seen g.1.last_seen then g ∷ rest else f ∷ g ∷ rows

unfoldable pub order_latest : List (Text × Summary) → List (Text × Summary)
order_latest [] = []
order_latest (f ∷ rows) = insert_latest f (order_latest rows)

-- `(strftime('%s','now')-604800)*1000`
unfoldable pub flow_limit : ℕ → ℤ
flow_limit now =
    if leb_ℤ (pos week) (pos now) then pos ((now - week) * 1000) else negative ((week - now) * 1000)

-- The two DELETEs: what is older than a week, and what is not among the 10 000 latest of the rest.
unfoldable pub trim_flows : ℕ → List (Text × Summary) → List (Text × Summary)
unfolding flow_limit
trim_flows now rows = take 10_000 (order_latest (delete_flows_before (flow_limit now) rows))

abbrev pub summaries : List (Text × Summary) → List Summary
summaries [] = []
summaries ((k, f) ∷ rows) = f ∷ summaries rows

unfoldable pub select_latest : List (Text × Summary) → List Summary
select_latest rows = summaries (take 200 (order_latest rows))
