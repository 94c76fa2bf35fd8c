-- ===== src/Store.antt =====
-- src/store.cpp. SQLite is the parameter `Database`: it prepares, binds and steps a statement, here
-- one call with the statement's text and parameters, whose answer is the rows or an error. A method
-- logs each statement that it asks for.
pub mod Transactions
pub mod Range
pub mod Keyed
pub mod Tables
use wirelab_experiments.Common.{
  ℕ, ◌+◌, ◌*◌, ◌%◌, ◌^◌, Bool, true, false, not, ◌&&◌, ◌||◌, List, [], ◌∷◌, ◌++◌, map, Text, codes,
  ltb, leb, ◌==◌, if◌then◌else◌, Outcome, returned, thrown,
}
use wirelab_experiments.Common.Int.{ℤ, pos, negsuc, ◌-ℤ◌, leb_ℤ, ltb_ℤ, signed, low_word}
use wirelab_experiments.Common.Logged.{Run, M, pure, throw, after, ◌>>=◌, ◌>>◌, perform}
use wirelab_experiments.Network.Outside.{Exception, invalid_argument}

-- The statements of the file. A parameter is a text or a number.
pub data Statement : Type 0 where
  put_setting : Text → Text → Statement
  get_setting : Text → Statement
  add_sample : ℤ → ℤ → ℤ → Text → Statement
  delete_samples_before : ℤ → Statement
  sum_samples : ℕ → ℤ → ℤ → Statement
  begin_immediate : Statement
  add_flow : Text → ℤ → ℤ → ℤ → ℤ → Text → Statement
  trim_flows_and_commit : Statement
  rollback : Statement
  latest_flows : Statement

-- What a row of the answers holds: its numbers and its text, in the order of the columns.
pub record Row : Type 0 where
  pub timestamp : ℤ
  pub packets : ℤ
  pub bytes : ℤ
  pub samples : ℤ
  pub tcp : ℤ
  pub udp : ℤ
  pub icmp : ℤ
  pub other : ℤ

pub record Summary : Type 0 where
  pub first_seen : ℤ
  pub last_seen : ℤ
  pub packets : ℤ
  pub bytes : ℤ
  pub metadata : Text

pub record Database : Type 1 where
  pub World : Type 0
  pub execute : Statement → World → Outcome Exception (Unit {0}) × World
  pub setting : Text → World → Outcome Exception (List Text) × World
  pub sums : ℕ → ℤ → ℤ → World → Outcome Exception (List Row) × World
  pub flows : World → Outcome Exception (List Summary) × World

-- What `record_flows` reads of the JSON of a flow.
pub record FlowRow : Type 0 where
  pub key : Text
  pub first_seen : ℤ
  pub timestamp_ms : ℤ
  pub packets : ℤ
  pub bytes : ℤ
  pub metadata : Text

-- 7 * 86400
abbrev pub week : ℕ
week = 604_800

-- `to - from` and `ts - 7 * 86400` in 64 bits.
abbrev pub sub_int64 : ℤ → ℤ → ℤ
sub_int64 a b = signed (low_word (a -ℤ b))

unfoldable pub valid_interval : ℕ → Bool
valid_interval interval = interval == 60 || interval == 300 || interval == 3600

-- The test of `history` for its arguments.
unfoldable pub invalid_range : ℤ → ℤ → ℕ → Bool
unfolding valid_interval ◌-ℤ◌ signed low_word
invalid_range from to interval =
    not (valid_interval interval) || leb_ℤ to from || ltb_ℤ (pos week) (sub_int64 to from)

module _ (db : Database) where
  abbrev pub D : Type 0 → Type 0
  D A = M Exception db.World Statement A

  unfoldable pub execute : Statement → D (Unit {0})
  execute s = perform s (db.execute s)

  unfoldable pub put : Text → Text → D (Unit {0})
  put key value = execute (put_setting key value)

  unfoldable pub sample : ℤ → ℕ → ℕ → Text → D (Unit {0})
  sample ts packets bytes details = do
    execute (add_sample ts (signed packets) (signed bytes) details)
    execute (delete_samples_before (sub_int64 ts (pos week)))

  unfoldable pub history : ℤ → ℤ → ℕ → D (List Row)
  history from to interval =
      if invalid_range from to interval
      then throw (
          invalid_argument
            (codes "History requires interval 60/300/3600 and a range up to seven days"))
      else perform (sum_samples interval from to) (db.sums interval from to)

  unfoldable pub insert_flow : FlowRow → D (Unit {0})
  insert_flow f = execute (add_flow f.key f.first_seen f.timestamp_ms f.packets f.bytes f.metadata)

  -- The loop over the flows.
  unfoldable pub insert_flows : List FlowRow → D (Unit {0})
  insert_flows [] = pure tt
  insert_flows (f ∷ fs) = do insert_flow f; insert_flows fs

  -- The body of the `try`.
  unfoldable pub insert_and_commit : List FlowRow → D (Unit {0})
  insert_and_commit fs = do insert_flows fs; execute trim_flows_and_commit

  -- `catch (...)`: the code of the ROLLBACK is not looked at, and the exception goes on.
  unfoldable pub roll_back :
      Run Exception db.World Statement (Unit {0}) → Run Exception db.World Statement (Unit {0})
  roll_back r = elim r.outcome [
    | returned u ↦ r
    | thrown e ↦ record {
      outcome = thrown e;
      state = (db.execute rollback r.state).1;
      log = r.log ++ rollback ∷ [];
    }
  ]

  unfoldable pub record_flows : List FlowRow → D (Unit {0})
  record_flows fs = do execute begin_immediate; λ s. roll_back (insert_and_commit fs s)

  -- The readers, with `parse_json` and the null value of jsoncpp.
  module _ {V : Type 0} (parse_json : Text → Outcome Exception V) (null : V) where
    unfoldable pub parsed : Text → D V
    parsed text w = record { outcome = parse_json text; state = w; log = [] }

    unfoldable pub get : Text → D V
    get key = do
      rows ← perform (get_setting key) (db.setting key)
      elim rows [ [] ↦ pure null | text ∷ _ ↦ parsed text ]

    unfoldable pub parse_rows : List Summary → D (List (V × Summary))
    parse_rows [] = pure []
    parse_rows (row ∷ rows) = do v ← parsed row.metadata; vs ← parse_rows rows; pure ((v, row) ∷ vs)

    unfoldable pub connections : D (List (V × Summary))
    connections = do rows ← perform latest_flows db.flows; parse_rows rows
