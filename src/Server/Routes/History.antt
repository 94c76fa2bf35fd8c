-- ===== src/Server/Routes/History.antt =====
-- GET /api/v1/history of src/server.cpp, down to the statement of src/store.cpp. The parameters are
-- texts, empty where absent; `std::stoll` is a parameter: a number, and how many bytes it took.
pub mod Range
use wirelab_experiments.Common.{
  ℕ, Bool, true, false, not, List, [], ◌∷◌, Option, none, some, Text, codes, length, ◌==◌,
  if◌then◌else◌, Outcome, returned, thrown,
}
use wirelab_experiments.Common.Int.{ℤ, pos, negsuc}
use wirelab_experiments.Common.Logged.{Run, M, pure, throw, ◌>>=◌}
use wirelab_experiments.Network.Outside.{Exception, invalid_argument}
use wirelab_experiments.Store.{Database, Row, valid_interval, D, history}

-- `interval`, if it is one of the three.
unfoldable pub interval_of : ℤ → Option ℕ
interval_of (pos n) = if valid_interval n then some n else none
interval_of (negsuc n) = none

-- The query, with the results of the two calls of `now_seconds`, an hour back and a second on.
pub record Query : Type 0 where
  pub interval : Text
  pub from : Text
  pub to : Text
  pub hour_ago : ℤ
  pub next_second : ℤ

module _ (stoll : Text → Outcome Exception (ℤ × ℕ)) where
  abbrev pub whole : Text → ℤ × ℕ → Outcome Exception ℤ
  whole value r =
      if r.1 == length value
      then returned r.0
      else thrown (invalid_argument (codes "Invalid query integer"))

  -- The lambda `number`.
  unfoldable pub query_integer : Text → ℤ → Outcome Exception ℤ
  query_integer value fallback =
      if length value == 0
      then returned fallback
      else elim (stoll value) [ thrown e ↦ thrown e | returned r ↦ whole value r ]

  module _ (db : Database) where
    abbrev lift : {A : Type 0} → Outcome Exception A → D db A
    lift o w = record { outcome = o; state = w; log = [] }

    unfoldable pub history_in : Query → ℕ → D db (List Row)
    history_in q interval = do
      from ← lift (query_integer q.from q.hour_ago)
      to ← lift (query_integer q.to q.next_second)
      history db from to interval

    unfoldable pub history_request : Query → D db (List Row)
    history_request q = do
      interval ← lift (query_integer q.interval (pos 60))
      elim (interval_of interval) [
        | none ↦ throw (invalid_argument (codes "Invalid interval"))
        | some n ↦ history_in q n
      ]
