-- ===== src/Server/Routes/History/Range.antt =====
-- Which ranges GET /api/v1/history of src/server.cpp asks the database for.
use wirelab_experiments.Common.{
  ℕ, ◌≤◌, ◌^◌, ◌≡◌, refl, ap, ◌∙◌, true, false, not, [], ◌∷◌, Text, Outcome, returned,
}
use wirelab_experiments.Common.Int.{ℤ, pos, ◌<ℤ◌, IsInt64}
use wirelab_experiments.Network.Outside.{Exception}
use wirelab_experiments.Store.{Database, sum_samples, valid_interval, invalid_range, history}
use wirelab_experiments.Store.Range.{distance, invalid_range-wraps}
use wirelab_experiments.Server.Routes.History.{
  Query, interval_of, query_integer, history_in, history_request,
}

module _ (stoll : Text → Outcome Exception (ℤ × ℕ)) (db : Database) where
  history-asks :
      (from to : ℤ) (interval : ℕ) (w : db.World)
      → invalid_range from to interval ≡ false
      → (history db from to interval w).log ≡ sum_samples interval from to ∷ []
  unfolding history
  history-asks from to interval w h = rw h refl

  request-history :
      (q : Query) (interval : ℕ) (from to : ℤ) (w : db.World)
      → query_integer stoll q.interval (pos 60) ≡ returned (pos interval)
      → valid_interval interval ≡ true
      → query_integer stoll q.from q.hour_ago ≡ returned from
      → query_integer stoll q.to q.next_second ≡ returned to
      → (history_request stoll db q w).log ≡ (history db from to interval w).log
  unfolding history_request history_in interval_of
  request-history q interval from to w i v f t = rw (i, v, f, t) refl

  -- Where the numbers of a request for the history lie at least 2 ^ 63 apart, the database is asked to
  -- sum the samples of that whole range, although it is longer than seven days.
  pub history_request-wraps :
      (q : Query) (interval : ℕ) (from to : ℤ) (w : db.World)
      → query_integer stoll q.interval (pos 60) ≡ returned (pos interval)
      → valid_interval interval ≡ true
      → query_integer stoll q.from q.hour_ago ≡ returned from
      → query_integer stoll q.to q.next_second ≡ returned to
      → IsInt64 from
      → IsInt64 to
      → from <ℤ to
      → 2 ^ 63 ≤ distance from to
      → (history_request stoll db q w).log ≡ sum_samples interval from to ∷ []
  history_request-wraps q interval from to w i v f t p r h far =
      request-history q interval from to w i v f t
      ∙ history-asks from to interval w (invalid_range-wraps from to interval p r h far ∙ ap not v)
