-- ===== src/Server/Sampling/Stored/Deposits.antt =====
-- The packets that `sample` of src/server.cpp counts against the samples that the store then holds.
use wirelab_experiments.Common.{
  ◌≡◌, refl, sym, ap, ◌∙◌, subst, List, [], ◌∷◌, none, some, Text, Bool, ℕ, ◌-◌, ◌≤◌, ◌<◌, ◌^◌,
  returned, arith, length,
}
use wirelab_experiments.Common.Int.{ℤ, pos, ◌≤ℤ◌, ◌<ℤ◌}
use wirelab_experiments.Common.Int.Sums.{◌+ℤ◌, +ℤ-zero, sum_ℤ}
use wirelab_experiments.Engine.{Engine, CaptureSnapshot}
use wirelab_experiments.Store.{Row, week, sub_int64, history}
use wirelab_experiments.Store.Tables.{Sqlite, Connection}
use wirelab_experiments.Store.Tables.Statements.{add_row, sample_row, database}
use wirelab_experiments.Store.Tables.Kept.{packets_of, Within, Accepts, select_range-Within}
use wirelab_experiments.Store.Tables.Buckets.{IsAdditive}
use wirelab_experiments.Store.Tables.Sums.{history-total}
use wirelab_experiments.Server.Traffic.{Flow}
use wirelab_experiments.Server.Sampling.{Metrics, Runtime, gather}
use wirelab_experiments.Server.Sampling.Stored.{sample_and_store}
use wirelab_experiments.Server.Sampling.Stored.Balance.{
  Balance, same-Balance, publish_if_due-Balance, chain-Balance,
}

-- A call of `sample`: the engine as the worker has left it by then, the two clocks and the counters.
pub record Deposit : Type 0 where
  pub engine : Engine
  pub force : Bool
  pub now : ℕ
  pub ts : ℤ
  pub counters : CaptureSnapshot

-- The counter of packets never falls from `n` on, and stays below 2 ^ 63; and the clock stays in the
-- range, whose begin is never older than a week.
abbrev pub IsGrowing : ℤ → ℤ → ℕ → List Deposit → Type 0
IsGrowing from to n [] = Unit {0}
IsGrowing from to n (d ∷ ds) =
    (n ≤ d.counters.packets)
    × (d.counters.packets < 2 ^ 63)
    × (sub_int64 d.ts (pos week) ≤ℤ from)
    × ((from ≤ℤ d.ts) × (d.ts <ℤ to))
    × IsGrowing from to d.counters.packets ds

module _ (sqlite : Sqlite) (metrics_text : Metrics → Text) (flow_text : Flow → Text) where
  abbrev pub deposit : Deposit → Runtime × Connection sqlite.Host → Runtime × Connection sqlite.Host
  deposit d (s, c) =
      sample_and_store (database sqlite) metrics_text flow_text d.force d.now d.ts d.counters
        (record s { engine = some d.engine }) c

  unfoldable pub deposit_all :
      List Deposit → Runtime × Connection sqlite.Host → Runtime × Connection sqlite.Host
  deposit_all [] p = p
  deposit_all (d ∷ ds) p = deposit_all ds (deposit d p)

  deposit-Balance :
      (from to : ℤ) (d : Deposit) (s : Runtime) (c : Connection sqlite.Host)
      → Accepts sqlite
      → sub_int64 d.ts (pos week) ≤ℤ from
      → (from ≤ℤ d.ts) × (d.ts <ℤ to)
      → c.begun ≡ none
      → Within from to c.tables.samples
      → s.previous_packets ≤ d.counters.packets
      → d.counters.packets < 2 ^ 63
      → let p = deposit d (s, c) in
        Balance sqlite metrics_text flow_text from to s.previous_packets p.0.previous_packets c p.1
        × (p.0.previous_packets ≤ d.counters.packets)
  unfolding sample_and_store gather
  deposit-Balance from to d s c accepts old h b w n k =
      publish_if_due-Balance sqlite metrics_text flow_text from to d.ts d.force d.now d.counters
        (gather d.engine (record s { engine = some d.engine })) c accepts old h b w n k

  deposit_all-Balance :
      (from to : ℤ) (n : ℕ) (ds : List Deposit) (s : Runtime) (c : Connection sqlite.Host)
      → Accepts sqlite
      → IsGrowing from to n ds
      → s.previous_packets ≤ n
      → c.begun ≡ none
      → Within from to c.tables.samples
      → let p = deposit_all ds (s, c) in
        Balance sqlite metrics_text flow_text from to s.previous_packets p.0.previous_packets c p.1
  unfolding deposit_all
  deposit_all-Balance from to n [] s c accepts g m b w =
      same-Balance sqlite metrics_text flow_text from to s.previous_packets c b w
  deposit_all-Balance from to n (d ∷ ds) s c accepts (l, k, old, h, g) m b w =
      let q = deposit-Balance from to d s c accepts old h b w (omega (arith, l, m)) k in
      let p = deposit d (s, c) in
      chain-Balance sqlite metrics_text flow_text from to s.previous_packets p.0.previous_packets _
        c p.1 _ q.0
        (deposit_all-Balance from to d.counters.packets ds p.0 p.1 accepts g q.1 q.0.begun
          q.0.within)

  packets-IsAdditive : IsAdditive sqlite (λ r. r.packets)
  unfolding add_row
  packets-IsAdditive a b e = refl

  -- From a table without samples and outside a transaction on, with SQLite refusing nothing: after any
  -- number of calls of `sample`, due or not, over less than a week and with a counter of packets that
  -- never falls and stays below 2 ^ 63, the rows of a `history` over the whole range, if they are
  -- fewer than 1000, add up to the packets by which the counter of the last sample that was due exceeds
  -- the one before the first call.
  pub history-deposit_all :
      (from to : ℤ) (interval n : ℕ) (ds : List Deposit) (s : Runtime) (c : Connection sqlite.Host)
      (rows : List Row)
      → Accepts sqlite
      → IsGrowing from to n ds
      → s.previous_packets ≤ n
      → c.begun ≡ none
      → c.tables.samples ≡ []
      → (history (database sqlite) from to interval (deposit_all ds (s, c)).1).outcome
        ≡ returned rows
      → length rows < 1000
      → sum_ℤ (λ r. r.packets) rows
        ≡ pos ((deposit_all ds (s, c)).0.previous_packets - s.previous_packets)
  unfolding sum_ℤ sample_row
  history-deposit_all from to interval n ds s c rows accepts g m b empty h short =
      let b' =
        deposit_all-Balance from to n ds s c accepts g m b
          (subst (Within from to) (sym empty) tt) in
      let samples = (deposit_all ds (s, c)).1.tables.samples in
      history-total sqlite from to interval _ rows (λ r. r.packets) h short packets-IsAdditive
      ∙ ap (sum_ℤ packets_of) (select_range-Within from to samples b'.within)
      ∙ b'.sum
      ∙ ap
          (λ x.
            pos ((deposit_all ds (s, c)).0.previous_packets - s.previous_packets)
            +ℤ sum_ℤ packets_of x)
          empty
      ∙ +ℤ-zero _
