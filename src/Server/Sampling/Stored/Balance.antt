-- ===== src/Server/Sampling/Stored/Balance.antt =====
-- One call of `sample` in src/server.cpp: what it counts and what the store then holds.
use wirelab_experiments.Common.{
  ◌≡◌, inl, inr, refl, sym, ap, ◌∙◌, subst, List, none, Text, Bool, ℕ, ◌+◌, ◌-◌, ◌≤◌, ◌<◌, ◌^◌,
  Outcome, returned, thrown, arith, Bool-cases, lt→ltb,
}
use wirelab_experiments.Common.Int.{ℤ, pos, signed, ◌≤ℤ◌, ◌<ℤ◌}
use wirelab_experiments.Common.Int.Sums.{◌+ℤ◌, +ℤ-assoc, zero-+ℤ, sum_ℤ}
use wirelab_experiments.Common.Logged.{M, after}
use wirelab_experiments.Engine.{CaptureSnapshot}
use wirelab_experiments.Network.Outside.{Exception}
use wirelab_experiments.Store as Store
use wirelab_experiments.Store.{Row, FlowRow, week, sub_int64, record_flows, history}
use wirelab_experiments.Store.Tables.{Tables, Sqlite, Connection}
use wirelab_experiments.Store.Tables.Statements.{database}
use wirelab_experiments.Store.Tables.Atomic.{Atomic, kept, stored, record_flows-Atomic}
use wirelab_experiments.Store.Tables.Kept.{packets_of, Within, Accepts, Grown, sample-Grown}
use wirelab_experiments.Server.Traffic.{Flow}
use wirelab_experiments.Server.Sampling.{Metrics, Runtime, sub_word, is_due, publish, measure}
use wirelab_experiments.Server.Sampling.Stored.{flow_rows, store_sample, publish_if_due}

sub_word-signed : (a b : ℕ) → b ≤ a → a < 2 ^ 63 → signed (sub_word a b) ≡ pos (a - b)
unfolding signed
sub_word-signed a b h k =
    let e : sub_word a b ≡ a - b = omega arith in rw (e, lt→ltb (a - b) (2 ^ 63) (omega arith)) refl

pos-+ℤ : (a b : ℕ) → pos a +ℤ pos b ≡ pos (a + b)
unfolding ◌+ℤ◌
pos-+ℤ a b = ground arith

-- Two differences in a row.
add_differences :
    (a b c : ℕ) (x : ℤ) → a ≤ b → b ≤ c → pos (c - b) +ℤ (pos (b - a) +ℤ x) ≡ pos (c - a) +ℤ x
add_differences a b c x h k =
    sym (+ℤ-assoc (pos (c - b)) (pos (b - a)) x)
    ∙ ap (λ y. y +ℤ x) (pos-+ℤ (c - b) (b - a) ∙ ap pos (omega arith))

module _ (sqlite : Sqlite) (metrics_text : Metrics → Text) (flow_text : Flow → Text) where
  samples_left :
      (fs : List FlowRow) (t : Tables) (o : Outcome Exception (Unit {0}))
      (c : Connection sqlite.Host)
      → Atomic sqlite fs t o c
      → (c.begun ≡ none) × (c.tables.samples ≡ t.samples)
  samples_left fs t o c (kept e d b h) = (b, ap (λ u. u.samples) h)
  samples_left fs t o c (stored d b h) = (b, ap (λ u. u.samples) h)

  record_flows-samples :
      (fs : List FlowRow) (c : Connection sqlite.Host)
      → c.begun ≡ none
      → let c' = (record_flows (database sqlite) fs c).state in
        (c'.begun ≡ none) × (c'.tables.samples ≡ c.tables.samples)
  record_flows-samples fs c h = samples_left fs c.tables _ _ (record_flows-Atomic sqlite fs c h)

  -- What calls of `sample` have counted and stored that moved the counter of the last sample from `n`
  -- to `n'`.
  pub record Balance (from to : ℤ) (n n' : ℕ) (c c' : Connection sqlite.Host) : Type 0 where
    pub begun : c'.begun ≡ none
    pub within : Within from to c'.tables.samples
    pub counted : n ≤ n'
    pub sum : sum_ℤ packets_of c'.tables.samples ≡ pos (n' - n) +ℤ sum_ℤ packets_of c.tables.samples

  after_returned :
      {S E : Type 0} (k : M Exception S E (Unit {0})) (w : S) (log : List E)
      (o : Outcome Exception (Unit {0}))
      → o ≡ returned tt
      → (after (λ _. k) w log o).state ≡ (k w).state
  after_returned k w log (returned u) h = refl
  after_returned k w log (thrown e) h = cc

  store_sample-Grown :
      (from to ts : ℤ) (now : ℕ) (counters : CaptureSnapshot) (s : Runtime)
      (c : Connection sqlite.Host)
      → Accepts sqlite
      → sub_int64 ts (pos week) ≤ℤ from
      → (from ≤ℤ ts) × (ts <ℤ to)
      → c.begun ≡ none
      → Within from to c.tables.samples
      → Grown sqlite from to
          (sub_word counters.packets s.previous_packets)
          c
          (store_sample (database sqlite) metrics_text flow_text ts now counters s c).state
  unfolding store_sample
  store_sample-Grown from to ts now counters s c accepts old h b w =
      let db = database sqlite in
      let packets = sub_word counters.packets s.previous_packets in
      let m =
        Store.sample db ts packets (sub_word counters.wire_bytes s.previous_bytes)
          (metrics_text (measure now counters s)) c in
      let g =
        sample-Grown sqlite from to ts packets (sub_word counters.wire_bytes s.previous_bytes)
          (metrics_text (measure now counters s)) c accepts old h w in
      let fs = flow_rows db metrics_text flow_text s.traffic.flows in
      let f = record_flows-samples fs m.state (g.1.begun ∙ b) in
      subst (Grown sqlite from to packets c)
        (sym (after_returned (record_flows db fs) m.state m.log m.outcome g.0))
        (record {
          begun = f.0 ∙ sym b;
          within = subst (Within from to) (sym f.1) g.1.within;
          sum = ap (sum_ℤ packets_of) f.1 ∙ g.1.sum;
        })

  n-n : (n : ℕ) → n - n ≡ 0
  n-n n = omega arith

  pub same-Balance :
      (from to : ℤ) (n : ℕ) (c : Connection sqlite.Host)
      → c.begun ≡ none
      → Within from to c.tables.samples
      → Balance from to n n c c
  same-Balance from to n c b w = record {
    begun = b;
    within = w;
    counted = omega arith;
    sum = sym (
        ap (λ d. pos d +ℤ sum_ℤ packets_of c.tables.samples) (n-n n)
        ∙ zero-+ℤ (sum_ℤ packets_of c.tables.samples));
  }

  pub publish_if_due-Balance :
      (from to ts : ℤ) (force : Bool) (now : ℕ) (counters : CaptureSnapshot) (s : Runtime)
      (c : Connection sqlite.Host)
      → Accepts sqlite
      → sub_int64 ts (pos week) ≤ℤ from
      → (from ≤ℤ ts) × (ts <ℤ to)
      → c.begun ≡ none
      → Within from to c.tables.samples
      → s.previous_packets ≤ counters.packets
      → counters.packets < 2 ^ 63
      → let p = publish_if_due (database sqlite) metrics_text flow_text force now ts counters s c in
        Balance from to s.previous_packets p.0.previous_packets c p.1
        × (p.0.previous_packets ≤ counters.packets)
  unfolding publish_if_due publish
  publish_if_due-Balance from to ts force now counters s c accepts old h b w n k =
      elim (Bool-cases (is_due force now s)) [
        | inl e ↦
            let g = store_sample-Grown from to ts now counters s c accepts old h b w in
            rw e (
              record {
                begun = g.begun ∙ b;
                within = g.within;
                counted = n;
                sum =
                    g.sum
                    ∙ ap (λ x. x +ℤ sum_ℤ packets_of c.tables.samples)
                        (sub_word-signed counters.packets s.previous_packets n k);
              },
              omega arith,
            )
        | inr e ↦ rw e (same-Balance from to s.previous_packets c b w, n)
      ]

  -- One call of `sample` behind another.
  pub chain-Balance :
      (from to : ℤ) (l m n : ℕ) (c d e : Connection sqlite.Host)
      → Balance from to l m c d
      → Balance from to m n d e
      → Balance from to l n c e
  chain-Balance from to l m n c d e a b = record {
    begun = b.begun;
    within = b.within;
    counted = omega (arith, a.counted, b.counted);
    sum = b.sum ∙ ap (λ x. pos (n - m) +ℤ x) a.sum ∙ add_differences l m n _ a.counted b.counted;
  }
