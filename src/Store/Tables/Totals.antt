-- ===== src/Store/Tables/Totals.antt =====
-- What `record_flows` of src/store.cpp leaves in the table of the flows.
use wirelab_experiments.Common.{
  ◌≡◌, ◌⊎◌, inl, inr, refl, sym, subst, ap, ◌∙◌, List, [], ◌∷◌, Option, none, some, Text, text_eq,
  text_eq_iff, Bool, true, false, ℕ, ◌+◌, ◌*◌, ◌≤◌, length, Outcome, returned, arith, All,
  if◌then◌else◌,
}
use wirelab_experiments.Common.Int.{ℤ, pos, pos_part, neg_part, ◌≤ℤ◌}
use wirelab_experiments.Common.Int.Sums.{◌+ℤ◌, +ℤ-assoc, +ℤ-zero, zero-+ℤ, sum_ℤ}
use wirelab_experiments.Network.Outside.{Exception}
use wirelab_experiments.Store.{Summary, FlowRow, record_flows}
use wirelab_experiments.Store.Keyed.{lookup, changed, lookup-upsert_any}
use wirelab_experiments.Store.Tables.{
  Tables, Sqlite, Connection, upsert_flow, trim_flows, flow_limit,
}
use wirelab_experiments.Store.Tables.Statements.{database}
use wirelab_experiments.Store.Tables.Atomic.{add_flows, Atomic, kept, stored, record_flows-Atomic}
use wirelab_experiments.Store.Tables.Latest.{Flows, at, NotAfter, trim_flows-Latest}
use wirelab_experiments.Store.Tables.Keys.{
  HasKeys, upsert-HasKeys, trim_flows-HasKeys, trim_flows-Memᴰ, lookup-Memᴰ, Memᴰ-lookup,
}

-- A counter of a flow, zero where there is none.
abbrev counter : (Summary → ℤ) → Option Summary → ℤ
counter f none = pos 0
counter f (some s) = f s

-- The flows of a list that have the key.
abbrev pub named : Text → List FlowRow → List FlowRow
named key [] = []
named key (r ∷ fs) = if text_eq r.key key then r ∷ named key fs else named key fs

abbrev first_time : Option Summary → FlowRow → ℤ
first_time none r = r.first_seen
first_time (some s) r = s.first_seen

-- The last of a list that is not empty.
abbrev last_row : FlowRow → List FlowRow → FlowRow
last_row r [] = r
last_row r (q ∷ rs) = last_row q rs

-- What the table should say of one flow: what it said, and the flows of that key that came. The
-- counters are sums; the time when it was first seen is the oldest one known, the time when it was
-- last seen and the details are those of the last that came.
abbrev pub summary : Option Summary → List FlowRow → Option Summary
summary o [] = o
summary o (r ∷ rs) = some (record {
  first_seen = first_time o r;
  last_seen = (last_row r rs).timestamp_ms;
  packets = counter (λ s. s.packets) o +ℤ sum_ℤ (λ r. r.packets) (r ∷ rs);
  bytes = counter (λ s. s.bytes) o +ℤ sum_ℤ (λ r. r.bytes) (r ∷ rs);
  metadata = (last_row r rs).metadata;
})

-- The row after one statement.
abbrev fresh : FlowRow → Summary
fresh r = record {
  first_seen = r.first_seen;
  last_seen = r.timestamp_ms;
  packets = r.packets;
  bytes = r.bytes;
  metadata = r.metadata;
}

abbrev updated : FlowRow → Summary → Summary
updated r f = record {
  first_seen = f.first_seen;
  last_seen = r.timestamp_ms;
  packets = f.packets +ℤ r.packets;
  bytes = f.bytes +ℤ r.bytes;
  metadata = r.metadata;
}

abbrev with_row : FlowRow → Flows → Flows
with_row r rows = upsert_flow r.key r.first_seen r.timestamp_ms r.packets r.bytes r.metadata rows

summary-step :
    (o : Option Summary) (r : FlowRow) (rs : List FlowRow)
    → summary (some (changed text_eq (fresh r) (updated r) o)) rs ≡ summary o (r ∷ rs)
unfolding sum_ℤ
summary-step none r [] =
    rw (+ℤ-zero r.packets, +ℤ-zero r.bytes, zero-+ℤ r.packets, zero-+ℤ r.bytes) refl
summary-step (some s) r [] = rw (+ℤ-zero r.packets, +ℤ-zero r.bytes) refl
summary-step none r (q ∷ rs) =
    rw
      (
        zero-+ℤ (r.packets +ℤ sum_ℤ (λ r. r.packets) (q ∷ rs)),
        zero-+ℤ (r.bytes +ℤ sum_ℤ (λ r. r.bytes) (q ∷ rs)),
      )
      refl
summary-step (some s) r (q ∷ rs) =
    rw
      (
        +ℤ-assoc s.packets r.packets (sum_ℤ (λ r. r.packets) (q ∷ rs)),
        +ℤ-assoc s.bytes r.bytes (sum_ℤ (λ r. r.bytes) (q ∷ rs)),
      )
      refl

lookup-add_flows :
    (key : Text) (fs : List FlowRow) (rows : Flows)
    → lookup text_eq key (add_flows fs rows) ≡ summary (lookup text_eq key rows) (named key fs)
unfolding upsert_flow
lookup-add_flows key [] rows = refl
lookup-add_flows key (r ∷ fs) rows =
    lookup-add_flows key fs (with_row r rows)
    ∙ ap (λ o. summary o (named key fs))
        (lookup-upsert_any text_eq r.key key (fresh r) (updated r) rows text_eq_iff)
    ∙ one_row (text_eq r.key key) (lookup text_eq key rows)
  where
    one_row :
        (test : Bool) (o : Option Summary)
        → summary
            (if test then some (changed text_eq (fresh r) (updated r) o) else o)
            (named key fs)
          ≡ summary o (if test then r ∷ named key fs else named key fs)
    one_row true o = summary-step o r (named key fs)
    one_row false o = refl

add_flows-HasKeys : (fs : List FlowRow) (rows : Flows) → HasKeys rows → HasKeys (add_flows fs rows)
unfolding upsert_flow
add_flows-HasKeys [] rows h = h
add_flows-HasKeys (r ∷ fs) rows h =
    add_flows-HasKeys fs (with_row r rows) (upsert-HasKeys r.key _ _ rows h)

-- Seen within the last week: a time in milliseconds, against the clock in seconds.
abbrev pub IsRecent : ℕ → Summary → Type 0
IsRecent now s = now * 1000 + neg_part s.last_seen ≤ pos_part s.last_seen + 604_800 * 1000

limit→IsRecent : (now : ℕ) (s : Summary) → flow_limit now ≤ℤ s.last_seen → IsRecent now s
unfolding flow_limit
limit→IsRecent now s h = ground arith

IsRecent→limit : (now : ℕ) (s : Summary) → IsRecent now s → flow_limit now ≤ℤ s.last_seen
unfolding flow_limit
IsRecent→limit now s h = ground arith

-- What a call that returned at the time `now` leaves of the tables.
pub record Recorded (now : ℕ) (fs : List FlowRow) (old new : Tables) : Type 0 where
  pub keys : HasKeys new.flows
  pub size : length new.flows ≤ 10_000
  pub recent :
      (key : Text) (s : Summary)
      → lookup text_eq key new.flows ≡ some s
      → (summary (lookup text_eq key old.flows) (named key fs) ≡ some s) × IsRecent now s
  pub latest :
      (key : Text) (s : Summary)
      → summary (lookup text_eq key old.flows) (named key fs) ≡ some s
      → IsRecent now s
      → (lookup text_eq key new.flows ≡ some s)
        ⊎ ((length new.flows ≡ 10_000) × All (λ k. NotAfter k (key, s)) new.flows)
  pub samples : new.samples ≡ old.samples
  pub settings : new.settings ≡ old.settings

trimmed-Recorded :
    (now : ℕ) (fs : List FlowRow) (old : Tables)
    → HasKeys old.flows
    → Recorded now fs old (record old { flows = trim_flows now (add_flows fs old.flows) })
trimmed-Recorded now fs old h =
    let all = add_flows fs old.flows in
    let distinct = add_flows-HasKeys fs old.flows h in
    let trimmed = trim_flows-HasKeys now all distinct in
    let best = trim_flows-Latest now all in
    record {
      keys = trimmed;
      size = best.0;
      recent = λ key s e.
          let m = lookup-Memᴰ key s (trim_flows now all) e in
          (
            sym (lookup-add_flows key fs old.flows)
                ∙ Memᴰ-lookup key s all distinct (trim_flows-Memᴰ now (key, s) all m),
            limit→IsRecent now s (at _ (key, s) (trim_flows now all) m best.1),
          );
      latest = λ key s e r.
          elim (best.2 (key, s) (lookup-Memᴰ key s all (lookup-add_flows key fs old.flows ∙ e))
            (IsRecent→limit now s r)) [
              | inl m ↦ inl (Memᴰ-lookup key s (trim_flows now all) trimmed m)
              | inr k ↦ inr k
            ];
      samples = refl;
      settings = refl;
    }

module _ (sqlite : Sqlite) where
  returned-Recorded :
      (fs : List FlowRow) (old : Tables) (o : Outcome Exception (Unit {0}))
      (c : Connection sqlite.Host)
      → HasKeys old.flows
      → Atomic sqlite fs old o c
      → o ≡ returned tt
      → Recorded (sqlite.now c.host) fs old c.tables
  returned-Recorded fs old o c k (kept e d b t) h = cc
  returned-Recorded fs old o c k (stored d b t) h =
      subst (Recorded (sqlite.now c.host) fs old) (sym t)
        (trimmed-Recorded (sqlite.now c.host) fs old k)

  -- If `record_flows` returns, outside a transaction and from a table in which no two flows have the
  -- same key: again no two have, and the table holds at most 10 000. What it says of a flow is, for
  -- each key, exactly this: packets and bytes are the sums of what was there and of what came, the
  -- time when it was first seen is the one that was there, or that of the first that came, and the
  -- time when it was last seen and the details are those of the last that came; a flow of which
  -- nothing came is as it was. The table holds only flows seen within the week up to the time at which
  -- SQLite ran the DELETE; and each such flow, old or new, is there, or there are 10 000 that were all
  -- seen last no earlier than it. The samples and the settings are as they were.
  pub record_flows-Recorded :
      (fs : List FlowRow) (c : Connection sqlite.Host)
      → c.begun ≡ none
      → HasKeys c.tables.flows
      → (record_flows (database sqlite) fs c).outcome ≡ returned tt
      → let r = record_flows (database sqlite) fs c in
        Recorded (sqlite.now r.state.host) fs c.tables r.state.tables
  record_flows-Recorded fs c b k h =
      returned-Recorded fs c.tables _ _ k (record_flows-Atomic sqlite fs c b) h
