-- ===== src/Store/Tables/Atomic.antt =====
-- `record_flows` of src/store.cpp on the tables: all of it, or nothing.
use wirelab_experiments.Common.{
  ◌≡◌, ◌⊎◌, inl, inr, refl, List, [], ◌∷◌, Option, none, some, Text, Bool, true, false, Outcome,
  returned, thrown, arith, if◌then◌else◌,
}
use wirelab_experiments.Common.Logged.{M, after}
use wirelab_experiments.Network.Outside.{Exception}
use wirelab_experiments.Store.{
  Statement, begin_immediate, add_flow, trim_flows_and_commit, rollback, Summary, FlowRow, execute,
  insert_flow, insert_flows, insert_and_commit, roll_back, record_flows,
}
use wirelab_experiments.Store.Tables.{Tables, Refusal, Sqlite, Connection, upsert_flow, trim_flows}
use wirelab_experiments.Store.Tables.Statements.{
  effect, undone, partial, finish_statement, run_statement, database,
}

-- The flows added one after the other.
abbrev pub add_flows : List FlowRow → List (Text × Summary) → List (Text × Summary)
add_flows [] rows = rows
add_flows (f ∷ fs) rows =
    add_flows fs (upsert_flow f.key f.first_seen f.timestamp_ms f.packets f.bytes f.metadata rows)

-- `after` but for its log.
after_log :
    {X S E : Type 0} (P : Outcome X (Unit {0}) → S → Type 0) (k : Unit {0} → M X S E (Unit {0}))
    (w : S) (log log' : List E) (o : Outcome X (Unit {0}))
    → P (after k w log o).outcome (after k w log o).state
    → P (after k w log' o).outcome (after k w log' o).state
after_log P k w log log' (returned u) p = p
after_log P k w log log' (thrown e) p = p

module _ (sqlite : Sqlite) where
  -- A transaction on `t` that is open, or taken back already.
  abbrev Broken : Tables → Connection sqlite.Host → Type 0
  Broken t c = (c.begun ≡ some t) ⊎ ((c.begun ≡ none) × (c.tables ≡ t))

  -- Where the body of the `try` ends that is entered at `tables` with a transaction on `t` open.
  abbrev Ended :
      List FlowRow
      → Tables
      → Tables
      → Outcome Exception (Unit {0})
      → Connection sqlite.Host
      → Type 0
  Ended fs t tables (returned u) c =
      (c.begun ≡ none)
      × (c.tables
          ≡ record tables { flows = trim_flows (sqlite.now c.host) (add_flows fs tables.flows) })
  Ended fs t tables (thrown e) c = Broken t c

  undone-Broken :
      (t : Tables) (c : Connection sqlite.Host)
      → Broken t c
      → ((undone sqlite c).begun ≡ none) × ((undone sqlite c).tables ≡ t)
  unfolding undone
  undone-Broken t c h = ground arith

  refused_insert :
      (f : FlowRow) (t : Tables) (c : Connection sqlite.Host) (ends : Bool)
      → c.begun ≡ some t
      → let s = add_flow f.key f.first_seen f.timestamp_ms f.packets f.bytes f.metadata in
        Broken t (if ends then undone sqlite c else partial sqlite s c)
  unfolding partial
  refused_insert f t c true h = inr (undone-Broken t c (inl h))
  refused_insert f t c false h = inl h

  refused_trim :
      (t : Tables) (c : Connection sqlite.Host) (ends : Bool)
      → c.begun ≡ some t
      → Broken t (if ends then undone sqlite c else partial sqlite trim_flows_and_commit c)
  unfolding partial
  refused_trim t c true h = inr (undone-Broken t c (inl h))
  refused_trim t c false h = inl h

  commit_ends :
      (t : Tables) (c : Connection sqlite.Host) (x : Option Refusal)
      → c.begun ≡ some t
      → let r = finish_statement sqlite trim_flows_and_commit c x in Ended [] t c.tables r.0 r.1
  unfolding finish_statement effect
  commit_ends t c none h = (refl, refl)
  commit_ends t c (some x) h = refused_trim t c x.ends_transaction h

  abbrev with_flow : FlowRow → Tables → Tables
  with_flow f tables = record tables {
    flows = upsert_flow f.key f.first_seen f.timestamp_ms f.packets f.bytes f.metadata tables.flows;
  }

  Ended-step :
      (f : FlowRow) (fs : List FlowRow) (t tables : Tables) (o : Outcome Exception (Unit {0}))
      (c : Connection sqlite.Host)
      → Ended fs t (with_flow f tables) o c
      → Ended (f ∷ fs) t tables o c
  Ended-step f fs t tables (returned u) c h = h
  Ended-step f fs t tables (thrown e) c h = h

  insert_ends :
      (f : FlowRow) (fs : List FlowRow) (t : Tables) (c : Connection sqlite.Host)
      (x : Option Refusal)
      → c.begun ≡ some t
      → ((c' : Connection sqlite.Host)
          → c'.begun ≡ some t
          → let r = insert_and_commit (database sqlite) fs c' in
            Ended fs t c'.tables r.outcome r.state)
      → let s = add_flow f.key f.first_seen f.timestamp_ms f.packets f.bytes f.metadata in
        let r = finish_statement sqlite s c x in
        let k = after (λ _. insert_flows (database sqlite) fs) r.1 (s ∷ []) r.0 in
        let e =
          after (λ _. execute (database sqlite) trim_flows_and_commit) k.state k.log k.outcome in
        Ended (f ∷ fs) t c.tables e.outcome e.state
  unfolding finish_statement effect insert_and_commit
  insert_ends f fs t c none h k =
      let c' = record c { tables = with_flow f c.tables } in
      let r = insert_flows (database sqlite) fs c' in
      Ended-step f fs t c.tables _ _ (
        after_log (Ended fs t c'.tables) (λ _. execute (database sqlite) trim_flows_and_commit)
          r.state r.log
          (add_flow f.key f.first_seen f.timestamp_ms f.packets f.bytes f.metadata ∷ r.log)
          r.outcome (k c' h))
  insert_ends f fs t c (some x) h k = refused_insert f t c x.ends_transaction h

  insert_and_commit-Ended :
      (fs : List FlowRow) (t : Tables) (c : Connection sqlite.Host)
      → c.begun ≡ some t
      → let r = insert_and_commit (database sqlite) fs c in Ended fs t c.tables r.outcome r.state
  unfolding insert_and_commit insert_flows insert_flow execute run_statement
  insert_and_commit-Ended [] t c h = commit_ends t _ _ h
  insert_and_commit-Ended (f ∷ fs) t c h =
      insert_ends f fs t _ _ h λ c' h'. insert_and_commit-Ended fs t c' h'

  -- What `record_flows` makes of the tables `t`.
  pub data Atomic (fs : List FlowRow) (t : Tables)
      : Outcome Exception (Unit {0}) → Connection sqlite.Host → Type 0 where
    kept :
        (e : Exception) (c : Connection sqlite.Host)
        → c.begun ≡ none
        → c.tables ≡ t
        → Atomic fs t (thrown e) c
    stored :
        (c : Connection sqlite.Host)
        → c.begun ≡ none
        → c.tables ≡ record t { flows = trim_flows (sqlite.now c.host) (add_flows fs t.flows) }
        → Atomic fs t (returned tt) c

  roll_back-Atomic :
      (fs : List FlowRow) (t : Tables) (c : Connection sqlite.Host) (log : List Statement)
      (o : Outcome Exception (Unit {0}))
      → Ended fs t t o c
      → let r = roll_back (database sqlite) (record { outcome = o; state = c; log = log }) in
        Atomic fs t r.outcome r.state
  unfolding roll_back run_statement
  roll_back-Atomic fs t c log (returned u) (b, h) = stored c b h
  roll_back-Atomic fs t c log (thrown e) h =
      let c' = record c { host = (sqlite.refuses rollback c.host).1 } in
      let u = undone-Broken t c' h in kept e (undone sqlite c') u.0 u.1

  refused_begin :
      (c : Connection sqlite.Host) (ends : Bool)
      → c.begun ≡ none
      → let c' = if ends then undone sqlite c else partial sqlite begin_immediate c in
        (c'.begun ≡ none) × (c'.tables ≡ c.tables)
  unfolding partial
  refused_begin c true h = undone-Broken c.tables c (inr (h, refl))
  refused_begin c false h = (h, refl)

  begin_ends :
      (fs : List FlowRow) (c : Connection sqlite.Host) (x : Option Refusal)
      → c.begun ≡ none
      → let s = finish_statement sqlite begin_immediate c x in
        let r =
          after
            (λ _ w. roll_back (database sqlite) (insert_and_commit (database sqlite) fs w))
            s.1
            (begin_immediate ∷ [])
            s.0 in
        Atomic fs c.tables r.outcome r.state
  unfolding finish_statement effect partial
  begin_ends fs c none h =
      let c' = record c { begun = some c.tables } in
      let r = insert_and_commit (database sqlite) fs c' in
      roll_back-Atomic fs c.tables r.state r.log r.outcome
        (insert_and_commit-Ended fs c.tables c' refl)
  begin_ends fs c (some x) h =
      let b = refused_begin c x.ends_transaction h in kept x.error _ b.0 b.1

  -- Outside a transaction, whatever statements SQLite refuses on the way: if `record_flows` throws,
  -- the tables are what they were; if it returns, all flows were added, in order, and the table of the
  -- flows was trimmed; and in both cases no transaction is left open.
  pub record_flows-Atomic :
      (fs : List FlowRow) (c : Connection sqlite.Host)
      → c.begun ≡ none
      → let r = record_flows (database sqlite) fs c in Atomic fs c.tables r.outcome r.state
  unfolding record_flows execute run_statement
  record_flows-Atomic fs c h = begin_ends fs _ _ h
