-- ===== src/Store/Transactions.antt =====
-- `record_flows` of src/store.cpp as a transaction.
use wirelab_experiments.Common.{◌≡◌, refl, ap, List, [], ◌∷◌, ◌++◌, Outcome, returned, thrown}
use wirelab_experiments.Common.Logged.{M, after, ◌>>◌, perform}
use wirelab_experiments.Network.Outside.{Exception}
use wirelab_experiments.Store.{
  Statement, begin_immediate, add_flow, trim_flows_and_commit, rollback, FlowRow, Database, execute,
  insert_flow, insert_flows, insert_and_commit, roll_back, record_flows,
}

-- The statements for the flows.
abbrev pub inserts : List FlowRow → List Statement
inserts [] = []
inserts (f ∷ fs) =
    add_flow f.key f.first_seen f.timestamp_ms f.packets f.bytes f.metadata ∷ inserts fs

-- What became of the body: it asked for all of its statements and returned, or for some first ones
-- and threw.
data Body (all : List Statement) : List Statement → Outcome Exception (Unit {0}) → Type 0 where
  whole : Body all all (returned tt)
  cut : (done rest : List Statement) (e : Exception) → done ++ rest ≡ all → Body all done (thrown e)

-- The log of a transaction on flows, and how the call ended.
pub data Transaction (fs : List FlowRow)
    : List Statement → Outcome Exception (Unit {0}) → Type 0 where
  not_begun : (e : Exception) → Transaction fs (begin_immediate ∷ []) (thrown e)
  committed :
      Transaction fs (begin_immediate ∷ (inserts fs ++ trim_flows_and_commit ∷ [])) (returned tt)
  rolled_back :
      (done rest : List Statement) (e : Exception)
      → done ++ rest ≡ inserts fs ++ trim_flows_and_commit ∷ []
      → Transaction fs (begin_immediate ∷ (done ++ rollback ∷ [])) (thrown e)

extend :
    {all l : List Statement} {o : Outcome Exception (Unit {0})} (s : Statement)
    → Body all l o
    → Body (s ∷ all) (s ∷ l) o
extend s whole = whole
extend s (cut done rest e h) = cut (s ∷ done) rest e (ap (◌∷◌ s) h)

module _ (db : Database) where
  -- A statement logged before what is there already.
  after-extend :
      (s : Statement) (all log : List Statement)
      (k : Unit {0} → M Exception db.World Statement (Unit {0})) (w : db.World)
      (o : Outcome Exception (Unit {0}))
      → Body all (after k w log o).log (after k w log o).outcome
      → Body (s ∷ all) (after k w (s ∷ log) o).log (after k w (s ∷ log) o).outcome
  after-extend s all log k w (returned u) b = extend s b
  after-extend s all log k w (thrown e) b = extend s b

  -- A statement, then a loop `k`, then `l`.
  insert_step :
      (s : Statement) (all : List Statement) (k l : M Exception db.World Statement (Unit {0}))
      (w : db.World) (o : Outcome Exception (Unit {0}))
      → ((v : db.World) → Body all ((k >> l) v).log ((k >> l) v).outcome)
      → let r = after (λ _. k) w (s ∷ []) o in
        Body
          (s ∷ all)
          (after (λ _. l) r.state r.log r.outcome).log
          (after (λ _. l) r.state r.log r.outcome).outcome
  insert_step s all k l w (returned u) b =
      after-extend s all (k w).log (λ _. l) (k w).state (k w).outcome (b w)
  insert_step s all k l w (thrown e) b = cut (s ∷ []) all e refl

  commit_body :
      (w : db.World) (o : Outcome Exception (Unit {0}))
      → Body (trim_flows_and_commit ∷ []) (trim_flows_and_commit ∷ []) o
  commit_body w (returned u) = whole
  commit_body w (thrown e) = cut (trim_flows_and_commit ∷ []) [] e refl

  insert_and_commit-Body :
      (fs : List FlowRow) (w : db.World)
      → let r = insert_and_commit db fs w in
        Body (inserts fs ++ trim_flows_and_commit ∷ []) r.log r.outcome
  unfolding insert_and_commit insert_flows insert_flow execute
  insert_and_commit-Body [] w = commit_body w (db.execute trim_flows_and_commit w).0
  insert_and_commit-Body (f ∷ fs) w =
      let s = add_flow f.key f.first_seen f.timestamp_ms f.packets f.bytes f.metadata in
      insert_step s (inserts fs ++ trim_flows_and_commit ∷ []) (insert_flows db fs)
        (perform trim_flows_and_commit (db.execute trim_flows_and_commit)) (db.execute s w).1
        (db.execute s w).0 (insert_and_commit-Body fs)

  roll_back-Transaction :
      (fs : List FlowRow) (w : db.World) (log : List Statement) (o : Outcome Exception (Unit {0}))
      → Body (inserts fs ++ trim_flows_and_commit ∷ []) log o
      → let r = roll_back db (record { outcome = o; state = w; log = log }) in
        Transaction fs (begin_immediate ∷ r.log) r.outcome
  unfolding roll_back
  roll_back-Transaction fs w log o whole = committed
  roll_back-Transaction fs w log o (cut done rest e h) = rolled_back log rest e h

  after_begin :
      (fs : List FlowRow) (w : db.World) (o : Outcome Exception (Unit {0}))
      → let r =
          after (λ _ s. roll_back db (insert_and_commit db fs s)) w (begin_immediate ∷ []) o in
        Transaction fs r.log r.outcome
  after_begin fs w (returned u) =
      roll_back-Transaction fs (insert_and_commit db fs w).state _ _ (insert_and_commit-Body fs w)
  after_begin fs w (thrown e) = not_begun e

  -- However the database answers, `record_flows` either asks for BEGIN only and throws; or returns
  -- and has asked for the statement of every flow, in order, and the batch that commits; or throws and
  -- has asked for some first of these statements and, last of all, for the rollback.
  pub record_flows-Transaction :
      (fs : List FlowRow) (w : db.World)
      → Transaction fs (record_flows db fs w).log (record_flows db fs w).outcome
  unfolding record_flows execute
  record_flows-Transaction fs w =
      after_begin fs (db.execute begin_immediate w).1 (db.execute begin_immediate w).0
