-- ===== src/Server/Queue.antt =====
-- `submit` and the loop of `work` in src/server.cpp: a queue of control jobs, one worker, and the
-- status that each outcome is answered with.
use wirelab_experiments.Common.{
  ℕ, ◌≤◌, List, [], ◌∷◌, ◌++◌, append_assoc, append-nil, ◌≡◌, refl, ap, sym, ◌∙◌, Text, codes,
  length, leb, ◌==◌, if◌then◌else◌, arith, Outcome, returned, thrown, length-append,
}
use wirelab_experiments.Network.Outside.{Exception, invalid_argument, runtime_error}

-- A task works on the application's state and returns a value, or throws.
pub record Job (S V : Type 0) : Type 0 where
  pub client : ℕ
  pub task : S → Outcome Exception V × S

pub data Body (V : Type 0) : Type 0 where
  value : V → Body V
  error : Text → Body V

pub record Reply (V : Type 0) : Type 0 where
  pub client : ℕ
  pub status : ℕ
  pub body : Body V

pub record Server (S V : Type 0) : Type 0 where
  pub app : S
  pub tasks : List (Job S V)
  pub replies : List (Reply V)

pub data Event (S V : Type 0) : Type 0 where
  submits : Job S V → Event S V
  works : Event S V

module _ {V : Type 0} where
  -- The lambda that `submit` queues: what it replies for an outcome.
  unfoldable pub answer : ℕ → Outcome Exception V → Reply V
  answer client (returned v) = record { client = client; status = 200; body = value v }
  answer client (thrown (invalid_argument text)) = record {
    client = client;
    status = 422;
    body = error text;
  }
  answer client (thrown (runtime_error text)) = record {
    client = client;
    status = 409;
    body = error text;
  }

  abbrev pub queue_full : ℕ → Reply V
  queue_full client = record {
    client = client;
    status = 429;
    body = error (codes "Control queue full");
  }

  -- The clients of the replies but those for a full queue.
  abbrev pub served : List (Reply V) → List ℕ
  served [] = []
  served (r ∷ rs) = if r.status == 429 then served rs else r.client ∷ served rs

  served-append : (rs qs : List (Reply V)) → served (rs ++ qs) ≡ served rs ++ served qs
  served-append [] qs = refl
  served-append (r ∷ rs) qs = ground (arith, served-append rs qs)

  served-answer :
      (client : ℕ) (o : Outcome Exception V) → served (answer client o ∷ []) ≡ client ∷ []
  unfolding answer
  served-answer client (returned v) = refl
  served-answer client (thrown (invalid_argument text)) = refl
  served-answer client (thrown (runtime_error text)) = refl

module _ {S V : Type 0} where
  unfoldable pub submit : Job S V → Server S V → Server S V
  submit job s =
      if leb 64 (length s.tasks)
      then record s { replies = s.replies ++ queue_full job.client ∷ [] }
      else record s { tasks = s.tasks ++ job ∷ [] }

  unfoldable pub serve : List (Job S V) → Server S V → Server S V
  serve [] s = s
  serve (job ∷ rest) s =
      let r = job.task s.app in
      record s { app = r.1; tasks = rest; replies = s.replies ++ answer job.client r.0 ∷ [] }

  -- One round of the loop: `tick`, one task if there is one, `sample`. The handlers around the first
  -- and the last keep their exceptions in the worker.
  unfoldable pub work_round : (S → S) → (S → S) → Server S V → Server S V
  unfolding serve
  work_round tick sample s =
      let ticked : Server S V = record s { app = tick s.app } in
      let served : Server S V = serve ticked.tasks ticked in
      record served { app = sample served.app }

  pub run : (S → S) → (S → S) → List (Event S V) → Server S V → Server S V
  run tick sample [] s = s
  run tick sample (submits job ∷ es) s = run tick sample es (submit job s)
  run tick sample (works ∷ es) s = run tick sample es (work_round tick sample s)

  -- The clients whose jobs the queue took, in order.
  pub accepted : (S → S) → (S → S) → List (Event S V) → Server S V → List ℕ
  accepted tick sample [] s = []
  accepted tick sample (submits job ∷ es) s =
      (if leb 64 (length s.tasks) then [] else job.client ∷ [])
      ++ accepted tick sample es (submit job s)
  accepted tick sample (works ∷ es) s = accepted tick sample es (work_round tick sample s)

  abbrev pub waiting : List (Job S V) → List ℕ
  waiting [] = []
  waiting (j ∷ js) = j.client ∷ waiting js

  abbrev pub in_order : Server S V → List ℕ
  in_order s = served s.replies ++ waiting s.tasks

  waiting-append : (js ks : List (Job S V)) → waiting (js ++ ks) ≡ waiting js ++ waiting ks
  waiting-append [] ks = refl
  waiting-append (j ∷ js) ks = ap (◌∷◌ j.client) (waiting-append js ks)

  in_order-submit :
      (job : Job S V) (s : Server S V)
      → in_order (submit job s)
        ≡ in_order s ++ (if leb 64 (length s.tasks) then [] else job.client ∷ [])
  unfolding submit
  in_order-submit job s = ground (
    arith,
    served-append s.replies (queue_full job.client ∷ []),
    waiting-append s.tasks (job ∷ []),
    append-nil (served s.replies),
    append-nil (in_order s),
    append_assoc (served s.replies) (waiting s.tasks) (job.client ∷ []),
  )

  in_order-serve :
      (tasks : List (Job S V)) (s : Server S V)
      → s.tasks ≡ tasks
      → in_order (serve tasks s) ≡ in_order s
  unfolding serve
  in_order-serve [] s e = refl
  in_order-serve (job ∷ rest) s e = rw (served-append, served-answer, append_assoc, e)

  in_order-work_round :
      (tick sample : S → S) (s : Server S V) → in_order (work_round tick sample s) ≡ in_order s
  unfolding work_round
  in_order-work_round tick sample s = in_order-serve s.tasks (record s { app = tick s.app }) refl

  in_order-run :
      (tick sample : S → S) (es : List (Event S V)) (s : Server S V)
      → in_order (run tick sample es s) ≡ in_order s ++ accepted tick sample es s
  unfolding run accepted
  in_order-run tick sample [] s = sym (append-nil (in_order s))
  in_order-run tick sample (submits job ∷ es) s =
      in_order-run tick sample es (submit job s) ∙ rw (in_order-submit, append_assoc (in_order s))
  in_order-run tick sample (works ∷ es) s =
      in_order-run tick sample es (work_round tick sample s) ∙ rw in_order-work_round

  serve-bounded :
      (tasks : List (Job S V)) (s : Server S V)
      → s.tasks ≡ tasks
      → length (serve tasks s).tasks ≤ length s.tasks
  unfolding serve
  serve-bounded [] s e = omega arith
  serve-bounded (job ∷ rest) s e = rw e (omega arith)

  run-bounded :
      (tick sample : S → S) (es : List (Event S V)) (s : Server S V)
      → length s.tasks ≤ 64
      → length (run tick sample es s).tasks ≤ 64
  unfolding run work_round submit
  run-bounded tick sample [] s h = h
  run-bounded tick sample (submits job ∷ es) s h =
      run-bounded tick sample es (submit job s) (ground (arith, length-append s.tasks (job ∷ [])))
  run-bounded tick sample (works ∷ es) s h =
      run-bounded tick sample es (work_round tick sample s)
        (omega (arith, serve-bounded s.tasks (record s { app = tick s.app }) refl))

  -- From an empty queue on, whatever is submitted and whenever the worker runs: at most 64 jobs wait;
  -- and the replies other than those for a full queue, followed by the waiting jobs, are those of the
  -- jobs that were taken, each once and in the order of submission.
  pub run-in_order :
      (tick sample : S → S) (es : List (Event S V)) (app : S)
      → let s : Server S V = record { app = app; tasks = []; replies = [] } in
        (length (run tick sample es s).tasks ≤ 64)
        × (served (run tick sample es s).replies ++ waiting (run tick sample es s).tasks
            ≡ accepted tick sample es s)
  run-in_order tick sample es app =
      (run-bounded tick sample es _ (omega arith), in_order-run tick sample es _)
