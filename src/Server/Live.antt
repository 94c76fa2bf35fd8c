-- ===== src/Server/Live.antt =====
-- `LiveSocket` of src/server.cpp: one connection of the dashboard. The thread of the connection runs
-- `handleNewMessage`, the worker runs the reply that it queued, and the two share the atomics of
-- `SocketState`. A step is one access to these, so that the threads may interleave between any two.
-- Beside them the state keeps what passed: how many replies were counted, the sequence numbers
-- that were sent, the last one first, and the acknowledgements that a job was taken for.
pub mod Order
pub mod Race
use wirelab_experiments.Common.{
  ℕ, zero, suc, ◌==◌, ◌+◌, ◌-◌, ◌%◌, ◌^◌, ◌≤◌, ◌<◌, ◌≡◌, Bool, true, false, List, [], ◌∷◌,
  if◌then◌else◌,
}

-- Where `handleNewMessage` stands: between two messages, or behind the comparison of the message's
-- acknowledgement and before `busy.exchange`.
pub data Handler : Type 0 where
  between : Handler
  compared : ℕ → Handler

-- Where the reply stands: not called, behind `++sequence` with the new number, or behind `send`.
pub data Replier : Type 0 where
  resting : Replier
  counted : ℕ → Replier
  delivered : Replier

pub record Socket : Type 0 where
  pub busy : Bool
  pub sequence : ℕ
  pub handler : Handler
  pub replier : Replier
  pub jobs : ℕ
  pub replies : ℕ
  pub sent : List ℕ
  pub taken : List ℕ

abbrev pub new_socket : Socket
new_socket = record {
  busy = false;
  sequence = 0;
  handler = between;
  replier = resting;
  jobs = 0;
  replies = 0;
  sent = [];
  taken = [];
}

-- A message whose token is right and whose acknowledgement is compared with `sequence`; any other
-- message leaves the state alone.
unfoldable pub compare_ack : ℕ → Socket → Socket
compare_ack ack s = record s { handler = if ack == s.sequence then compared ack else between }

-- `busy.exchange(true)`, and `submit` if it was false.
unfoldable pub exchange_busy : ℕ → Socket → Socket
exchange_busy ack s =
    if s.busy
    then record s { handler = between }
    else record s { busy = true; handler = between; jobs = s.jobs + 1; taken = ack ∷ s.taken }

-- The reply, called by the worker, or by `submit` itself where the queue is full.
unfoldable pub count_reply : Socket → Socket
count_reply s =
    let n = (s.sequence + 1) % 2 ^ 64 in
    record s { sequence = n; replier = counted n; jobs = s.jobs - 1; replies = s.replies + 1 }

-- `send`, if the connection is still there.
unfoldable pub send_reply : Bool → ℕ → Socket → Socket
send_reply connected n s = record s {
  replier = delivered;
  sent = if connected then n ∷ s.sent else s.sent;
}

unfoldable pub clear_busy : Socket → Socket
clear_busy s = record s { busy = false; replier = resting }

-- `work` drops the jobs that wait when it stops.
unfoldable pub drop_job : Socket → Socket
drop_job s = record s { jobs = s.jobs - 1 }

pub data Step (s : Socket) (t : Socket) : Type 0 where
  compares : (ack : ℕ) → s.handler ≡ between → t ≡ compare_ack ack s → Step s t
  exchanges : (ack : ℕ) → s.handler ≡ compared ack → t ≡ exchange_busy ack s → Step s t
  counts : 0 < s.jobs → s.replier ≡ resting → t ≡ count_reply s → Step s t
  sends :
      (connected : Bool) (n : ℕ) → s.replier ≡ counted n → t ≡ send_reply connected n s → Step s t
  clears : s.replier ≡ delivered → t ≡ clear_busy s → Step s t
  drops : 0 < s.jobs → t ≡ drop_job s → Step s t

pub data Reach (s : Socket) : Socket → Type 0 where
  here : Reach s s
  next : {t u : Socket} → Reach s t → Step t u → Reach s u
