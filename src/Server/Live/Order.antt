-- ===== src/Server/Live/Order.antt =====
-- The jobs and the sequence numbers of one connection of `LiveSocket` in src/server.cpp.
use wirelab_experiments.Common.{
  ℕ, ◌+◌, ◌%◌, ◌^◌, ◌≤◌, ◌<◌, ◌≡◌, ◌⊎◌, inl, inr, refl, sym, subst, Bool-cases, Bool, true, false,
  List, [], ◌∷◌, if◌then◌else◌, arith,
}
use wirelab_experiments.Server.Live.{
  between, Replier, resting, counted, delivered, Socket, new_socket, compare_ack, exchange_busy,
  count_reply, send_reply, clear_busy, drop_job, Step, compares, exchanges, counts, sends, clears,
  drops, Reach, here, next,
}

-- Replies under way.
abbrev pub under_way : Replier → ℕ
under_way resting = 0
under_way (counted n) = 1
under_way delivered = 1

-- Numbers below a bound, each below the one before it.
abbrev pub Descends : ℕ → List ℕ → Type 0
Descends bound [] = Unit
Descends bound (n ∷ ns) = (n < bound) × Descends n ns

-- The bound of what was sent: the number of a reply that is counted but not sent is not there yet.
abbrev pub unsent : Replier → ℕ → ℕ
unsent resting replies = replies + 1
unsent (counted n) replies = replies
unsent delivered replies = replies + 1

pub record IsOrdered (s : Socket) : Type 0 where
  pub one_job : s.jobs + under_way s.replier ≤ 1
  pub marked : (s.busy ≡ true) ⊎ (s.jobs + under_way s.replier ≡ 0)
  pub number : s.sequence ≡ s.replies % 2 ^ 64
  pub own : (n : ℕ) → s.replier ≡ counted n → n ≡ s.sequence
  pub ascending : s.replies < 2 ^ 64 → Descends (unsent s.replier s.replies) s.sent

Descends-weaken : (a b : ℕ) (ns : List ℕ) → a ≤ b → Descends a ns → Descends b ns
Descends-weaken a b [] h d = tt
Descends-weaken a b (n ∷ ns) h d = (omega arith, d.1)

exchange_busy-IsOrdered : (ack : ℕ) (s : Socket) → IsOrdered s → IsOrdered (exchange_busy ack s)
unfolding exchange_busy
exchange_busy-IsOrdered ack s v = elim (Bool-cases s.busy) [
  | inl e ↦
      let same : exchange_busy ack s ≡ record s { handler = between } = rw (e, exchange_busy) in
      subst IsOrdered (sym same) (record {
        one_job = v.one_job;
        marked = v.marked;
        number = v.number;
        own = v.own;
        ascending = v.ascending;
      })
  | inr e ↦
      let taken = record s {
        busy = true;
        handler = between;
        jobs = s.jobs + 1;
        taken = ack ∷ s.taken;
      } in
      let same : exchange_busy ack s ≡ taken = rw (e, exchange_busy) in
      subst IsOrdered (sym same) (record {
        one_job = ground arith;
        marked = inl refl;
        number = v.number;
        own = v.own;
        ascending = v.ascending;
      })
]

count_reply-IsOrdered :
    (s : Socket) → IsOrdered s → 0 < s.jobs → s.replier ≡ resting → IsOrdered (count_reply s)
unfolding count_reply
count_reply-IsOrdered s v j h = record {
  one_job = ground arith;
  marked = ground arith;
  number = omega (arith, v.number);
  own = λ n e. ground arith;
  ascending = λ k. let d = v.ascending (omega arith) in rw h at d;
}

send_Descends :
    (c : Bool) (n replies : ℕ) (sent : List ℕ)
    → n ≡ replies
    → Descends replies sent
    → Descends (replies + 1) (if c then n ∷ sent else sent)
send_Descends true n replies sent e d = (omega arith, subst (λ b. Descends b sent) (sym e) d)
send_Descends false n replies sent e d = Descends-weaken replies (replies + 1) sent (omega arith) d

send_reply-IsOrdered :
    (c : Bool) (n : ℕ) (s : Socket)
    → IsOrdered s
    → s.replier ≡ counted n
    → IsOrdered (send_reply c n s)
unfolding send_reply
send_reply-IsOrdered c n s v h = record {
  one_job = ground arith;
  marked = ground arith;
  number = v.number;
  own = λ m e. cc;
  ascending = λ k.
      let d : Descends s.replies s.sent = (let u = v.ascending k in rw h at u) in
      let latest : n ≡ s.replies = omega (arith, v.own n h, v.number) in
      send_Descends c n s.replies s.sent latest d;
}

clear_busy-IsOrdered : (s : Socket) → IsOrdered s → s.replier ≡ delivered → IsOrdered (clear_busy s)
unfolding clear_busy
clear_busy-IsOrdered s v h = record {
  one_job = ground arith;
  marked = ground arith;
  number = v.number;
  own = λ n e. cc;
  ascending = λ k. let d = v.ascending k in rw h at d;
}

Step-IsOrdered : {s t : Socket} → Step s t → IsOrdered s → IsOrdered t
unfolding compare_ack exchange_busy count_reply send_reply clear_busy drop_job
Step-IsOrdered {s} (compares ack h e) v = rw e (record {
  one_job = v.one_job;
  marked = v.marked;
  number = v.number;
  own = v.own;
  ascending = v.ascending;
})
Step-IsOrdered {s} (exchanges ack h e) v = rw e (exchange_busy-IsOrdered ack s v)
Step-IsOrdered {s} (counts j h e) v = rw e (count_reply-IsOrdered s v j h)
Step-IsOrdered {s} (sends c n h e) v = rw e (send_reply-IsOrdered c n s v h)
Step-IsOrdered {s} (clears h e) v = rw e (clear_busy-IsOrdered s v h)
Step-IsOrdered {s} (drops j e) v = rw e (record {
  one_job = omega (arith, v.one_job);
  marked = ground (arith, v.marked);
  number = v.number;
  own = v.own;
  ascending = v.ascending;
})

Reach-IsOrdered : {s t : Socket} → IsOrdered s → Reach s t → IsOrdered t
Reach-IsOrdered v here = v
Reach-IsOrdered v (next r st) = Step-IsOrdered st (Reach-IsOrdered v r)

-- However the threads interleave from a new connection on: one job at most waits or is being
-- answered, and `busy` is set while there is one; `sequence` counts the replies modulo 2 ^ 64; and
-- before 2 ^ 64 replies, each number sent is greater than those sent before it.
pub Reach-new_socket-IsOrdered : {s : Socket} → Reach new_socket s → IsOrdered s
Reach-new_socket-IsOrdered r =
    Reach-IsOrdered
      (record {
        one_job = omega arith;
        marked = inr (omega arith);
        number = omega arith;
        own = λ n e. cc;
        ascending = λ k. tt;
      })
      r
