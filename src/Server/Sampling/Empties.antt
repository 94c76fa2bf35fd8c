-- ===== src/Server/Sampling/Empties.antt =====
-- `start_capture` and the DELETE request of src/server.cpp, where the capture that ends is sampled:
-- its engine is one of src/engine.cpp, stopped at any point that its threads can reach.
use wirelab_experiments.Common.{
  ℕ, zero, suc, ◌+◌, ◌≤◌, ◌≡◌, refl, ◌∙◌, true, List, [], ◌∷◌, ◌++◌, some, length, take, drop,
  returned, arith, length-append,
}
use wirelab_experiments.Engine.{
  Engine, create, start, request_stop, join, test_loop, poll, record_poll, store_error, leave,
  count_packet, set_kernel_dropped, drain,
}
use wirelab_experiments.Engine.Drain.{drain_lem}
use wirelab_experiments.Engine.System.{
  System, Step, starts, requests, joins, drains, tests, polls, records, fails, leaves, Reach, here,
  next, fresh_system,
}
use wirelab_experiments.Engine.System.Counters.{Reach-create-Counted}
use wirelab_experiments.Server.Traffic.{collect}
use wirelab_experiments.Server.Sampling.{
  Runtime, Occasion, measure, publish, gather, sample, sample_at, end_capture,
}

Step-capacity : {s t : System} → Step s t → t.engine.capacity ≡ s.engine.capacity
unfolding start request_stop join test_loop poll store_error leave record_poll count_packet
    set_kernel_dropped
Step-capacity (starts b e) = rw e (ground arith)
Step-capacity (requests e) = rw e (ground arith)
Step-capacity (joins w e) = rw e (ground arith)
Step-capacity {s} (drains n e) = rw (e, drain_lem n s.engine) refl
Step-capacity (tests w e) = rw e (ground arith)
Step-capacity (polls r w e) = rw e (ground arith)
Step-capacity (records p d w e) = rw e (ground arith)
Step-capacity (fails what w e) = rw e (ground arith)
Step-capacity (leaves w e) = rw e (ground arith)

Reach-capacity : {s t : System} → Reach s t → t.engine.capacity ≡ s.engine.capacity
Reach-capacity here = refl
Reach-capacity (next r st) = Step-capacity st ∙ Reach-capacity r

create-capacity : (n : ℕ) {e : Engine} → create true n ≡ returned e → e.capacity ≡ n
unfolding create
create-capacity n h = ground arith

take-all : {A : Type 0} (n : ℕ) (xs : List A) → length xs ≤ n → take n xs ≡ xs
take-all zero [] h = refl
take-all (suc n) [] h = refl
take-all zero (x ∷ xs) h = absurd (omega arith)
take-all (suc n) (x ∷ xs) h = rw (take-all n xs (omega arith)) refl

drop-all : {A : Type 0} (n : ℕ) (xs : List A) → length xs ≤ n → drop n xs ≡ []
drop-all zero [] h = refl
drop-all (suc n) [] h = refl
drop-all zero (x ∷ xs) h = absurd (omega arith)
drop-all (suc n) (x ∷ xs) h = drop-all n xs (omega arith)

end_capture-forced :
    (halted e : Engine) (o : Occasion) (s : Runtime)
    → s.engine ≡ some e
    → end_capture halted o s
      ≡ publish o.now o.counters o.stored (gather halted (record s { engine = some halted }))
unfolding end_capture sample_at sample
end_capture-forced halted e o s h = ground arith

-- A capture that ends, however its engine's threads have interleaved until then, is sampled to the
-- last packet: the one drain of 8,192 records empties the queue, so each packet that was polled has
-- by then been handed to a sample or has been counted as dropped; the metrics that are published
-- have the queued packets in them; and the next sample starts from the counters of this one.
pub end_capture_complete :
    {first : Engine} {system : System} (old : Engine) (o : Occasion) (s : Runtime)
    → create true 8192 ≡ returned first
    → Reach (fresh_system first) system
    → s.engine ≡ some old
    → let ended = end_capture system.engine o s in
      let traffic = collect s.capture_interface system.engine.queue s.traffic in
      (ended.engine ≡ some (record (system.engine) { queue = [] }))
      × (length system.polled
          ≡ length (system.delivered ++ (drain 8192 system.engine).0) + system.lost)
      × (ended.metrics ≡ some (measure o.now o.counters (record s { traffic = traffic })))
      × (ended.previous_packets ≡ o.counters.packets)
      × (ended.previous_bytes ≡ o.counters.wire_bytes)
unfolding publish gather measure
end_capture_complete {system} old o s c r h =
    let v = Reach-create-Counted true 8192 c r in
    let full : length system.engine.queue ≤ 8192 =
      omega (arith, v.bounded, Reach-capacity r, create-capacity 8192 c) in
    rw
      (
        end_capture-forced system.engine old o s h,
        drain_lem 8192 system.engine,
        take-all 8192 system.engine.queue full,
        drop-all 8192 system.engine.queue full,
      )
      (
        refl,
        omega (arith, v.conserved, length-append system.delivered system.engine.queue),
        refl,
        refl,
        refl,
      )
