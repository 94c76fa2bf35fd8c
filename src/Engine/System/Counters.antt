-- ===== src/Engine/System/Counters.antt =====
-- What the counters of src/engine.cpp say of the packets that have passed through the engine.
use mathlib.Core.List.{Sublist, sublist-append_left}
use mathlib.Core.List.Sublist
use wirelab_experiments.Common.{
  ℕ, ◌+◌, ◌%◌, ◌^◌, ◌≤◌, ◌≡◌, Bool, List, [], ◌∷◌, ◌++◌, Option, none, some, length, take, Outcome,
  returned, thrown, arith, length-append, length-take, length-drop, take-append-drop, append_assoc,
}
use wirelab_experiments.Packet.{PacketMetadata}
use wirelab_experiments.Engine.{
  Engine, Failure, create, start, request_stop, join, test_loop, poll, record_poll, store_error,
  leave, drain, count_packet, set_kernel_dropped,
}
use wirelab_experiments.Engine.Drain.{drain_lem}
use wirelab_experiments.Engine.System.{
  System, Step, starts, requests, joins, drains, tests, polls, records, fails, leaves, Reach, here,
  next, fresh_system, note_poll,
}

-- The sum of the wire lengths.
abbrev pub total : List PacketMetadata → ℕ
total [] = 0
total (p ∷ ps) = p.wire_bytes + total ps

total-append : (ps qs : List PacketMetadata) → total (ps ++ qs) ≡ total ps + total qs
total-append [] qs = omega arith
total-append (p ∷ ps) qs = omega (arith, total-append ps qs)

pub record Counted (s : System) : Type 0 where
  pub bounded : length s.engine.queue ≤ s.engine.capacity
  pub packets : s.engine.counters.packets ≡ length s.polled % 2 ^ 64
  pub wire_bytes : s.engine.counters.wire_bytes ≡ total s.polled % 2 ^ 64
  pub dropped : s.engine.counters.metadata_dropped ≡ s.lost % 2 ^ 64
  pub conserved : length s.polled ≡ length s.delivered + length s.engine.queue + s.lost
  pub order : Sublist (s.delivered ++ s.engine.queue) s.polled

Sublist-snoc :
    {xs ys : List PacketMetadata} (p : PacketMetadata)
    → Sublist xs ys
    → Sublist (xs ++ p ∷ []) (ys ++ p ∷ [])
Sublist-snoc p h = Sublist.append h (Sublist.refl (p ∷ []))

Sublist-grow :
    {xs ys : List PacketMetadata} (p : PacketMetadata) → Sublist xs ys → Sublist xs (ys ++ p ∷ [])
Sublist-grow {ys} p h = Sublist.trans h (sublist-append_left ys (p ∷ []))

drain-Counted :
    (s : System) (limit : ℕ)
    → Counted s
    → Counted (record s {
      engine = (drain limit s.engine).1;
      delivered = s.delivered ++ (drain limit s.engine).0;
    })
drain-Counted s limit v = rw (drain_lem limit s.engine) (record {
  bounded = omega (arith, length-drop limit s.engine.queue, v.bounded);
  packets = v.packets;
  wire_bytes = v.wire_bytes;
  dropped = v.dropped;
  conserved = omega (
    arith,
    v.conserved,
    length-append s.delivered (take limit s.engine.queue),
    length-take limit s.engine.queue,
    length-drop limit s.engine.queue,
  );
  order = rw (append_assoc, take-append-drop) v.order;
})

record_poll-Counted :
    (s : System) (packet : Option PacketMetadata) (drops : Outcome Failure (Option ℕ))
    → Counted s
    → Counted (record (note_poll packet drops s) { engine = record_poll packet drops s.engine })
unfolding note_poll record_poll count_packet set_kernel_dropped
record_poll-Counted s none (returned d) v = ground arith
record_poll-Counted s (some p) (returned d) v = ground (
  arith,
  length-append s.polled (p ∷ []),
  length-append s.engine.queue (p ∷ []),
  total-append s.polled (p ∷ []),
  append_assoc s.delivered s.engine.queue (p ∷ []),
  Sublist-snoc p v.order,
  Sublist-grow p v.order,
)
record_poll-Counted s packet (thrown f) v = ground arith

Step-Counted : {s t : System} → Step s t → Counted s → Counted t
unfolding start request_stop join test_loop poll store_error leave
Step-Counted (starts b e) v = rw e (ground arith)
Step-Counted (requests e) v = rw e (ground arith)
Step-Counted (joins w e) v = rw e (ground arith)
Step-Counted (drains n e) v = rw e (drain-Counted _ n v)
Step-Counted (tests w e) v = rw e (ground arith)
Step-Counted (polls r w e) v = rw e (ground arith)
Step-Counted {s} (records p d w e) v = rw e (record_poll-Counted s p d v)
Step-Counted (fails what w e) v = rw e (ground arith)
Step-Counted (leaves w e) v = rw e (ground arith)

create-Counted :
    (has_source : Bool) (capacity : ℕ) {e : Engine}
    → create has_source capacity ≡ returned e
    → Counted (fresh_system e)
unfolding create
create-Counted has_source capacity h = ground (arith, Sublist.refl {A = PacketMetadata} [])

Reach-Counted : {s t : System} → Counted s → Reach s t → Counted t
Reach-Counted v here = v
Reach-Counted v (next r st) = Step-Counted st (Reach-Counted v r)

-- However the threads interleave from a new engine on: the queue never exceeds its capacity; the
-- packet and byte counters are those of all polled packets, modulo 2 ^ 64, also where the queue was
-- full; every polled packet was delivered, is queued, or found the queue full, and the last are
-- counted, modulo 2 ^ 64; and delivered packets followed by queued ones stand in polling order.
pub Reach-create-Counted :
    (has_source : Bool) (capacity : ℕ) {e : Engine} {s : System}
    → create has_source capacity ≡ returned e
    → Reach (fresh_system e) s
    → Counted s
Reach-create-Counted has_source capacity h r =
    Reach-Counted (create-Counted has_source capacity h) r
