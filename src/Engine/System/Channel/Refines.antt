-- ===== src/Engine/System/Channel/Refines.antt =====
-- The engine of src/engine.cpp, with its threads, against the bounded channel.
use wirelab_experiments.Common.{
  ℕ, ◌+◌, ◌≤◌, ◌<◌, ◌≡◌, refl, sym, ap, subst, ◌∙◌, Bool, List, [], ◌∷◌, ◌++◌, Option, none, some,
  length, Outcome, returned, thrown, arith, append-nil, take, take-append-drop, length-append, ◌⊎◌,
  inl, inr,
}
use wirelab_experiments.Packet.{PacketMetadata}
use wirelab_experiments.Engine.{
  Engine, Failure, create, start, request_stop, join, test_loop, poll, record_poll, store_error,
  leave, drain, count_packet, set_kernel_dropped,
}
use wirelab_experiments.Engine.Drain.{drain_lem}
use wirelab_experiments.Engine.System.{
  System, Step, starts, requests, joins, drains, tests, polls, records, fails, leaves, Reach, here,
  next, fresh_system, note_poll,
}
use wirelab_experiments.Engine.System.Channel.{
  Event, accepts, drops, hands_over, Transition, accepting, dropping, handing_over, History,
  nothing_yet, extended, input, output, loss, Implements,
}

-- A step that no end of the channel sees.
record Unseen (s t : System) : Type 0 where
  queue : t.engine.queue ≡ s.engine.queue
  capacity : t.engine.capacity ≡ s.engine.capacity
  polled : t.polled ≡ s.polled
  delivered : t.delivered ≡ s.delivered
  lost : t.lost ≡ s.lost

Unseen-Implements :
    {capacity : ℕ} {s t : System} → Unseen s t → Implements capacity s → Implements capacity t
Unseen-Implements {capacity} u v = record {
  room = rw u.queue v.room;
  same_capacity = u.capacity ∙ v.same_capacity;
  events = v.events;
  history = subst (λ q. History capacity q v.events) (sym u.queue) v.history;
  polled = v.polled ∙ sym u.polled;
  delivered = v.delivered ∙ sym u.delivered;
  lost = v.lost ∙ sym u.lost;
}

-- A step that one end sees as `e`.
record Seen (e : Event) (s t : System) : Type 0 where
  transition : Transition s.engine.capacity s.engine.queue t.engine.queue e
  capacity : t.engine.capacity ≡ s.engine.capacity
  polled : t.polled ≡ s.polled ++ input e
  delivered : t.delivered ≡ s.delivered ++ output e
  lost : t.lost ≡ s.lost + loss e

Transition-room :
    {capacity : ℕ} {before after : List PacketMetadata} {e : Event}
    → Transition capacity before after e
    → length before ≤ capacity
    → length after ≤ capacity
Transition-room {before} (accepting p h k) r = rw k (omega (arith, length-append before (p ∷ [])))
Transition-room (dropping p h k) r = rw k r
Transition-room {after} (handing_over ps h) r =
    omega (arith, r, ap length h, length-append ps after)

Seen-Implements :
    {capacity : ℕ} {e : Event} {s t : System}
    → Seen e s t
    → Implements capacity s
    → Implements capacity t
Seen-Implements {capacity} {e} {s} {t} u v =
    let step =
      subst (λ c. Transition c s.engine.queue t.engine.queue e) v.same_capacity u.transition in
    record {
      room = Transition-room step v.room;
      same_capacity = u.capacity ∙ v.same_capacity;
      events = e ∷ v.events;
      history = extended e v.history step;
      polled = ap (λ ps. ps ++ input e) v.polled ∙ sym u.polled;
      delivered = ap (λ ps. ps ++ output e) v.delivered ∙ sym u.delivered;
      lost = ap (λ n. n + loss e) v.lost ∙ sym u.lost;
    }

drain-Seen :
    (s : System) (limit : ℕ)
    → Seen (hands_over (take limit s.engine.queue)) s (record s {
      engine = (drain limit s.engine).1;
      delivered = s.delivered ++ (drain limit s.engine).0;
    })
drain-Seen s limit = rw (drain_lem limit s.engine) (record {
  transition = handing_over _ (sym (take-append-drop limit s.engine.queue));
  capacity = refl;
  polled = sym (append-nil s.polled);
  delivered = refl;
  lost = omega arith;
})

module _ (s : System) (p : PacketMetadata) (d : Option ℕ) where
  polled_system : System
  polled_system = record (note_poll (some p) (returned d) s) {
    engine = record_poll (some p) (returned d) s.engine;
  }

  polled-drops : length s.engine.queue ≡ s.engine.capacity → Seen (drops p) s polled_system
  unfolding polled_system note_poll record_poll count_packet set_kernel_dropped
  polled-drops h = record {
    transition = dropping p h (ground arith);
    capacity = ground arith;
    polled = ground arith;
    delivered = ground (arith, append-nil s.delivered);
    lost = ground arith;
  }

  polled-accepts : length s.engine.queue < s.engine.capacity → Seen (accepts p) s polled_system
  unfolding polled_system note_poll record_poll count_packet set_kernel_dropped
  polled-accepts h = record {
    transition = accepting p h (ground arith);
    capacity = ground arith;
    polled = ground arith;
    delivered = ground (arith, append-nil s.delivered);
    lost = ground arith;
  }

record_poll-Implements :
    {capacity : ℕ} (s : System) (packet : Option PacketMetadata)
    (result : Outcome Failure (Option ℕ))
    → Implements capacity s
    → Implements capacity
        (record (note_poll packet result s) { engine = record_poll packet result s.engine })
unfolding note_poll record_poll set_kernel_dropped polled_system
record_poll-Implements s none (returned d) v =
    Unseen-Implements
      (record { queue = refl; capacity = refl; polled = refl; delivered = refl; lost = refl }) v
record_poll-Implements s (some p) (returned d) v = elim (full_or_room v.room v.same_capacity) [
  | inl h ↦ Seen-Implements (polled-drops s p d h) v
  | inr h ↦ Seen-Implements (polled-accepts s p d h) v
]
  where
    full_or_room : {n c capacity : ℕ} → n ≤ capacity → c ≡ capacity → (n ≡ c) ⊎ (n < c)
    full_or_room h e = ground arith
record_poll-Implements s packet (thrown f) v =
    Unseen-Implements
      (record { queue = refl; capacity = refl; polled = refl; delivered = refl; lost = refl }) v

-- The other steps touch neither end.
abbrev same_ends :
    (s : System) (e : Engine)
    → e.queue ≡ s.engine.queue
    → e.capacity ≡ s.engine.capacity
    → Unseen s (record s { engine = e })
same_ends s e q c = record { queue = q; capacity = c; polled = refl; delivered = refl; lost = refl }

Step-Implements :
    {capacity : ℕ} {s t : System} → Step s t → Implements capacity s → Implements capacity t
unfolding start request_stop join test_loop poll store_error leave
Step-Implements {s} (starts b e) v =
    rw e (Unseen-Implements (same_ends s (start b s.engine).0 (ground arith) (ground arith)) v)
Step-Implements {s} (requests e) v =
    rw e (Unseen-Implements (same_ends s (request_stop s.engine) (ground arith) (ground arith)) v)
Step-Implements {s} (joins w e) v =
    rw e (Unseen-Implements (same_ends s (join s.engine) refl refl) v)
Step-Implements {s} (drains n e) v = rw e (Seen-Implements (drain-Seen s n) v)
Step-Implements {s} (tests w e) v =
    rw e (Unseen-Implements (same_ends s (test_loop s.engine) refl refl) v)
Step-Implements {s} (polls r w e) v =
    rw e (Unseen-Implements (same_ends s (poll r s.engine) (ground arith) (ground arith)) v)
Step-Implements {s} (records p d w e) v = rw e (record_poll-Implements s p d v)
Step-Implements {s} (fails what w e) v =
    rw e (Unseen-Implements (same_ends s (store_error what s.engine) refl refl) v)
Step-Implements {s} (leaves w e) v =
    rw e (Unseen-Implements (same_ends s (leave s.engine) refl refl) v)

create-new :
    (has_source : Bool) (capacity : ℕ) {e : Engine}
    → create has_source capacity ≡ returned e
    → (e.queue ≡ []) × (e.capacity ≡ capacity)
unfolding create
create-new has_source capacity h = ground arith

create-Implements :
    (has_source : Bool) (capacity : ℕ) {e : Engine}
    → create has_source capacity ≡ returned e
    → Implements capacity (fresh_system e)
create-Implements has_source capacity {e} h =
    let made = create-new has_source capacity h in
    record {
      room = rw made.0 (omega arith);
      same_capacity = made.1;
      events = [];
      history = rw made.0 nothing_yet;
      polled = refl;
      delivered = refl;
      lost = refl;
    }

Reach-Implements :
    {capacity : ℕ} {s t : System} → Implements capacity s → Reach s t → Implements capacity t
Reach-Implements v here = v
Reach-Implements v (next r st) = Step-Implements st (Reach-Implements v r)

-- The engine is a channel: however its threads interleave from a new engine on, there is a history
-- of the bounded channel of its capacity that ends with the engine's queue, and in which the packets
-- polled so far were offered, the packets delivered so far were handed over, in the same order, and
-- as many were dropped as found the engine's queue full.
pub Reach-create-Implements :
    (has_source : Bool) (capacity : ℕ) {e : Engine} {s : System}
    → create has_source capacity ≡ returned e
    → Reach (fresh_system e) s
    → Implements capacity s
Reach-create-Implements has_source capacity h r =
    Reach-Implements (create-Implements has_source capacity h) r
