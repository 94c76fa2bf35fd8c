-- ===== src/Capture/Source/Turns.antt =====
-- One round of the loop of src/engine.cpp over the source of src/capture.cpp.
use wirelab_experiments.Common.{
  ℕ, ◌+◌, ◌*◌, ◌%◌, ◌^◌, ◌≡◌, refl, ap, ◌∙◌, false, [], ◌∷◌, ◌++◌, Option, none, some, length, ◌==◌,
  if◌then◌else◌, Outcome, returned, thrown, arith,
}
use wirelab_experiments.Inet.{Inet}
use wirelab_experiments.Packet.{PacketMetadata}
use wirelab_experiments.Capture.Safety.{IsConsistent, dissect-IsConsistent}
use wirelab_experiments.Engine.{
  Engine, Failure, exception, looping, failing, poll, record_poll, count_packet, set_kernel_dropped,
}
use wirelab_experiments.Capture.Source.{
  Source, Next, frame, no_frame, next_failed, Poll, refresh, answered, read_frame, next, turn,
}

-- What the engine makes of a frame: the packet that describes it, counted, and queued unless the
-- queue is full.
abbrev pub Recorded : ℕ → ℕ → Engine → Engine → Type 0
Recorded size stamp e e' =
    (p : PacketMetadata) × IsConsistent size stamp p
    × (e'.queue ≡ (if length e.queue == e.capacity then e.queue else e.queue ++ p ∷ []))
    × (e'.counters.packets ≡ (e.counters.packets + 1) % 2 ^ 64)
    × (e'.counters.wire_bytes ≡ (e.counters.wire_bytes + size) % 2 ^ 64)

-- What a round does to the engine, by what libpcap answered; `drops` is the number that the source
-- has for the kernel's losses.
abbrev pub Effect : Next → Option ℕ → Engine → Engine → Type 0
Effect (frame bytes size seconds microseconds) drops e e' =
    Recorded size (seconds * 10 ^ 9 + microseconds * 1000) e e'
    × (e'.counters.kernel_dropped ≡ drops)
    × (e'.worker ≡ looping)
Effect no_frame drops e e' =
    (e'.queue ≡ e.queue)
    × (e'.counters.packets ≡ e.counters.packets)
    × (e'.counters.kernel_dropped ≡ drops)
    × (e'.worker ≡ looping)
Effect (next_failed error) drops e e' = e' ≡ record e { worker = failing error }

-- The rest of a round, once `next` has answered.
abbrev after_next : Option ℕ → Outcome Failure (Option PacketMetadata) → Engine → Engine
after_next drops (returned packet) e =
    record_poll packet (returned drops) (poll (returned packet) e)
after_next drops (thrown failure) e = poll (thrown failure) e

turn_answered :
    (inet : Inet) (q : Poll) (s : Source) (e : Engine) (r : Outcome Failure (Option PacketMetadata))
    → q.stop_requested ≡ false
    → read_frame inet q.next ≡ answered r
    → turn inet q s e ≡ some (refresh q s, after_next (refresh q s).dropped r e)
unfolding turn next
turn_answered inet q s e (returned packet) h k = ground arith
turn_answered inet q s e (thrown failure) h k = ground arith

record_poll-Recorded :
    (size stamp : ℕ) (p : PacketMetadata) (drops : Option ℕ) (e : Engine)
    → IsConsistent size stamp p
    → let e' = record_poll (some p) (returned drops) (poll (returned (some p)) e) in
      Recorded size stamp e e' × (e'.counters.kernel_dropped ≡ drops) × (e'.worker ≡ looping)
unfolding record_poll poll count_packet set_kernel_dropped
record_poll-Recorded size stamp p drops e c =
    ((p, c, ground arith, ground arith, ground (arith, c.wire_bytes)), ground arith, ground arith)

next-Effect :
    (inet : Inet) (x : Next) (q : Poll) (s : Source) (e : Engine)
    → q.stop_requested ≡ false
    → q.next ≡ x
    → (e' : Engine) × (turn inet q s e ≡ some (refresh q s, e'))
      × Effect x (refresh q s).dropped e e'
unfolding read_frame poll record_poll set_kernel_dropped
next-Effect inet (frame bytes size seconds microseconds) q s e h k =
    let (p, d, c) = dissect-IsConsistent inet bytes size (seconds * 10 ^ 9 + microseconds * 1000) in
    (
      _,
      turn_answered inet q s e (returned (some p)) h
          (ap (read_frame inet) k ∙ rw (d, read_frame) refl),
      record_poll-Recorded size _ p (refresh q s).dropped e c,
    )
next-Effect inet no_frame q s e h k = (
  _,
  turn_answered inet q s e (returned none) h (ap (read_frame inet) k),
  (refl, refl, refl, refl),
)
next-Effect inet (next_failed error) q s e h k =
    (_, turn_answered inet q s e (thrown (exception error)) h (ap (read_frame inet) k), refl)

-- A round of the worker with no stop requested never reads outside a frame. A frame becomes a packet
-- that describes it, is counted with its length, and is queued unless the queue is full; no frame
-- leaves the queue and the packet counter; either stores what the source knows of the kernel's losses;
-- an error of libpcap leaves all but the worker alone, which goes on to store its text.
pub turn-Effect :
    (inet : Inet) (q : Poll) (s : Source) (e : Engine)
    → q.stop_requested ≡ false
    → (e' : Engine) × (turn inet q s e ≡ some (refresh q s, e'))
      × Effect q.next (refresh q s).dropped e e'
turn-Effect inet q s e h = next-Effect inet q.next q s e h refl
