-- ===== src/Engine/System/Channel.antt =====
-- The contract of the class `CaptureEngine` of src/engine.cpp as a channel: a bounded first-in
-- first-out queue that drops what it is offered when it is full.
pub mod Refines
use wirelab_experiments.Common.{
  ℕ, ◌+◌, ◌≤◌, ◌<◌, ◌≡◌, refl, sym, ap, subst, ◌∙◌, Bool, List, [], ◌∷◌, ◌++◌, Option, none, some,
  length, Outcome, returned, thrown, arith, append-nil, take, take-append-drop, length-append, ◌⊎◌,
  inl, inr,
}
use wirelab_experiments.Packet.{PacketMetadata}
use wirelab_experiments.Engine.{
  Engine, Failure, create, start, request_stop, join, test_loop, poll, record_poll, store_error,
  leave, drain, count_packet, set_kernel_dropped,
}
use wirelab_experiments.Engine.Drain.{drain_lem}
use wirelab_experiments.Engine.System.{
  System, Step, starts, requests, joins, drains, tests, polls, records, fails, leaves, Reach, here,
  next, fresh_system, note_poll,
}

-- What happens at the two ends.
pub data Event : Type 0 where
  accepts : PacketMetadata → Event
  drops : PacketMetadata → Event
  hands_over : List PacketMetadata → Event

-- One event of a channel of that capacity, from one content to the next.
pub data Transition (capacity : ℕ) (before after : List PacketMetadata) : Event → Type 0 where
  accepting :
      (p : PacketMetadata)
      → length before < capacity
      → after ≡ before ++ p ∷ []
      → Transition capacity before after (accepts p)
  dropping :
      (p : PacketMetadata)
      → length before ≡ capacity
      → after ≡ before
      → Transition capacity before after (drops p)
  handing_over :
      (ps : List PacketMetadata)
      → before ≡ ps ++ after
      → Transition capacity before after (hands_over ps)

-- A history from the empty channel, the last event first.
pub data History (capacity : ℕ) : List PacketMetadata → List Event → Type 0 where
  nothing_yet : History capacity [] []
  extended :
      {before after : List PacketMetadata} {es : List Event} (e : Event)
      → History capacity before es
      → Transition capacity before after e
      → History capacity after (e ∷ es)

abbrev pub input : Event → List PacketMetadata
input (accepts p) = p ∷ []
input (drops p) = p ∷ []
input (hands_over ps) = []

abbrev pub output : Event → List PacketMetadata
output (hands_over ps) = ps
output _ = []

abbrev pub loss : Event → ℕ
loss (drops p) = 1
loss _ = 0

-- What went in, what came out, and how often the channel was full.
abbrev pub offered : List Event → List PacketMetadata
offered [] = []
offered (e ∷ es) = offered es ++ input e

abbrev pub handed_over : List Event → List PacketMetadata
handed_over [] = []
handed_over (e ∷ es) = handed_over es ++ output e

abbrev pub dropped : List Event → ℕ
dropped [] = 0
dropped (e ∷ es) = dropped es + loss e

-- A history of the channel that has the system's queue as its content, and the same packets polled,
-- delivered and lost.
pub record Implements (capacity : ℕ) (s : System) : Type 0 where
  pub room : length s.engine.queue ≤ capacity
  pub same_capacity : s.engine.capacity ≡ capacity
  pub events : List Event
  pub history : History capacity s.engine.queue events
  pub polled : offered events ≡ s.polled
  pub delivered : handed_over events ≡ s.delivered
  pub lost : dropped events ≡ s.lost
