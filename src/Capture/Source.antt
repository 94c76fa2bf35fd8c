-- ===== src/Capture/Source.antt =====
-- The class `PcapSource` of src/capture.cpp. What libpcap and the clock answer is an argument. The
-- loop of src/engine.cpp with this source under it is `turn`.
pub mod Turns
use wirelab_experiments.Common.{
  ℕ, ◌+◌, ◌-◌, ◌*◌, ◌^◌, Bool, true, false, List, [], Option, none, some, Text, codes, leb, ltb,
  ◌==◌, ◌||◌, not, if◌then◌else◌, Outcome, returned, thrown,
}
use wirelab_experiments.Inet.{Inet}
use wirelab_experiments.Packet.{PacketMetadata}
use wirelab_experiments.Capture.{dissect}
use wirelab_experiments.Engine.{Engine, Failure, exception, poll, record_poll}

-- The members but the handle. Times are nanoseconds of the steady clock.
pub record Source : Type 0 where
  pub dropped : Option ℕ
  pub last_stats : ℕ

-- The calls of the constructor, in their order: `create` and `set_nonblock` fail with a text, each of
-- the four settings succeeds or not.
pub record Opening : Type 0 where
  pub create : Outcome Text (Unit {0})
  pub snaplen : Bool
  pub promisc : Bool
  pub timeout : Bool
  pub buffer_size : Bool
  pub activate : Outcome Text (Unit {0})
  pub ethernet : Bool
  pub set_nonblock : Outcome Text (Unit {0})

-- A capture that is not open is not used: a failure of the constructor leaves no object.
unfoldable pub open_source : Opening → Outcome Failure Source
open_source o = elim o.create [
  | thrown error ↦ thrown (exception error)
  | returned u ↦
      if not o.snaplen || not o.promisc || not o.timeout || not o.buffer_size
      then thrown (exception (codes "Cannot configure capture"))
      else elim o.activate [
        | thrown error ↦ thrown (exception error)
        | returned v ↦
            if not o.ethernet
            then thrown (exception (codes "Capture requires an Ethernet interface"))
            else elim o.set_nonblock [
              | thrown error ↦ thrown (exception error)
              | returned w ↦ returned (record { dropped = none; last_stats = 0 })
            ]
      ]
]

-- `pcap_next_ex`: a frame with its captured bytes, its length and its time, nothing yet, another
-- result that is not negative, or an error with the text of `pcap_geterr`.
pub data Next : Type 0 where
  frame : (bytes : List ℕ) (size seconds microseconds : ℕ) → Next
  no_frame : Next
  next_failed : Text → Next

-- What one call of `next` meets: the stop token, the clock, `pcap_stats` if asked, `pcap_next_ex`.
pub record Poll : Type 0 where
  pub stop_requested : Bool
  pub now : ℕ
  pub stats : Option ℕ
  pub next : Next

-- The statistics, at most once a second; a failure keeps the old number.
unfoldable pub refresh : Poll → Source → Source
refresh p s =
    if leb 1_000_000_000 (p.now - s.last_stats)
    then record {
      dropped = elim p.stats [ none ↦ s.dropped | some n ↦ some n ];
      last_stats = p.now;
    }
    else s

-- The result of `next`. `stray` stands for a read outside the captured bytes.
pub data Polled : Type 0 where
  stray : Polled
  answered : Outcome Failure (Option PacketMetadata) → Polled

unfoldable pub read_frame : Inet → Next → Polled
read_frame inet (frame bytes size seconds microseconds) =
    elim (dissect inet bytes size (seconds * 10 ^ 9 + microseconds * 1000)) [
      | none ↦ stray
      | some p ↦ answered (returned (some p))
    ]
read_frame inet no_frame = answered (returned none)
read_frame inet (next_failed error) = answered (thrown (exception error))

unfoldable pub next : Inet → Poll → Source → Source × Polled
next inet p s =
    if p.stop_requested
    then (s, answered (returned none))
    else (refresh p s, read_frame inet p.next)

abbrev pub kernel_drops : Source → Outcome Failure (Option ℕ)
kernel_drops s = returned s.dropped

-- One round of the loop of `CaptureEngine::run` with this source; nothing where `next` strays.
unfoldable pub turn : Inet → Poll → Source → Engine → Option (Source × Engine)
turn inet p s e =
    let r = next inet p s in
    elim r.1 [
      | stray ↦ none
      | answered (returned packet) ↦
          some (r.0, record_poll packet (kernel_drops r.0) (poll (returned packet) e))
      | answered (thrown failure) ↦ some (r.0, poll (thrown failure) e)
    ]
