-- ===== src/Engine/System.antt =====
-- The threads of src/engine.cpp as a step relation. The control thread calls `start`, `stop` and
-- `drain`, the worker runs `run`, and between any two steps each of them may come next.
-- Beside the engine a system keeps what has passed through it: `polled`, each packet that the loop
-- counted, `delivered`, each packet that `drain` returned, and `lost`, the number that found the
-- queue full.

pub mod Channel
pub mod Counters
pub mod Lifecycle
pub mod Stop
use wirelab_experiments.Common.{
  ℕ, ◌+◌, ◌≡◌, ◌≢◌, Bool, true, false, List, [], ◌∷◌, ◌++◌, Option, none, some, Text, length, ◌==◌,
  if◌then◌else◌, Outcome, returned, thrown,
}
use wirelab_experiments.Packet.{PacketMetadata}
use wirelab_experiments.Engine.{
  Engine, EngineError, Failure, Worker, absent, looping, polling, holding, failing, leaving,
  finished, create, start, request_stop, join, test_loop, poll, record_poll, store_error, leave,
  drain,
}

pub record System : Type 0 where
  pub engine : Engine
  pub polled : List PacketMetadata
  pub delivered : List PacketMetadata
  pub lost : ℕ

abbrev pub fresh_system : Engine → System
fresh_system e = record { engine = e; polled = []; delivered = []; lost = 0 }

-- The history of a recorded poll.
unfoldable pub note_poll : Option PacketMetadata → Outcome Failure (Option ℕ) → System → System
note_poll none (returned drops) s = s
note_poll (some p) (returned drops) s = record s {
  polled = s.polled ++ p ∷ [];
  lost = if length s.engine.queue == s.engine.capacity then s.lost + 1 else s.lost;
}
note_poll packet (thrown failure) s = s

pub data Step (s : System) (t : System) : Type 0 where
  starts : (spawned : Bool) → t ≡ record s { engine = (start spawned s.engine).0 } → Step s t
  requests : t ≡ record s { engine = request_stop s.engine } → Step s t
  joins : s.engine.worker ≡ finished → t ≡ record s { engine = join s.engine } → Step s t
  drains :
      (limit : ℕ)
      → t ≡ record s {
        engine = (drain limit s.engine).1;
        delivered = s.delivered ++ (drain limit s.engine).0;
      }
      → Step s t
  tests : s.engine.worker ≡ looping → t ≡ record s { engine = test_loop s.engine } → Step s t
  polls :
      (result : Outcome Failure (Option PacketMetadata))
      → s.engine.worker ≡ polling
      → t ≡ record s { engine = poll result s.engine }
      → Step s t
  records :
      (packet : Option PacketMetadata) (drops : Outcome Failure (Option ℕ))
      → s.engine.worker ≡ holding packet
      → t ≡ record (note_poll packet drops s) { engine = record_poll packet drops s.engine }
      → Step s t
  fails :
      (what : Text)
      → s.engine.worker ≡ failing what
      → t ≡ record s { engine = store_error what s.engine }
      → Step s t
  leaves : s.engine.worker ≡ leaving → t ≡ record s { engine = leave s.engine } → Step s t

pub data Reach (s : System) : System → Type 0 where
  here : Reach s s
  next : {t u : System} → Reach s t → Step t u → Reach s u
