-- ===== src/Tests/CaptureRuns.antt =====
-- A run of src/capture.cpp on an Ethernet frame with an IPv4 and UDP header and no payload.
use wirelab_experiments.Common.{ℕ, ◌≡◌, ◌⊎◌, arith, some, List, [], ◌∷◌}
use wirelab_experiments.Packet.{PacketMetadata, Application, unknown, dns, udp}
use wirelab_experiments.Capture.Frames.{tagged, bytes, Datagram, udp_frame}
use wirelab_experiments.Capture.Frames.ReadBack.{dissect-frame}
use wirelab_experiments.Capture.{dissect}
use wirelab_experiments.Capture.Safety.{IsConsistent, dissect-IsConsistent}
use wirelab_experiments.Tests.Samples.{small_inet}

abbrev frame : List ℕ
frame =
    2 ∷ 0 ∷ 0 ∷ 0 ∷ 0 ∷ 1 ∷ 2 ∷ 0 ∷ 0 ∷ 0 ∷ 0 ∷ 2 ∷ 8 ∷ 0 ∷ 69 ∷ 0 ∷ 0 ∷ 28 ∷ 0 ∷ 0 ∷ 0 ∷ 0 ∷ 64
    ∷ 17 ∷ 0 ∷ 0 ∷ 10 ∷ 0 ∷ 0 ∷ 2 ∷ 10 ∷ 0 ∷ 0 ∷ 1 ∷ 156 ∷ 64 ∷ 0 ∷ 53 ∷ 0 ∷ 8 ∷ 0 ∷ 0 ∷ []

dissect-IsConsistent_example :
    (p : PacketMetadata) × (dissect small_inet frame 42 1000 ≡ some p) × IsConsistent 42 1000 p
dissect-IsConsistent_example = dissect-IsConsistent small_inet frame 42 1000

abbrev query : Datagram
query = record {
  source = record { a = 10; b = 0; c = 0; d = 2 };
  destination = record { a = 10; b = 0; c = 0; d = 1 };
  source_port = 40000;
  destination_port = 53;
  payload = 1 ∷ 2 ∷ 3 ∷ [];
}

dissect-frame_example :
    (a : Application) × (dissect small_inet (udp_frame (tagged 7) query) 45 1000
      ≡ some (record {
        timestamp = 1000;
        wire_bytes = 45;
        source_ip = small_inet.inet_ntop (bytes query.source);
        destination_ip = small_inet.inet_ntop (bytes query.destination);
        source_port = some 40000;
        destination_port = some 53;
        protocol = udp;
        application = a;
      }))
    × ((a ≡ unknown) ⊎ ((a ≡ dns) × ((query.source_port ≡ 53) ⊎ (query.destination_port ≡ 53))))
dissect-frame_example =
    dissect-frame small_inet (tagged 7) query 45 1000 (omega arith) (omega arith) (omega arith)
