-- ===== src/Lib.antt =====
-- WireLab Experiments: a daemon that captures packet metadata on an Ethernet interface and sets up a
-- confirmed network configuration between an outer and an inner port.
--
-- The parts, and the files that model them:
--   Packet, Engine     src/engine.cpp and include/magicbox/engine.hpp. `CaptureEngine` is the record
--                      `Engine`; each critical section of its mutex, and each step of the worker
--                      thread between two, is a function. Engine/System is the step relation of the
--                      two threads, with what has passed through the queue.
--   Inet               The address functions of <arpa/inet.h>, a parameter.
--   Config             src/config.cpp and include/magicbox/config.hpp: `validate` and its helpers.
--   Capture            `dissect` of src/capture.cpp. A read outside the packet is a fault.
--                      Capture/Frames builds frames for it.
--   Capture/Source     `PcapSource` of src/capture.cpp, and a round of the engine over it. The answers
--                      of libpcap are arguments.
--   Network            src/network.cpp: `NetworkController`. A method is a function from the
--                      controller to its outcome, the new controller and the log of the changes it
--                      asked for. The kernel, `nft`, `ip`, /proc and the database are the parameter
--                      `Kernel` of Network/Outside.
--   Json               src/json.cpp. `Json::Value` of jsoncpp is the parameter `Json`, and what the
--                      sources rely on is the record `JsonLaws`.
--   Store              src/store.cpp: each method as the log of its statements, over the parameter
--                      `Database`. Store/Tables reads the SQL of the statements as functions on tables,
--                      and makes a database of them; what SQLite refuses, its clock and
--                      `json_extract` are the parameter `Sqlite`. A ROLLBACK that it refuses
--                      has found no transaction open, the only reason that SQLite gives for that.
--   Process            `command` of src/process.cpp. The answers of the operating system are lists, one
--                      entry for each round of a loop.
--   Server             src/server.cpp: Server/Startup is `run_appliance`, Server/Token admits requests,
--                      Server/Queue is the queue of control jobs, Server/Routes the endpoints,
--                      Server/Traffic the aggregation of drained packets, Server/Sampling the rest of
--                      `sample` with the start and end of a capture, Server/Shutdown the end of `work`,
--                      Server/Live the web socket as a step relation of its two threads. Server/App
--                      puts the capture and the network behind the one queue, Server/Restart the
--                      tables of the store behind the controller.
--   Main               The arguments of src/main.cpp.
--   Tests              Concrete runs.
--
-- `work` of src/server.cpp drains the engine, ticks the controller and serves the queue. A request is
-- admitted, queued, and then read by Json; the controller validates a configuration with Config
-- before it changes anything. A sample drains the engine, aggregates, and hands the differences of
-- the counters to the store.
--
-- Numbers: a counter of 64 bits is a natural number with its wrap-around written out, and a number
-- with a sign is an integer with that of 64 bits. Texts are lists of bytes. No definition runs out of
-- fuel: loops are structural, and the ones over VLAN tags, MAC bytes and port digits count the rounds
-- that the source bounds. The loops of `command` run over the answers that they get, and are still
-- running where these end.
--
-- Not modelled: the opening of the database, and sums as floating point, which SQLite makes of texts
-- and of what leaves 64 bits; `parse_json` and `json_text`, which only call jsoncpp; in src/network.cpp the encoding of
-- Netlink messages, and how `read_file` and `table_exists` find their answers; in src/server.cpp the
-- JSON of the answers, which are records, the rates, which are floating point, and drogon; and the
-- dashboard.

pub mod Common
pub mod Packet
pub mod Engine
pub mod Inet
pub mod Config
pub mod Capture
pub mod Network
pub mod Server
pub mod Main
pub mod Json
pub mod Store
pub mod Process
pub mod Tests
