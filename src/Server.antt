-- ===== src/Server.antt =====
-- src/server.cpp, the HTTP and WebSocket server and its control worker, part by part.
pub mod Token
pub mod Queue
pub mod Traffic
pub mod Live
pub mod Sampling
pub mod Routes
pub mod Startup
pub mod Shutdown
pub mod App
pub mod Restart
