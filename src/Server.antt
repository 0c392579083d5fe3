-- ===== src/Server.antt =====
-- agent/src/server.rs: a request, the checks in front of the handlers, and the console for AT
-- commands.
pub mod Routes
pub mod Gate
pub mod Admission
pub mod Guarded
pub mod Origin
pub mod Console
pub mod Ttl
mod Tests
