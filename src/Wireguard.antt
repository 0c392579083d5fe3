-- ===== src/Wireguard.antt =====
-- agent/src/wireguard.rs
pub mod Tunnel
pub mod Settings
pub mod Edits
pub mod Gateway
mod Tests
