-- ===== src/Singbox.antt =====
-- agent/src/singbox.rs: the gateway that sends the devices' traffic through sing-box.
pub mod Runtime
pub mod Safe
pub mod Router
pub mod Settings
pub mod Edits
pub mod Gateway
mod Tests
