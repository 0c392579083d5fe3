-- ===== src/LanChange.antt =====
-- agent/src/lan.rs, and the checks of agent/src/router.rs that it calls: a change of the LAN
-- settings, its confirmation and its recovery.
pub mod Bits
pub mod Settings
pub mod Manager
pub mod Subnet
pub mod Usable
pub mod Valid
pub mod Laws
pub mod Recovery
pub mod Hardware
mod Tests
