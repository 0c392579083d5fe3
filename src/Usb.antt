-- ===== src/Usb.antt =====
-- agent/src/usb.rs: the USB modes of the device and the switch between them.
pub mod Gadget
pub mod Wait
pub mod Modes
pub mod Switch
mod Tests
