-- ===== src/Shortcut.antt =====
-- agent/src/screen_shortcut.rs: four short presses of the power key, and the hold of the corner.
pub mod Gesture
pub mod Corner
mod Tests
