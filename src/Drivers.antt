-- ===== src/Drivers.antt =====
-- The drivers: kernel/drivers.
pub mod Keyboard
pub mod Console
pub mod Video
