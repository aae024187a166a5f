-- ===== src/Time.antt =====
-- Time keeping: kernel/time.
pub mod Rtc
