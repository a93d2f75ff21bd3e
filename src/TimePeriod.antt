-- ===== src/TimePeriod.antt =====
-- internal/timeperiod/timeperiod.go
pub mod Entries
