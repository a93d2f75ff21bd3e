-- ===== src/Runtime/Pending.antt =====
-- internal/config: the applyPending methods of the tables.
pub mod Contacts
pub mod Periods
pub mod Schedules
pub mod Rules
pub mod Update
