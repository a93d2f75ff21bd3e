-- ===== src/Incident.antt =====
-- internal/incident
pub mod Role
pub mod History
pub mod State
pub mod Exec
pub mod Contacts
pub mod Escalations
pub mod Notifications
pub mod Process
pub mod Current
pub mod Isolated
pub mod Registry
pub mod Reached
pub mod Absent
pub mod Moves
pub mod Steps
pub mod Handlers
pub mod Monotone
pub mod Severities
pub mod Generated
pub mod Evaluation
pub mod Atomic
pub mod Committed
