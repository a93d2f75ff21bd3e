-- ===== src/Rule.antt =====
-- internal/rule
pub mod Condition
pub mod Reevaluation
pub mod Escalation
pub mod SameAge
