-- ===== src/Recipient.antt =====
-- internal/recipient
pub mod Rotations
pub mod Recipients
pub mod Active
