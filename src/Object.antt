-- ===== src/Object.antt =====
-- internal/object
pub mod Objects
pub mod Cache
pub mod Synced
pub mod Identity
pub mod Ordered
pub mod Injective
