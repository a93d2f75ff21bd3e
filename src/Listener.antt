-- ===== src/Listener.antt =====
-- internal/listener
pub mod Handler
pub mod Guarded
