-- ===== src/Event.antt =====
-- internal/event: `Severity` models severity.go, `Incoming` event.go.
pub mod Severity
pub mod Incoming
