-- ===== src/Engine.antt =====
-- core/engine: what the engines report, and how often an engine is restarted.
pub mod Events
pub mod Version
pub mod Bus
pub mod Backoff
pub mod Supervisor
