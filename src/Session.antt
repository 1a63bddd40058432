-- ===== src/Session.antt =====
-- core/session: one tunnel's state, engine, system settings and replayable events.
pub mod State
pub mod Journal
pub mod World
pub mod Runner
pub mod Lifecycle
pub mod Network
pub mod Notices
pub mod Supervise
pub mod Guarding
pub mod Ordering
pub mod Guard
pub mod Rounds
pub mod Manager
