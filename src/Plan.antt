-- ===== src/Plan.antt =====
-- core/engine: the plan of a session, what it asks of an engine, and how it is checked.
pub mod Names
pub mod Model
pub mod Needs
pub mod Catalog
pub mod Select
pub mod Cycle
pub mod Fields
pub mod Strategy
pub mod Parts
pub mod Validate
pub mod Secrets
pub mod Redactor
pub mod Tunnel
