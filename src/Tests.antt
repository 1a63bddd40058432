-- ===== src/Tests.antt =====
-- Small runs of the models on concrete inputs.
pub mod Records
pub mod Engines
pub mod Sessions
pub mod Plans
pub mod Foreign
pub mod Stored
