-- ===== src/Routing.antt =====
-- core/routing: the rules that presets add to those of the user.
pub mod Presets
pub mod Applied
