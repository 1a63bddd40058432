-- ===== src/Secret.antt =====
-- core/secret: the store that keeps credentials for the other parts.
pub mod Items
pub mod Store
