-- ===== src/Control.antt =====
-- core/control: the subscriptions that the service keeps.
pub mod Book
