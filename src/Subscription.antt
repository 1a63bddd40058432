-- ===== src/Subscription.antt =====
-- core/subscription: how subscriptions are fetched, and what the provider says of them.
pub mod Reference
pub mod Fetch
pub mod Info
