-- ===== src/Control/Book.antt =====
-- core/control/subscriptions.go: `subscriptionBook`. A failure is its code and its key. The state that is
-- sent to watchers and the entries of the log are left out.
pub mod Record
pub mod Save
pub mod Update
pub mod Distinct
pub mod Runs
pub mod Removed
