-- ===== src/Queue.antt =====
-- The event queue (pkg/eventqueue): definitions first, then what is proved of them.
pub mod Codec
pub mod Database
pub mod Store
pub mod Retention
pub mod Append
pub mod Drain
pub mod Views
pub mod Consistent
pub mod Delivery
