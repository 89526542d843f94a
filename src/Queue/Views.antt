-- ===== src/Queue/Views.antt =====
-- The queue's indexes as functions: what each bucket answers to Get. The invariants of the time
-- index and of the identifier indexes, and that adding and removing one event keeps them.
mod Timed
mod Indexed
pub use Timed.*
pub use Indexed.*
