-- ===== src/Queue/Delivery.antt =====
-- The two entry points of the queue as a whole, AppendWithStats and Drain (queue.go).
pub mod Filling
pub mod Halting
pub mod Appending
pub mod Draining
pub mod Onward
pub mod Acknowledged
pub mod Quarantined
pub mod Steps
pub mod Rounds
pub mod Finishing
