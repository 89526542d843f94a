-- ===== src/Usage.antt =====
-- pkg/daemon: the accounting of tokens.
pub mod Observation
pub mod Delta
pub mod Claude
pub mod Merge
pub mod Fork
