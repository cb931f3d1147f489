-- ===== src/Connection/Core.antt =====
-- connection/core.rs: the sole owner of the policy of an epoch and of its frames.
pub mod State
pub mod Integrity
pub mod Drive
pub mod Recovery
pub mod Audit
pub mod Latch
pub mod Held
pub mod Final
pub mod Recovered
pub mod Complete
pub mod Commit
