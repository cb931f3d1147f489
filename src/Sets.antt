-- ===== src/Sets.antt =====
-- crates/bornera/src/: the set of slots that share one selector.
pub mod State
pub mod Settle
pub mod Ready
pub mod Access
pub mod Queue
pub mod Turns
pub mod Drive
pub mod Ingest
pub mod Recovery
pub mod Fencing
