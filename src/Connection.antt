-- ===== src/Connection.antt =====
-- connection/: the policy of one connection epoch, and the owner that joins it to the writer.
pub mod Effect
pub mod Journal
pub mod Core
pub mod Machine
pub mod Permit
pub mod Drive
pub mod Settlement
pub mod Soundness
pub mod Fencing
pub mod Epochs
pub mod History
pub mod Bounds
