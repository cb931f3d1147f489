-- ===== src/Connection/Soundness.antt =====
-- What holds of the policy of an epoch between two inputs: its phases, its gate and its records.
mod Invariant
mod Handlers
pub use Invariant.*
pub use Handlers.*
