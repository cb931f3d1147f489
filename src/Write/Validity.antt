-- ===== src/Write/Validity.antt =====
-- The writer's invariant, and what every operation does to it.
mod Invariant
mod Admission
mod Advance
mod Removal
pub use Invariant.*
pub use Admission.*
pub use Advance.*
pub use Removal.*
