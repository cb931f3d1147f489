-- ===== src/Connection/Settlement.antt =====
-- Settlement: what a handler publishes, against the records that owe an outcome before and after it.
mod Counts
mod Closure
mod Handlers
pub use Counts.*
pub use Closure.*
pub use Handlers.*
