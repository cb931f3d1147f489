-- ===== src/Slot.antt =====
-- crates/bornera/src/: one connection slot, which drives a core, a decoder and a transport in quanta.
pub mod Limits
pub mod Frame
pub mod Kinds
pub mod State
pub mod Events
pub mod Transition
pub mod Failure
pub mod Control
pub mod Admission
pub mod Deadlines
pub mod Pressure
pub mod Application
pub mod Establish
pub mod Quantum
pub mod Shutdown
pub mod Close
pub mod Recovery
pub mod Latch
pub mod Refusal
pub mod Numbers
pub mod Steps
pub mod Bounds
pub mod Rounds
pub mod Work
pub mod Outcomes
pub mod Steady
