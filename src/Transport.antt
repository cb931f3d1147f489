-- ===== src/Transport.antt =====
-- crates/bornera/src/transport/ and socket.rs: what a slot asks of its transport, in bounded steps.
pub mod Progress
pub mod Pressure
pub mod Diagnostic
pub mod Port
