-- ===== src/Write.antt =====
-- write/: the bounded owner of complete outbound frames, in wire order.
pub mod Frame
pub mod Budget
pub mod Queue
pub mod Front
pub mod Admit
pub mod Progress
pub mod Audit
pub mod Validity
pub mod Stream
pub mod Transmission
