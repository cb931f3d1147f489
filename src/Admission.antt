-- ===== src/Admission.antt =====
-- admission/: who may enter, with which resources, and who holds them.
pub mod Options
pub mod KeySet
pub mod Ledger
pub mod Bounds
