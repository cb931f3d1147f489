-- ===== src/Witnesses.antt =====
-- The theorems at concrete inputs.
mod Data
mod Connections
mod Writer
mod Frames
mod Cores
mod Commits
mod SlotData
mod Slots
mod Sets
