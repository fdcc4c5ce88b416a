-- ===== src/Merging.antt =====
-- Merge references: the loops that follow them and their theory.
pub mod Chain
pub mod Run
pub mod Members
