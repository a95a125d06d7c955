-- ===== src/Relational.antt =====
-- The relational graph and what plans over it (loop_engine/relational).
pub mod Schema
pub mod Store
pub mod Truth
pub mod Scheduler
pub mod Frontier
