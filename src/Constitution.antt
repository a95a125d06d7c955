-- ===== src/Constitution.antt =====
-- Objectives, the evidence for them, and when they are met (loop_engine/constitution).
pub mod Capability
pub mod Evidence
pub mod Records
pub mod Lifecycle
pub mod Sufficiency
