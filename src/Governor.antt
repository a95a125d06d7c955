-- ===== src/Governor.antt =====
-- The governors of loop_engine/governor.py.
pub mod Retry
pub mod Bucket
pub mod Strikes
pub mod Step
