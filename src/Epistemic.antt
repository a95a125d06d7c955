-- ===== src/Epistemic.antt =====
-- Evidence envelopes (loop_engine/epistemic.py).
pub mod Status
pub mod Envelope
pub mod Lattice
pub mod History
