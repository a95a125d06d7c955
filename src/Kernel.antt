-- ===== src/Kernel.antt =====
-- The kernel: loop_engine/schema.py, kernel_db.py, authority.py, transition.py and promoter.py.
pub mod State
pub mod Records
pub mod Database
pub mod Ledger
pub mod Operations
pub mod Custody
pub mod Minting
pub mod Authority
pub mod Transition
