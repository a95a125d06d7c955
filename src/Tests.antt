-- ===== src/Tests.antt =====
-- The theorems at concrete inputs, and runs of the model.
mod Samples
mod Kernel
mod Promotion
mod Governor
mod Epistemic
mod Disposition
mod Registry
mod Relational
mod Constitution
