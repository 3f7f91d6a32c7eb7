-- ===== src/Eval.antt =====
-- The trap suite of src/pqpatch/eval: its loader and its summary.
pub mod Values
pub mod TrapData
pub mod Traps
pub mod Suite
pub mod Adjudicate
pub mod Outcomes
mod Samples
