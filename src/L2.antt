-- ===== src/L2.antt =====
-- The L2 rules of src/pqpatch/verifier/l2_dataflow, over a parser of Java as a parameter.
pub mod Sets
pub mod Java
pub mod Expressions
pub mod VerifyUse
pub mod KeyFlow
pub mod Hybrid
pub mod HybridUse
pub mod Seed
pub mod Prng
pub mod Tokens
pub mod Bypass
pub mod Checks
pub mod Specs
pub mod Guarantees
mod Samples
mod LoopSamples
pub mod Machine
