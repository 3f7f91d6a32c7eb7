-- ===== src/Proposer.antt =====
-- src/pqpatch/proposer: what a backend makes of a raw response, the call through the cache, and the
-- backends that need no network.
pub mod Response
pub mod Backend
pub mod Scripted
pub mod Template
mod Samples
