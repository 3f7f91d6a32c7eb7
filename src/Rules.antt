-- ===== src/Rules.antt =====
-- src/pqpatch/verifier/rules: what a rule is, the registry that holds the rules, and the ranks of
-- the parameter sets.
pub mod Spec
pub mod Registry
pub mod Ranks
