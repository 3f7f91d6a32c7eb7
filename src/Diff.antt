-- ===== src/Diff.antt =====
-- Unified diffs: src/pqpatch/verifier/rules/diffutil.py (the lines that a diff adds and removes,
-- the files it touches, and whether a path is in scope) and diffapply.py (its hunks, and applying
-- them to one file).
pub mod Lines
pub mod Scope
pub mod Hunks
pub mod Locate
pub mod Apply
