-- ===== src/Detector/Match.antt =====
-- The findings of src/pqpatch/detector/engine.py, before they are classified.
use nesy_pqpatch.Prelude.{ℕ, Text}

-- one finding of the scanner
pub record RawMatch : Type 0 where
  pub rule_id : Text
  pub file_path : Text
  pub line : ℕ
  pub end_line : ℕ
  pub matched_code_hint : Text
