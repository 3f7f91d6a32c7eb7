-- ===== src/Rules/Spec.antt =====
-- src/pqpatch/verifier/rules/spec.py, without the fixture directories, which only tests read.
use nesy_pqpatch.Prelude.{Text, Option}
use nesy_pqpatch.Model.{Layer, RuleStatus, UnsafeClass, Patch, Site, Policy}
use nesy_pqpatch.Python.{Result}

pub record RuleOutcome : Type 0 where
  pub status : RuleStatus
  pub detail : Text

-- A check returns an outcome or raises.
abbrev pub CheckFn : Type 0
CheckFn = Patch → Site → Policy → Result RuleOutcome

pub record RuleSpec : Type 0 where
  pub rule_id : Text
  pub layer : Layer
  pub unsafe_class : Option UnsafeClass
  pub cwe : Text
  pub severity : Text
  pub rationale : Text
  pub check : CheckFn
