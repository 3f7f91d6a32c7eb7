-- ===== src/L1/Outcome.antt =====
-- The outcomes of the rules of src/pqpatch/verifier/l1_syntactic/rules.py.
use nesy_pqpatch.Prelude.{Text, text, [], join, Option, none, some}
use nesy_pqpatch.Model.{pass, fail, Patch}
use nesy_pqpatch.Python.{Result, ok}
use nesy_pqpatch.Rules.Spec.{RuleOutcome}
use nesy_pqpatch.Diff.Lines.{added_lines}

-- _PASS
abbrev pub passes : Result RuleOutcome
passes = ok (record { status = pass; detail = [] })

-- RuleOutcome(RuleStatus.FAIL, detail=…)
abbrev pub fails : Text → Result RuleOutcome
fails detail = ok (record { status = fail; detail = detail })

-- FAIL with what a loop found first, or _PASS
abbrev pub fails_with : Option Text → Result RuleOutcome
fails_with none = passes
fails_with (some detail) = fails detail

-- "\n".join(added_lines(diff))
unfoldable pub joined_added : Patch → Text
unfolding added_lines join
joined_added patch = join (text "\n") (added_lines patch.unified_diff)
