-- ===== src/Stock/Samples.antt =====
-- A scan that finds one rule on each line with an x, for src/pqpatch/verifier/l1_stock/__init__.py.
use nesy_pqpatch.Prelude.{◌≡◌, refl, Text, text, strip, join}
use nesy_pqpatch.Model.{pass}
use nesy_pqpatch.Python.{ok}
use nesy_pqpatch.Rules.Spec.{RuleOutcome}
use nesy_pqpatch.Diff.Apply.{apply_unified_diff}
use nesy_pqpatch.Diff.Locate.{locate}
use nesy_pqpatch.Verify.Samples.{site, policy, patch}
use nesy_pqpatch.Stock.{
  count, distinct_rules, introduced, Scanner, judge, scan_patched, scan_source, check_stock,
}
use nesy_pqpatch.L1.Families.{sort_texts}
use nesy_pqpatch.Prelude.{splitlines}

abbrev scanner : Scanner
scanner = record { read_text = λ path. ok (text "a\nb"); scan = λ source. splitlines source }

abbrev good : Text
good = text "@@ -1 +1 @@\n-a"

abbrev passed_outcome : RuleOutcome
passed_outcome = record {
  status = pass;
  detail = text "classical-era pack sees nothing new in the patch";
}

good_passes : check_stock scanner (patch good) site policy ≡ ok passed_outcome
unfolding check_stock scan_source scan_patched judge introduced count distinct_rules sort_texts
    apply_unified_diff locate strip splitlines join
good_passes = refl
