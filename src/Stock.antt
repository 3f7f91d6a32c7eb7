-- ===== src/Stock.antt =====
-- src/pqpatch/verifier/l1_stock/__init__.py: the scan of a patched file by rules of the classical
-- era. The scanner and the files are parameters.
pub mod Decision
pub mod Samples
use nesy_pqpatch.Prelude.{
  ℕ, zero, suc, Text, text, text_eq, strip, join, not, List, [], ◌∷◌, ◌++◌, keep, ltb,
  if◌then◌else◌,
}
use nesy_pqpatch.Model.{pass, fail, RuleStatus, Patch}
use nesy_pqpatch.Python.{Result, ok, raised, diff_apply}
use nesy_pqpatch.Rules.Spec.{RuleOutcome, CheckFn}
use nesy_pqpatch.Diff.Apply.{apply_unified_diff}
use nesy_pqpatch.L1.Families.{sort_texts}

-- how often a rule is among the findings
unfoldable pub count : Text → List Text → ℕ
count rule [] = zero
count rule (r ∷ rs) = let rest = count rule rs in if text_eq r rule then suc rest else rest

-- each rule once
unfoldable pub distinct_rules : List Text → List Text
distinct_rules [] = []
distinct_rules (r ∷ rs) = r ∷ keep (λ s. not (text_eq s r)) (distinct_rules rs)

-- the rules with more findings after than before, in order
unfoldable pub introduced : List Text → List Text → List Text
introduced before after =
    sort_texts (keep (λ rule. ltb (count rule before) (count rule after)) (distinct_rules after))

-- The file of a site, and the rule of each finding of the scanner on a text.
pub record Scanner : Type 0 where
  pub read_text : Text → Result Text
  pub scan : Text → List Text

abbrev outcome : RuleStatus → Text → Result RuleOutcome
outcome status detail = ok (record { status = status; detail = detail })

module _ (scanner : Scanner) where
  unfoldable pub judge : List Text → Result RuleOutcome
  judge [] = outcome pass (text "classical-era pack sees nothing new in the patch")
  judge (rule ∷ rules) = outcome fail (
      text "classical-era pack flags findings the patch introduces: "
      ++ join (text ", ") (rule ∷ rules))

  unfoldable pub scan_patched : Text → Result Text → Result RuleOutcome
  scan_patched original (ok patched) =
      judge (introduced (scanner.scan original) (scanner.scan patched))
  scan_patched original (raised exc) = elim exc.kind [
    | diff_apply ↦ outcome RuleStatus.error (text "patch does not apply: " ++ exc.message)
    | _ ↦ raised exc
  ]

  unfoldable pub scan_source : Patch → Result Text → Result RuleOutcome
  scan_source patch (raised exc) = raised exc
  scan_source patch (ok original) =
      scan_patched original (apply_unified_diff original patch.unified_diff)

  unfoldable pub check_stock : CheckFn
  check_stock patch site policy = elim (strip patch.unified_diff) [
    | [] ↦ outcome pass (text "empty diff; classical pack sees nothing")
    | _ ↦ scan_source patch (scanner.read_text site.file_path)
  ]
