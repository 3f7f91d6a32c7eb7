-- ===== src/Verify/Feedback.antt =====
-- `rejection_feedback` of src/pqpatch/verifier/api.py on the verdicts of `verify_patch`.
use nesy_pqpatch.Prelude.{
  ◌≡◌, refl, ◌∙◌, Text, Bool, true, Bool-cases, inl, inr, Option, none, some, List, [], ◌∷◌, ◌++◌,
  map, all, arith, if◌then◌else◌,
}
use nesy_pqpatch.Model.{
  Layer, RuleStatus, eq_status, Patch, Site, Policy, RuleResult, LayerReport, Verdict, reject,
}
use nesy_pqpatch.Model.Report.{first_failure, passed→first_failure}
use nesy_pqpatch.Python.{ok, or_none, or_else_none}
use nesy_pqpatch.Verify.{
  Env, layer_order, skipped_report, run_layer, feedback_from, rejection_feedback_of,
  rejection_feedback, verify_patch,
}
use nesy_pqpatch.Verify.Order.{clears, report_of, StopsAt}
use nesy_pqpatch.Verify.Accept.{verify_patch_cases}

-- A failure that ERRORED speaks by its detail, and never by the rule's rationale.
abbrev pub says : RuleResult → Option Text
says f =
    if eq_status f.status RuleStatus.error
    then or_none f.detail
    else or_else_none f.rationale f.detail

rejection_feedback_of-says : (f : RuleResult) → rejection_feedback_of f ≡ says f
unfolding rejection_feedback_of
rejection_feedback_of-says f = ground arith

module _ (env : Env) (patch : Patch) (site : Site) (policy : Policy) (l1_mode : Text)
    (enabled_layers : Layer → Bool) where
  first_failure-clears :
      (l : Layer)
      → clears env patch site policy l1_mode enabled_layers l ≡ true
      → first_failure (report_of env patch site policy l1_mode enabled_layers l) ≡ none
  first_failure-clears l c = elim (Bool-cases (enabled_layers l)) [
    | inl on ↦ rw on (passed→first_failure _ (rw on at c))
    | inr off ↦ rw off (unfold skipped_report first_failure in refl)
  ]

  feedback_from-clear :
      (ls : List Layer) (r : LayerReport)
      → all (clears env patch site policy l1_mode enabled_layers) ls ≡ true
      → feedback_from (map (report_of env patch site policy l1_mode enabled_layers) ls ++ r ∷ [])
        ≡ feedback_from (r ∷ [])
  unfolding feedback_from
  feedback_from-clear [] r h = refl
  feedback_from-clear (l ∷ ls) r h =
      rw (first_failure-clears l (ground arith), feedback_from)
        (feedback_from-clear ls r (ground arith))

  feedback_from_last :
      (r : LayerReport) (f : RuleResult)
      → first_failure r ≡ some f
      → feedback_from (r ∷ []) ≡ says f
  unfolding feedback_from
  feedback_from_last r f h = rw (h, feedback_from) (rejection_feedback_of-says f)

  -- A rejecting verdict of the verifier names one rule: the one whose result is the first failure
  -- of the first layer that fails. The feedback comes from that result too: its detail if it
  -- ERRORED, else its rationale, or its detail where it has no rationale.
  pub feedback_names_failure :
      (v : Verdict)
      → verify_patch env patch site policy l1_mode enabled_layers ≡ ok v
      → v.status ≡ reject
      → (s : StopsAt env patch site policy l1_mode enabled_layers layer_order) × (f : RuleResult)
        × (first_failure (run_layer env patch site policy l1_mode s.at) ≡ some f)
        × (v.rejected_rule_id ≡ some f.rule_id)
        × (rejection_feedback v ≡ says f)
  unfolding rejection_feedback
  feedback_names_failure v h rej =
      elim (verify_patch_cases env patch site policy l1_mode enabled_layers v h) [
        | inl (c, a) ↦ absurd (ground (arith, a.0))
        | inr (s, f, n, r) ↦ (
          s,
          f,
          r.2,
          r.3,
          rw (rej, rejection_feedback, r.5)
              (feedback_from-clear s.before (run_layer env patch site policy l1_mode s.at) s.clear
                ∙ feedback_from_last _ f r.2),
        )
      ]
