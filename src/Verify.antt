-- ===== src/Verify.antt =====
-- src/pqpatch/verifier/api.py: the four layers, applied in order, and the feedback for the repair
-- loop. The checks that reach tools outside (the stock scanner, the build, the conformance
-- harness) and the clock enter as a record, so a theorem holds whatever they answer.
pub mod Layers
pub mod Order
pub mod Accept
pub mod Conformance
pub mod Feedback
pub mod Samples
use nesy_pqpatch.Prelude.{
  ℕ, ◌≡◌, Text, text, text_eq, Bool, true, false, not, ◌&&◌, ◌||◌, Option, none, some, List, [],
  ◌∷◌, ◌++◌, if◌then◌else◌,
}
use nesy_pqpatch.Model.{
  Layer, l1_syntactic, l2_dataflow, l3_build, l4_conformance, RuleStatus, pass, skipped, eq_status,
  UnsafeClass, Patch, Site, Policy, RuleResult, LayerReport, Verdict, accept, reject, VerdictStatus,
}
use nesy_pqpatch.Model
use nesy_pqpatch.Model.Report.{passed, first_failure}
use nesy_pqpatch.Python.{
  Result, ok, raised, Exception, not_implemented, value_error, repr, or_none, or_else_none,
}
use nesy_pqpatch.Rules.Spec.{RuleOutcome, CheckFn, RuleSpec}
use nesy_pqpatch.Rules.Registry.{Registry, rules_by_layer}

-- What one call of the verifier finds outside itself.
pub record Env : Type 0 where
  pub registry : Registry
  pub l1_stock_check : CheckFn
  pub l3_check : CheckFn
  pub l4_check : CheckFn
  pub rule_ms : Text → ℕ
  pub layer_ms : Layer → ℕ

abbrev pub layer_order : List Layer
layer_order = l1_syntactic ∷ l2_dataflow ∷ l3_build ∷ l4_conformance ∷ []

-- DEFAULT_ENABLED_LAYERS
unfoldable pub default_enabled_layers : Layer → Bool
default_enabled_layers l4_conformance = false
default_enabled_layers _ = true

-- layer.name
unfoldable pub layer_name : Layer → Text
layer_name l1_syntactic = text "L1_SYNTACTIC"
layer_name l2_dataflow = text "L2_DATAFLOW"
layer_name l3_build = text "L3_BUILD"
layer_name l4_conformance = text "L4_CONFORMANCE"

-- The handler around a rule: whatever is raised becomes an ERROR.
unfoldable pub rule_outcome : Result RuleOutcome → RuleOutcome
rule_outcome (ok outcome) = outcome
rule_outcome (raised e) = record {
  status = RuleStatus.error;
  detail = text "rule raised: " ++ e.repr;
}

layer_raised : Model.Layer → Exception → RuleOutcome
layer_raised layer e = elim e.kind [
  | not_implemented ↦ record { status = skipped; detail = e.message }
  | _ ↦ record { status = RuleStatus.error; detail = text "layer raised: " ++ e.repr }
]

-- The handlers around a single check: NotImplementedError becomes SKIPPED, the rest an ERROR.
unfoldable pub check_outcome : Layer → Result RuleOutcome → RuleOutcome
unfolding layer_raised
check_outcome layer (ok outcome) = outcome
check_outcome layer (raised e) = layer_raised layer e

unfoldable pub rejection_feedback_of : RuleResult → Option Text
rejection_feedback_of failure = elim failure.status [
  | RuleStatus.error ↦ or_none failure.detail
  | _ ↦ or_else_none failure.rationale failure.detail
]

-- The loop over the reports: the first that has a failure answers.
unfoldable pub feedback_from : List LayerReport → Option Text
unfolding rejection_feedback_of
feedback_from [] = none
feedback_from (report ∷ reports) = elim (first_failure report) [
  | none ↦ feedback_from reports
  | some failure ↦ rejection_feedback_of failure
]

unfoldable pub rejection_feedback : Verdict → Option Text
unfolding feedback_from
rejection_feedback verdict = elim verdict.status [
  | reject ↦ feedback_from verdict.layer_reports
  | _ ↦ none
]

-- Report for a layer that is not enabled.
unfoldable pub skipped_report : Layer → LayerReport
unfolding layer_name
skipped_report layer = record {
  layer = layer;
  results =
      record {
        rule_id = text "<" ++ (layer_name layer ++ text "-disabled>");
        layer = layer;
        status = skipped;
        unsafe_class = none;
        rationale = [];
        duration_ms = 0;
        detail = text "layer excluded from enabled_layers for this verification call";
      }
      ∷ [];
  duration_ms = 0;
}

module _ (env : Env) (patch : Patch) (site : Site) (policy : Policy) where
  unfoldable pub rule_result : RuleSpec → RuleResult
  unfolding rule_outcome
  rule_result spec =
      let outcome = rule_outcome (spec.check patch site policy) in
      record {
        rule_id = spec.rule_id;
        layer = spec.layer;
        status = outcome.status;
        unsafe_class = spec.unsafe_class;
        rationale = spec.rationale;
        duration_ms = env.rule_ms spec.rule_id;
        detail = outcome.detail;
      }

  -- The rules of a layer stop at the first that does not return PASS.
  unfoldable pub run_rules : List RuleSpec → List RuleResult
  unfolding rule_result
  run_rules [] = []
  run_rules (spec ∷ specs) =
      let rest = run_rules specs in
      rule_result spec ∷ (if eq_status (rule_result spec).status pass then rest else [])

  unfoldable pub run_rule_registry_layer : Layer → LayerReport
  unfolding run_rules
  run_rule_registry_layer layer = record {
    layer = layer;
    results = run_rules (rules_by_layer env.registry layer);
    duration_ms = env.layer_ms layer;
  }

  unfoldable pub run_single_check_layer : Layer → CheckFn → Text → LayerReport
  unfolding check_outcome
  run_single_check_layer layer check_fn rule_id =
      let outcome = check_outcome layer (check_fn patch site policy) in
      record {
        layer = layer;
        results =
            record {
              rule_id = rule_id;
              layer = layer;
              status = outcome.status;
              unsafe_class = none;
              rationale = [];
              duration_ms = env.layer_ms layer;
              detail = outcome.detail;
            }
            ∷ [];
        duration_ms = env.layer_ms layer;
      }

  module _ (l1_mode : Text) where
    unfoldable pub run_layer : Layer → LayerReport
    unfolding run_single_check_layer run_rule_registry_layer
    run_layer l1_syntactic =
        if text_eq l1_mode (text "stock")
        then run_single_check_layer l1_syntactic env.l1_stock_check (text "<L1-stock-classical>")
        else run_rule_registry_layer l1_syntactic
    run_layer l2_dataflow = run_rule_registry_layer l2_dataflow
    run_layer l3_build = run_single_check_layer l3_build env.l3_check (text "<L3-build>")
    run_layer l4_conformance =
        run_single_check_layer l4_conformance env.l4_check (text "<L4-conformance>")

    module _ (enabled_layers : Layer → Bool) where
      abbrev accepted : List LayerReport → List Layer → Verdict
      accepted reports evaluated = record {
        site_id = patch.site_id;
        status = accept;
        accepted_patch = some patch;
        rejected_rule_id = none;
        layer_reports = reports;
        attempts_used = patch.attempt;
        layers_evaluated = evaluated;
      }

      abbrev rejected : Option RuleResult → List LayerReport → List Layer → Verdict
      rejected first reports evaluated = record {
        site_id = patch.site_id;
        status = reject;
        accepted_patch = none;
        rejected_rule_id = elim first [ none ↦ none | some f ↦ some f.rule_id ];
        layer_reports = reports;
        attempts_used = patch.attempt;
        layers_evaluated = evaluated;
      }

      -- The loop over the layers that are left, with the reports and the evaluated layers so far.
      unfoldable pub verify_from : List Layer → List LayerReport → List Layer → Verdict
      verify_from [] reports evaluated = accepted reports evaluated
      verify_from (layer ∷ layers) reports evaluated = elim (enabled_layers layer) [
        | false ↦ verify_from layers (reports ++ skipped_report layer ∷ []) evaluated
        | true ↦
            let report = run_layer layer in
            let reports' = reports ++ report ∷ [] in
            let evaluated' = evaluated ++ layer ∷ [] in
            elim (passed report) [
              | true ↦ verify_from layers reports' evaluated'
              | false ↦ rejected (first_failure report) reports' evaluated'
            ]
      ]

      unfoldable pub verify_patch : Result Verdict
      unfolding verify_from
      verify_patch =
          if text_eq l1_mode (text "pq") || text_eq l1_mode (text "stock")
          then ok (verify_from layer_order [] [])
          else raised (value_error (text "l1_mode must be 'pq' or 'stock', got " ++ repr l1_mode))
