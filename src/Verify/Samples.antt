-- ===== src/Verify/Samples.antt =====
-- A small verifier to run: one rule for each rule layer, a build check that fails one patch, and
-- no conformance runtime. The theorems about `verify_patch` are applied to it.
use nesy_pqpatch.Prelude.{
  ◌≡◌, ◌↔◌, ◌⊎◌, refl, Text, text, text_eq, Bool, true, false, none, some, [], ◌∷◌, All,
}
use nesy_pqpatch.Model.{
  Layer, l1_syntactic, l2_dataflow, kem, pass, fail, RuleStatus, Patch, Site, Policy, RuleResult,
  Verdict, accept, reject,
}
use nesy_pqpatch.Model.Report.{passed, first_failure, was_skipped}
use nesy_pqpatch.Python.{Result, ok, raised, not_implemented_error}
use nesy_pqpatch.Rules.Spec.{RuleOutcome, RuleSpec}
use nesy_pqpatch.Rules.Registry.{rules_by_layer}
use nesy_pqpatch.Verify.{
  Env, layer_order, default_enabled_layers, run_layer, verify_from, verify_patch,
  rejection_feedback,
}
use nesy_pqpatch.Verify.Order.{StopsAt}
use nesy_pqpatch.Verify.Accept.{
  clear, Accepts, RejectsAt, verify_patch_cases, verify_patch-accept_iff, accept_rules_return_pass,
}
use nesy_pqpatch.Verify.Layers.{ReturnsPass}
use nesy_pqpatch.Verify.Feedback.{says, feedback_names_failure}

abbrev pub site : Site
site = record {
  site_id = text "S-1";
  repo = text "demo";
  file_path = text "src/Wrap.java";
  line = 12;
  usage_class = kem;
  matched_symbol = text "RSA";
  detector_rule_id = text "D-1";
}

abbrev pub policy : Policy
policy = record {
  name = text "demo";
  version = text "1";
  floors = λ _. some (text "ML-KEM-768");
  hybrid_required = λ _. none;
  allowed_randomness_sources = [];
}

abbrev pub patch : Text → Patch
patch diff = record {
  site_id = text "S-1";
  attempt = 1;
  unified_diff = diff;
  claimed_primitive = text "ML-KEM";
  claimed_parameters = text "768";
  backend_id = text "B";
  prompt_version = text "v1";
  response_hash = [];
}

abbrev pub always : RuleStatus → Patch → Site → Policy → Result RuleOutcome
always status p s q = ok (record { status = status; detail = text "said" })

abbrev rule : Text → Layer → RuleSpec
rule rule_id layer = record {
  rule_id = rule_id;
  layer = layer;
  unsafe_class = none;
  cwe = text "CWE-0";
  severity = text "high";
  rationale = text "mend it";
  check = always pass;
}

-- The build fails an empty diff.
abbrev pub env : Env
env = record {
  registry = rule (text "PQ-A-01") l1_syntactic ∷ rule (text "PQ-B-01") l2_dataflow ∷ [];
  l1_stock_check = always pass;
  l3_check = λ p s q. always (elim p.unified_diff [ [] ↦ fail | _ ↦ pass ]) p s q;
  l4_check = λ p s q. raised (not_implemented_error (text "no runtime"));
  rule_ms = λ _. 1;
  layer_ms = λ _. 2;
}

abbrev pub good : Patch
good = patch (text "@@")

abbrev pub bad : Patch
bad = patch []

abbrev pub verdict : Patch → (Layer → Bool) → Verdict
verdict p enabled = verify_from env p site policy (text "pq") enabled layer_order [] []

pub returned :
    (p : Patch) (enabled : Layer → Bool)
    → verify_patch env p site policy (text "pq") enabled ≡ ok (verdict p enabled)
unfolding verify_patch text_eq
returned p enabled = refl

unfoldable pub program : Unit {0}
unfolding verify_patch text_eq run_layer rules_by_layer passed first_failure was_skipped
    default_enabled_layers rejection_feedback not_implemented_error
program = tt

good_accepted : (verdict good default_enabled_layers).status ≡ accept
unfolding program
good_accepted = refl

bad_rejected : (verdict bad default_enabled_layers).status ≡ reject
unfolding program
bad_rejected = refl

bad_feedback : rejection_feedback (verdict bad default_enabled_layers) ≡ some (text "said")
unfolding program
bad_feedback = refl

verify_patch_cases_example :
    ((clear env bad site policy (text "pq") default_enabled_layers layer_order ≡ true)
      × Accepts env bad site policy
          (text "pq")
          default_enabled_layers
          layer_order
          (verdict bad default_enabled_layers))
    ⊎ ((s : StopsAt env bad site policy (text "pq") default_enabled_layers layer_order)
        × (f : RuleResult) × (clear env bad site policy
              (text "pq")
              default_enabled_layers
              layer_order
            ≡ false)
        × RejectsAt env bad site policy
            (text "pq")
            default_enabled_layers
            s
            (verdict bad default_enabled_layers)
            f)
verify_patch_cases_example =
    verify_patch_cases env bad site policy (text "pq") default_enabled_layers
      (verdict bad default_enabled_layers) (returned bad default_enabled_layers)

verify_patch-accept_iff_example :
    ((verdict good default_enabled_layers).status ≡ accept)
    ↔ (clear env good site policy (text "pq") default_enabled_layers layer_order ≡ true)
verify_patch-accept_iff_example =
    verify_patch-accept_iff env good site policy (text "pq") default_enabled_layers
      (verdict good default_enabled_layers) (returned good default_enabled_layers)

accept_rules_return_pass_example :
    All (ReturnsPass env good site policy) (rules_by_layer env.registry l1_syntactic)
unfolding program
accept_rules_return_pass_example =
    accept_rules_return_pass env good site policy (text "pq") default_enabled_layers
      (verdict good default_enabled_layers) l1_syntactic (returned good default_enabled_layers)
      good_accepted refl refl refl

feedback_names_failure_example :
    (s : StopsAt env bad site policy (text "pq") default_enabled_layers layer_order)
    × (f : RuleResult) × (first_failure (run_layer env bad site policy (text "pq") s.at) ≡ some f)
    × ((verdict bad default_enabled_layers).rejected_rule_id ≡ some f.rule_id)
    × (rejection_feedback (verdict bad default_enabled_layers) ≡ says f)
feedback_names_failure_example =
    feedback_names_failure env bad site policy (text "pq") default_enabled_layers
      (verdict bad default_enabled_layers) (returned bad default_enabled_layers) bad_rejected
