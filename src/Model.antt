-- ===== src/Model.antt =====
-- src/pqpatch/model.py: the payloads that the parts hand to each other. A dictionary keyed by
-- `UsageClass` is a function (`none` for a missing key), a duration is the number that the clock
-- gave, and a tuple is a list. The properties of `LayerReport` are in the module `Report`.
pub mod Report
use nesy_pqpatch.Prelude.{ℕ, Text, Bool, true, false, Option, List}

pub data UsageClass : Type 0 where
  sign verify kem envelope config : UsageClass

pub data UnsafeClass : Type 0 where
  u1_param_weakening u2_classical_fallback u3_unchecked_verify u4_key_confusion : UnsafeClass
  u5_randomness_misuse u6_hybrid_downgrade u7_fail_open : UnsafeClass

pub data Layer : Type 0 where
  l1_syntactic l2_dataflow l3_build l4_conformance : Layer

pub data RuleStatus : Type 0 where
  pass fail error skipped : RuleStatus

pub data VerdictStatus : Type 0 where
  accept reject escalate error : VerdictStatus

-- status == other
abbrev pub eq_status : RuleStatus → RuleStatus → Bool
eq_status pass pass = true
eq_status fail fail = true
eq_status error error = true
eq_status skipped skipped = true
eq_status _ _ = false

-- layer == other
abbrev pub eq_layer : Layer → Layer → Bool
eq_layer l1_syntactic l1_syntactic = true
eq_layer l2_dataflow l2_dataflow = true
eq_layer l3_build l3_build = true
eq_layer l4_conformance l4_conformance = true
eq_layer _ _ = false

pub record Site : Type 0 where
  pub site_id : Text
  pub repo : Text
  pub file_path : Text
  pub line : ℕ
  pub usage_class : UsageClass
  pub matched_symbol : Text
  pub detector_rule_id : Text

pub record Context : Type 0 where
  pub site : Site
  pub enclosing_method : Text
  pub enclosing_class : Text
  pub file_source : Text
  pub caller_snippets : List Text
  pub callee_snippets : List Text
  pub config_excerpts : List Text

pub record Policy : Type 0 where
  pub name : Text
  pub version : Text
  pub floors : UsageClass → Option Text
  pub hybrid_required : UsageClass → Option Bool
  pub allowed_randomness_sources : List Text

pub record Patch : Type 0 where
  pub site_id : Text
  pub attempt : ℕ
  pub unified_diff : Text
  pub claimed_primitive : Text
  pub claimed_parameters : Text
  pub backend_id : Text
  pub prompt_version : Text
  pub response_hash : Text

pub record RuleResult : Type 0 where
  pub rule_id : Text
  pub layer : Layer
  pub status : RuleStatus
  pub unsafe_class : Option UnsafeClass
  pub rationale : Text
  pub duration_ms : ℕ
  pub detail : Text

pub record LayerReport : Type 0 where
  pub layer : Layer
  pub results : List RuleResult
  pub duration_ms : ℕ

pub record Verdict : Type 0 where
  pub site_id : Text
  pub status : VerdictStatus
  pub accepted_patch : Option Patch
  pub rejected_rule_id : Option Text
  pub layer_reports : List LayerReport
  pub attempts_used : ℕ
  pub layers_evaluated : List Layer

pub record TraceEvent : Type 0 where
  pub attempt : ℕ
  pub layer : Option Layer
  pub status : Text
  pub rule_id : Option Text
  pub timings_ms : List (Text × ℕ)

pub record TraceRecord : Type 0 where
  pub site : Site
  pub usage_class : UsageClass
  pub policy_version : Text
  pub ruleset_version : Text
  pub events : List TraceEvent
  pub verdict : Verdict
  pub content_hash : Text
  pub signature : Option Text
