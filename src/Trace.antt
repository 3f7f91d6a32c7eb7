-- ===== src/Trace.antt =====
-- src/pqpatch/trace/canonical.py: the trace as JSON with sorted keys, and its content hash. SHA-256
-- is a parameter, a function from the serialized text to the hexadecimal digest.
pub mod Dumps
mod Reading
pub mod Tamper
pub mod Attest
mod Samples
use nesy_pqpatch.Prelude.{
  ℕ, ◌≡◌, Text, text, text_eq, Bool, true, false, Option, none, some, List, [], ◌∷◌, ◌++◌, map,
  if◌then◌else◌,
}
use nesy_pqpatch.Model.{
  UsageClass, sign, verify, kem, envelope, config, UnsafeClass, u1_param_weakening,
  u2_classical_fallback, u3_unchecked_verify, u4_key_confusion, u5_randomness_misuse,
  u6_hybrid_downgrade, u7_fail_open, Layer, l1_syntactic, l2_dataflow, l3_build, l4_conformance,
  RuleStatus, pass, fail, skipped, VerdictStatus, accept, reject, escalate, Site, Patch, RuleResult,
  LayerReport, Verdict, TraceEvent, TraceRecord,
}
use Dumps.{Json, null, str, num, arr, obj, Items, nil, cons, Fields, end, field, dumps}

-- the values of the enumerations
unfoldable pub usage_class_value : UsageClass → Text
usage_class_value sign = text "sign"
usage_class_value verify = text "verify"
usage_class_value kem = text "kem"
usage_class_value envelope = text "envelope"
usage_class_value config = text "config"

unfoldable pub unsafe_class_value : UnsafeClass → Text
unsafe_class_value u1_param_weakening = text "U1"
unsafe_class_value u2_classical_fallback = text "U2"
unsafe_class_value u3_unchecked_verify = text "U3"
unsafe_class_value u4_key_confusion = text "U4"
unsafe_class_value u5_randomness_misuse = text "U5"
unsafe_class_value u6_hybrid_downgrade = text "U6"
unsafe_class_value u7_fail_open = text "U7"

unfoldable pub layer_value : Layer → ℕ
layer_value l1_syntactic = 1
layer_value l2_dataflow = 2
layer_value l3_build = 3
layer_value l4_conformance = 4

unfoldable pub rule_status_value : RuleStatus → Text
rule_status_value pass = text "pass"
rule_status_value fail = text "fail"
rule_status_value RuleStatus.error = text "error"
rule_status_value skipped = text "skipped"

unfoldable pub verdict_status_value : VerdictStatus → Text
verdict_status_value accept = text "accept"
verdict_status_value reject = text "reject"
verdict_status_value escalate = text "escalate"
verdict_status_value VerdictStatus.error = text "error"

-- [_to_jsonable(v) for v in obj]
unfoldable items {ℓ} : {A : Type ℓ} → (A → Json) → List A → Items
items f [] = nil
items f (x ∷ xs) = cons (f x) (items f xs)

unfoldable optional {ℓ} : {A : Type ℓ} → (A → Json) → Option A → Json
optional f none = null
optional f (some x) = f x

unfoldable site_json : Site → Json
site_json s = obj (
    field (text "site_id") (str s.site_id) (
      field (text "repo") (str s.repo) (
        field (text "file_path") (str s.file_path) (
          field (text "line") (num s.line) (
            field (text "usage_class") (str (usage_class_value s.usage_class)) (
              field (text "matched_symbol") (str s.matched_symbol)
                (field (text "detector_rule_id") (str s.detector_rule_id) end)))))))

unfoldable patch_json : Patch → Json
patch_json p = obj (
    field (text "site_id") (str p.site_id) (
      field (text "attempt") (num p.attempt) (
        field (text "unified_diff") (str p.unified_diff) (
          field (text "claimed_primitive") (str p.claimed_primitive) (
            field (text "claimed_parameters") (str p.claimed_parameters) (
              field (text "backend_id") (str p.backend_id) (
                field (text "prompt_version") (str p.prompt_version)
                  (field (text "response_hash") (str p.response_hash) end))))))))

unfoldable rule_result_json : RuleResult → Json
unfolding optional
rule_result_json r = obj (
    field (text "rule_id") (str r.rule_id) (
      field (text "layer") (num (layer_value r.layer)) (
        field (text "status") (str (rule_status_value r.status)) (
          field (text "unsafe_class") (optional (λ u. str (unsafe_class_value u)) r.unsafe_class) (
            field (text "rationale") (str r.rationale) (
              field (text "duration_ms") (num r.duration_ms)
                (field (text "detail") (str r.detail) end)))))))

unfoldable layer_report_json : LayerReport → Json
unfolding items rule_result_json
layer_report_json r = obj (
    field (text "layer") (num (layer_value r.layer)) (
      field (text "results") (arr (items rule_result_json r.results))
        (field (text "duration_ms") (num r.duration_ms) end)))

unfoldable verdict_json : Verdict → Json
unfolding items optional layer_report_json patch_json
verdict_json v = obj (
    field (text "site_id") (str v.site_id) (
      field (text "status") (str (verdict_status_value v.status)) (
        field (text "accepted_patch") (optional patch_json v.accepted_patch) (
          field (text "rejected_rule_id") (optional str v.rejected_rule_id) (
            field (text "layer_reports") (arr (items layer_report_json v.layer_reports)) (
              field (text "attempts_used") (num v.attempts_used) (
                field (text "layers_evaluated")
                  (arr (items (λ l. num (layer_value l)) v.layers_evaluated)) end)))))))

unfoldable timing_fields : List (Text × ℕ) → Fields
timing_fields [] = end
timing_fields ((k, ms) ∷ rest) = field k (num ms) (timing_fields rest)

unfoldable event_json : TraceEvent → Json
unfolding optional timing_fields
event_json e = obj (
    field (text "attempt") (num e.attempt) (
      field (text "layer") (optional (λ l. num (layer_value l)) e.layer) (
        field (text "status") (str e.status) (
          field (text "rule_id") (optional str e.rule_id)
            (field (text "timings_ms") (obj (timing_fields e.timings_ms)) end)))))

-- `content_hash` and `signature` are left out.
unfoldable pub trace_payload : TraceRecord → Json
unfolding items event_json verdict_json site_json
trace_payload t = obj (
    field (text "site") (site_json t.site) (
      field (text "usage_class") (str (usage_class_value t.usage_class)) (
        field (text "policy_version") (str t.policy_version) (
          field (text "ruleset_version") (str t.ruleset_version) (
            field (text "events") (arr (items event_json t.events))
              (field (text "verdict") (verdict_json t.verdict) end))))))

unfoldable pub to_canonical_json : TraceRecord → Text
unfolding trace_payload
to_canonical_json t = dumps (trace_payload t)

module _ (sha256_hex : Text → Text) where
  unfoldable pub compute_content_hash : TraceRecord → Text
  unfolding to_canonical_json
  compute_content_hash t = sha256_hex (to_canonical_json t)

  unfoldable pub finalize_trace : TraceRecord → TraceRecord
  unfolding compute_content_hash
  finalize_trace t = record t { content_hash = compute_content_hash t }

  unfoldable pub verify_content_hash : TraceRecord → Bool
  unfolding compute_content_hash
  verify_content_hash t = elim t.content_hash [
    | [] ↦ false
    | _ ↦ text_eq (compute_content_hash t) t.content_hash
  ]
