-- ===== src/Trace/Reading.antt =====
-- The fields of a trace, read back from the JSON value that src/pqpatch/trace/canonical.py makes of
-- it. The timings of an event are a dictionary, whose order the sorting of the keys forgets.
pub mod RoundTrip
use nesy_pqpatch.Prelude.{
  ℕ, ◌≡◌, refl, ap, ◌∙◌, Bool-cases, inl, inr, Text, text, text_eq, Option, none, some, List, [],
  ◌∷◌, map, ◌==◌, if◌then◌else◌,
}
use nesy_pqpatch.Model.{
  UsageClass, sign, verify, kem, envelope, config, UnsafeClass, u1_param_weakening,
  u2_classical_fallback, u3_unchecked_verify, u4_key_confusion, u5_randomness_misuse,
  u6_hybrid_downgrade, u7_fail_open, Layer, l1_syntactic, l2_dataflow, l3_build, l4_conformance,
  RuleStatus, pass, fail, skipped, VerdictStatus, accept, reject, escalate, Site, Patch, RuleResult,
  LayerReport, Verdict, TraceEvent, TraceRecord,
}
use nesy_pqpatch.Trace.{
  usage_class_value, unsafe_class_value, layer_value, rule_status_value, verdict_status_value,
  items, optional, site_json, patch_json, rule_result_json, layer_report_json, verdict_json,
  timing_fields, event_json, trace_payload,
}
use nesy_pqpatch.Trace.Dumps.{
  Json, null, num, str, arr, obj, Items, nil, cons, Fields, end, field, text_lt, insert_field,
  sort_fields, sorted, sorted_items, sorted_fields,
}

abbrev as_text : Json → Text
as_text (str s) = s
as_text _ = []

abbrev as_number : Json → ℕ
as_number (num n) = n
as_number _ = 0

abbrev as_fields : Json → Fields
as_fields (obj fs) = fs
as_fields _ = end

abbrev as_items : Json → Items
as_items (arr xs) = xs
as_items _ = nil

abbrev at_key : Text → Fields → Json
at_key k end = null
at_key k (field j v fs) = if text_eq j k then v else at_key k fs

abbrev get : Text → Json → Json
get k j = at_key k (as_fields j)

abbrev list_of {ℓ} : {A : Type ℓ} → (Json → A) → Items → List A
list_of f nil = []
list_of f (cons x xs) = f x ∷ list_of f xs

abbrev option_of {ℓ} : {A : Type ℓ} → (Json → A) → Json → Option A
option_of f null = none
option_of f j = some (f j)

abbrev pairs_of : Fields → List (Text × ℕ)
pairs_of end = []
pairs_of (field k v fs) = (k, as_number v) ∷ pairs_of fs

abbrev usage_class_of : Json → UsageClass
usage_class_of j =
    let s = as_text j in
    if text_eq s (text "sign")
    then sign
    else if text_eq s (text "verify")
    then verify
    else if text_eq s (text "kem")
    then kem
    else if text_eq s (text "envelope")
    then envelope
    else config

abbrev unsafe_class_of : Json → UnsafeClass
unsafe_class_of j =
    let s = as_text j in
    if text_eq s (text "U1")
    then u1_param_weakening
    else if text_eq s (text "U2")
    then u2_classical_fallback
    else if text_eq s (text "U3")
    then u3_unchecked_verify
    else if text_eq s (text "U4")
    then u4_key_confusion
    else if text_eq s (text "U5")
    then u5_randomness_misuse
    else if text_eq s (text "U6")
    then u6_hybrid_downgrade
    else u7_fail_open

abbrev layer_from : ℕ → Layer
layer_from n =
    if n == 1
    then l1_syntactic
    else if n == 2
    then l2_dataflow
    else if n == 3
    then l3_build
    else l4_conformance

abbrev layer_of : Json → Layer
layer_of j = layer_from (as_number j)

abbrev rule_status_of : Json → RuleStatus
rule_status_of j =
    let s = as_text j in
    if text_eq s (text "pass")
    then pass
    else if text_eq s (text "fail")
    then fail
    else if text_eq s (text "error")
    then RuleStatus.error
    else skipped

abbrev verdict_status_of : Json → VerdictStatus
verdict_status_of j =
    let s = as_text j in
    if text_eq s (text "accept")
    then accept
    else if text_eq s (text "reject")
    then reject
    else if text_eq s (text "escalate")
    then escalate
    else VerdictStatus.error

abbrev site_of : Json → Site
site_of j = record {
  site_id = as_text (get (text "site_id") j);
  repo = as_text (get (text "repo") j);
  file_path = as_text (get (text "file_path") j);
  line = as_number (get (text "line") j);
  usage_class = usage_class_of (get (text "usage_class") j);
  matched_symbol = as_text (get (text "matched_symbol") j);
  detector_rule_id = as_text (get (text "detector_rule_id") j);
}

abbrev patch_of : Json → Patch
patch_of j = record {
  site_id = as_text (get (text "site_id") j);
  attempt = as_number (get (text "attempt") j);
  unified_diff = as_text (get (text "unified_diff") j);
  claimed_primitive = as_text (get (text "claimed_primitive") j);
  claimed_parameters = as_text (get (text "claimed_parameters") j);
  backend_id = as_text (get (text "backend_id") j);
  prompt_version = as_text (get (text "prompt_version") j);
  response_hash = as_text (get (text "response_hash") j);
}

abbrev rule_result_of : Json → RuleResult
rule_result_of j = record {
  rule_id = as_text (get (text "rule_id") j);
  layer = layer_of (get (text "layer") j);
  status = rule_status_of (get (text "status") j);
  unsafe_class = option_of unsafe_class_of (get (text "unsafe_class") j);
  rationale = as_text (get (text "rationale") j);
  duration_ms = as_number (get (text "duration_ms") j);
  detail = as_text (get (text "detail") j);
}

abbrev layer_report_of : Json → LayerReport
layer_report_of j = record {
  layer = layer_of (get (text "layer") j);
  results = list_of rule_result_of (as_items (get (text "results") j));
  duration_ms = as_number (get (text "duration_ms") j);
}

abbrev verdict_of : Json → Verdict
verdict_of j = record {
  site_id = as_text (get (text "site_id") j);
  status = verdict_status_of (get (text "status") j);
  accepted_patch = option_of patch_of (get (text "accepted_patch") j);
  rejected_rule_id = option_of as_text (get (text "rejected_rule_id") j);
  layer_reports = list_of layer_report_of (as_items (get (text "layer_reports") j));
  attempts_used = as_number (get (text "attempts_used") j);
  layers_evaluated = list_of layer_of (as_items (get (text "layers_evaluated") j));
}

abbrev event_of : Json → TraceEvent
event_of j = record {
  attempt = as_number (get (text "attempt") j);
  layer = option_of layer_of (get (text "layer") j);
  status = as_text (get (text "status") j);
  rule_id = option_of as_text (get (text "rule_id") j);
  timings_ms = pairs_of (as_fields (get (text "timings_ms") j));
}

-- a trace without its content hash and its signature
abbrev pub trace_of : Json → TraceRecord
trace_of j = record {
  site = site_of (get (text "site") j);
  usage_class = usage_class_of (get (text "usage_class") j);
  policy_version = as_text (get (text "policy_version") j);
  ruleset_version = as_text (get (text "ruleset_version") j);
  events = list_of event_of (as_items (get (text "events") j));
  verdict = verdict_of (get (text "verdict") j);
  content_hash = [];
  signature = none;
}

-- the timings of an event in the order of their keys
unfoldable insert_timing : Text → ℕ → List (Text × ℕ) → List (Text × ℕ)
insert_timing k ms [] = (k, ms) ∷ []
insert_timing k ms ((j, n) ∷ ts) =
    if text_lt j k then (j, n) ∷ insert_timing k ms ts else (k, ms) ∷ (j, n) ∷ ts

unfoldable pub sort_timings : List (Text × ℕ) → List (Text × ℕ)
unfolding insert_timing
sort_timings [] = []
sort_timings ((k, ms) ∷ ts) = insert_timing k ms (sort_timings ts)

abbrev pub sorted_timings : TraceEvent → TraceEvent
sorted_timings e = record e { timings_ms = sort_timings e.timings_ms }
