-- ===== src/Trace/Reading/RoundTrip.antt =====
-- What src/pqpatch/trace/canonical.py makes of a trace says each field of it but the hash and the
-- signature.
use nesy_pqpatch.Prelude.{
  ℕ, ◌≡◌, refl, ap, ◌∙◌, Bool-cases, inl, inr, Text, text_eq, Option, none, some, List, [], ◌∷◌,
  map,
}
use nesy_pqpatch.Model.{
  UsageClass, sign, verify, kem, envelope, config, UnsafeClass, u1_param_weakening,
  u2_classical_fallback, u3_unchecked_verify, u4_key_confusion, u5_randomness_misuse,
  u6_hybrid_downgrade, u7_fail_open, Layer, l1_syntactic, l2_dataflow, l3_build, l4_conformance,
  RuleStatus, pass, fail, skipped, VerdictStatus, accept, reject, escalate, Site, Patch, RuleResult,
  LayerReport, Verdict, TraceEvent, TraceRecord,
}
use nesy_pqpatch.Trace.{
  usage_class_value, unsafe_class_value, layer_value, rule_status_value, verdict_status_value,
  items, optional, site_json, patch_json, rule_result_json, layer_report_json, verdict_json,
  timing_fields, event_json, trace_payload,
}
use nesy_pqpatch.Trace.Dumps.{
  Json, num, str, Fields, end, field, text_lt, insert_field, sort_fields, sorted, sorted_items,
  sorted_fields,
}
use nesy_pqpatch.Trace.Reading.{
  as_text, as_number, list_of, option_of, pairs_of, usage_class_of, unsafe_class_of, layer_of,
  rule_status_of, verdict_status_of, site_of, patch_of, rule_result_of, layer_report_of, verdict_of,
  event_of, trace_of, insert_timing, sort_timings, sorted_timings,
}

usage_class_read : (u : UsageClass) → usage_class_of (str (usage_class_value u)) ≡ u
unfolding usage_class_value text_eq
usage_class_read sign = refl
usage_class_read verify = refl
usage_class_read kem = refl
usage_class_read envelope = refl
usage_class_read config = refl

unsafe_class_read : (u : UnsafeClass) → unsafe_class_of (str (unsafe_class_value u)) ≡ u
unfolding unsafe_class_value text_eq
unsafe_class_read u1_param_weakening = refl
unsafe_class_read u2_classical_fallback = refl
unsafe_class_read u3_unchecked_verify = refl
unsafe_class_read u4_key_confusion = refl
unsafe_class_read u5_randomness_misuse = refl
unsafe_class_read u6_hybrid_downgrade = refl
unsafe_class_read u7_fail_open = refl

layer_read : (l : Layer) → layer_of (num (layer_value l)) ≡ l
unfolding layer_value
layer_read l1_syntactic = refl
layer_read l2_dataflow = refl
layer_read l3_build = refl
layer_read l4_conformance = refl

rule_status_read : (s : RuleStatus) → rule_status_of (str (rule_status_value s)) ≡ s
unfolding rule_status_value text_eq
rule_status_read pass = refl
rule_status_read fail = refl
rule_status_read RuleStatus.error = refl
rule_status_read skipped = refl

verdict_status_read : (s : VerdictStatus) → verdict_status_of (str (verdict_status_value s)) ≡ s
unfolding verdict_status_value text_eq
verdict_status_read accept = refl
verdict_status_read reject = refl
verdict_status_read escalate = refl
verdict_status_read VerdictStatus.error = refl

list_read {ℓ ℓ'} :
    {A : Type ℓ} {B : Type ℓ'} (g : A → Json) (f : Json → B) (h : A → B)
    → ((x : A) → f (sorted (g x)) ≡ h x)
    → (xs : List A) → list_of f (sorted_items (items g xs)) ≡ map h xs
unfolding items sorted
list_read g f h e [] = refl
list_read g f h e (x ∷ xs) = λ i. e x i ∷ list_read g f h e xs i

map-id {ℓ} : {A : Type ℓ} (xs : List A) → map (λ x. x) xs ≡ xs
map-id [] = refl
map-id (x ∷ xs) = ap (λ ys. x ∷ ys) (map-id xs)

option_read {ℓ} :
    {A : Type ℓ} (g : A → Json) (f : Json → A)
    → ((x : A) → option_of f (sorted (g x)) ≡ some x)
    → (o : Option A) → option_of f (sorted (optional g o)) ≡ o
unfolding optional sorted
option_read g f e none = refl
option_read g f e (some x) = e x

site_read : (s : Site) → site_of (sorted (site_json s)) ≡ s
unfolding site_json sorted sort_fields insert_field text_lt text_eq
site_read s = λ i. record s { usage_class = usage_class_read s.usage_class i }

patch_read : (p : Patch) → patch_of (sorted (patch_json p)) ≡ p
unfolding patch_json sorted sort_fields insert_field text_lt text_eq
patch_read p = refl

rule_result_read : (r : RuleResult) → rule_result_of (sorted (rule_result_json r)) ≡ r
unfolding rule_result_json sorted sort_fields insert_field text_lt text_eq
rule_result_read r = λ i. record r {
  layer = layer_read r.layer i;
  status = rule_status_read r.status i;
  unsafe_class =
      option_read (λ u. str (unsafe_class_value u)) unsafe_class_of
        (λ u i. some (unsafe_class_read u i)) r.unsafe_class i;
}

layer_report_read : (r : LayerReport) → layer_report_of (sorted (layer_report_json r)) ≡ r
unfolding layer_report_json sorted sort_fields insert_field text_lt text_eq
layer_report_read r = λ i. record r {
  layer = layer_read r.layer i;
  results =
      (list_read rule_result_json rule_result_of (λ x. x) rule_result_read r.results
          ∙ map-id r.results)
        i;
}

verdict_read : (v : Verdict) → verdict_of (sorted (verdict_json v)) ≡ v
unfolding verdict_json patch_json sorted sort_fields insert_field text_lt text_eq
verdict_read v = λ i. record v {
  status = verdict_status_read v.status i;
  accepted_patch = option_read patch_json patch_of (λ p. refl) v.accepted_patch i;
  rejected_rule_id = option_read str as_text (λ s. refl) v.rejected_rule_id i;
  layer_reports =
      (list_read layer_report_json layer_report_of (λ x. x) layer_report_read v.layer_reports
          ∙ map-id v.layer_reports)
        i;
  layers_evaluated =
      (list_read (λ l. num (layer_value l)) layer_of (λ x. x) layer_read v.layers_evaluated
          ∙ map-id v.layers_evaluated)
        i;
}

insert_field-timing :
    (k : Text) (ms : ℕ) (fs : Fields)
    → pairs_of (insert_field k (num ms) fs) ≡ insert_timing k ms (pairs_of fs)
unfolding insert_field insert_timing
insert_field-timing k ms end = refl
insert_field-timing k ms (field j v fs) = elim (Bool-cases (text_lt j k)) [
  | inl t ↦ rw t (ap (λ ts. (j, as_number v) ∷ ts) (insert_field-timing k ms fs))
  | inr f ↦ rw f refl
]

timings_read :
    (ts : List (Text × ℕ))
    → pairs_of (sort_fields (sorted_fields (timing_fields ts))) ≡ sort_timings ts
unfolding timing_fields sorted sort_fields sort_timings
timings_read [] = refl
timings_read ((k, ms) ∷ ts) =
    insert_field-timing k ms (sort_fields (sorted_fields (timing_fields ts)))
    ∙ ap (insert_timing k ms) (timings_read ts)

event_read : (e : TraceEvent) → event_of (sorted (event_json e)) ≡ sorted_timings e
unfolding event_json sorted sort_fields insert_field text_lt text_eq
event_read e = λ i. record e {
  layer = option_read (λ l. num (layer_value l)) layer_of (λ l i. some (layer_read l i)) e.layer i;
  rule_id = option_read str as_text (λ s. refl) e.rule_id i;
  timings_ms = timings_read e.timings_ms i;
}

-- The sorted payload of a trace says every field of it but the hash and the signature.
pub trace_read :
    (t : TraceRecord)
    → trace_of (sorted (trace_payload t))
      ≡ record t { events = map sorted_timings t.events; content_hash = []; signature = none }
unfolding trace_payload sorted sort_fields insert_field text_lt text_eq
trace_read t = λ i. record {
  site = site_read t.site i;
  usage_class = usage_class_read t.usage_class i;
  policy_version = t.policy_version;
  ruleset_version = t.ruleset_version;
  events = list_read event_json event_of sorted_timings event_read t.events i;
  verdict = verdict_read t.verdict i;
  content_hash = [];
  signature = none;
}
