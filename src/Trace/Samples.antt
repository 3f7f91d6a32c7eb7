-- ===== src/Trace/Samples.antt =====
-- A trace that is finalized, and two that are altered afterwards, under a digest that keeps the text.
use nesy_pqpatch.Prelude.{◌≡◌, ◌≢◌, ◌⊎◌, refl, Text, text, text_eq, false, none, some, [], ◌∷◌}
use nesy_pqpatch.Model.{kem, VerdictStatus, accept, escalate, Site, TraceRecord}
use nesy_pqpatch.Trace.{
  usage_class_value, verdict_status_value, to_canonical_json, trace_payload, finalize_trace,
  verify_content_hash,
}
use nesy_pqpatch.Trace.Dumps.{dumps}
use nesy_pqpatch.Trace.Dumps.Reader.{scalars}
use nesy_pqpatch.Trace.Tamper.{Agree, verified-agrees}

abbrev digest : Text → Text
digest s = 35 ∷ s

abbrev site : Site
site = record {
  site_id = text "S";
  repo = text "r";
  file_path = text "A.java";
  line = 1;
  usage_class = kem;
  matched_symbol = [];
  detector_rule_id = [];
}

abbrev record_of : Text → VerdictStatus → Text → TraceRecord
record_of policy_version status hash = record {
  site = site;
  usage_class = kem;
  policy_version = policy_version;
  ruleset_version = [];
  events =
      record {
        attempt = 1;
        layer = none;
        status = text "escalate";
        rule_id = none;
        timings_ms = (text "l2", 3) ∷ (text "l1", 4) ∷ [];
      }
      ∷ [];
  verdict = record {
    site_id = text "S";
    status = status;
    accepted_patch = none;
    rejected_rule_id = some (text "PQ-MIG-01");
    layer_reports = [];
    attempts_used = 1;
    layers_evaluated = [];
  };
  content_hash = hash;
  signature = none;
}

abbrev genuine : TraceRecord
genuine = record_of (text "1") escalate []

abbrev finalized : TraceRecord
finalized = record_of (text "1") escalate (finalize_trace digest genuine).content_hash

-- The policy version is altered, and the digest kept.
policy_altered :
    verify_content_hash digest
      (record_of (text "2") escalate (finalize_trace digest genuine).content_hash)
    ≡ false
unfolding verify_content_hash finalize_trace text_eq dumps
policy_altered = refl

-- The verdict is altered, and the digest kept.
verdict_altered :
    verify_content_hash digest
      (record_of (text "1") accept (finalize_trace digest genuine).content_hash)
    ≡ false
unfolding verify_content_hash finalize_trace text_eq dumps usage_class_value verdict_status_value
verdict_altered = refl

verified-agrees_example :
    Agree finalized genuine
    ⊎ ((to_canonical_json finalized ≢ to_canonical_json genuine)
        × (digest (to_canonical_json finalized) ≡ digest (to_canonical_json genuine)))
unfolding trace_payload scalars verify_content_hash finalize_trace usage_class_value
    verdict_status_value text_eq dumps
verified-agrees_example = verified-agrees digest genuine finalized refl refl refl refl
