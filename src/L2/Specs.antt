-- ===== src/L2/Specs.antt =====
-- The rules of src/pqpatch/verifier/l2_dataflow/rules.py, in the order of their registration.
use nesy_pqpatch.Prelude.{text, some, List, [], ◌∷◌}
use nesy_pqpatch.Model.{
  l2_dataflow, u1_param_weakening, u3_unchecked_verify, u4_key_confusion, u5_randomness_misuse,
  u6_hybrid_downgrade,
}
use nesy_pqpatch.Rules.Spec.{RuleSpec}
use nesy_pqpatch.L2.Checks.{
  Frontend, check_verify_result, check_key_confusion, check_hybrid_completeness,
  check_seed_provenance, check_param_flow, check_verify_bypass, check_prng_seed, check_hybrid_use,
}

module _ (frontend : Frontend) where
  unfoldable pub rule_ver_01 : RuleSpec
  rule_ver_01 = record {
    rule_id = text "PQ-VER-01";
    layer = l2_dataflow;
    unsafe_class = some u3_unchecked_verify;
    cwe = text "CWE-252";
    severity = text "high";
    rationale =
        text
          "The migrated signature verification result is discarded or does not reach a control-flow decision or explicit return. Re-propose so a failed verification cannot continue as success.";
    check = check_verify_result frontend;
  }

  unfoldable pub rule_key_02 : RuleSpec
  rule_key_02 = record {
    rule_id = text "PQ-KEY-02";
    layer = l2_dataflow;
    unsafe_class = some u4_key_confusion;
    cwe = text "CWE-327";
    severity = text "high";
    rationale =
        text
          "A key object produced for one algorithm family (ML-KEM for key establishment, or ML-DSA/SLH-DSA for signatures) is used at an operation of the other family. Re-propose so each key flows only into operations of its own family.";
    check = check_key_confusion frontend;
  }

  unfoldable pub rule_hyb_02 : RuleSpec
  rule_hyb_02 = record {
    rule_id = text "PQ-HYB-02";
    layer = l2_dataflow;
    unsafe_class = some u6_hybrid_downgrade;
    cwe = text "CWE-327";
    severity = text "high";
    rationale =
        text
          "A mandated hybrid must combine both shared secrets: the classical (e.g. ECDHE) and the ML-KEM contribution must both reach the key derivation. This patch drops one component before the KDF. Re-propose so both secrets are combined into the derived key.";
    check = check_hybrid_completeness frontend;
  }

  unfoldable pub rule_rand_03 : RuleSpec
  rule_rand_03 = record {
    rule_id = text "PQ-RAND-03";
    layer = l2_dataflow;
    unsafe_class = some u5_randomness_misuse;
    cwe = text "CWE-337";
    severity = text "high";
    rationale =
        text
          "Key-generation randomness is seeded from a fixed/literal value that reaches SecureRandom through a variable, so the generator is predictable. Re-propose seeding only from an approved entropy source.";
    check = check_seed_provenance frontend;
  }

  unfoldable pub rule_param_02 : RuleSpec
  rule_param_02 = record {
    rule_id = text "PQ-PARAM-02";
    layer = l2_dataflow;
    unsafe_class = some u1_param_weakening;
    cwe = text "CWE-326";
    severity = text "high";
    rationale =
        text
          "In the patched program, a post-quantum parameter set below the policy floor flows into getInstance -- through a variable, so the token need not appear in the diff itself. Re-propose so every algorithm string reaching getInstance meets the policy floor.";
    check = check_param_flow frontend;
  }

  unfoldable pub rule_ver_02 : RuleSpec
  rule_ver_02 = record {
    rule_id = text "PQ-VER-02";
    layer = l2_dataflow;
    unsafe_class = some u3_unchecked_verify;
    cwe = text "CWE-807";
    severity = text "high";
    rationale =
        text
          "The migrated verification result reaches a branch, but OR-ed with another condition -- the branch can be taken with verification failed. Re-propose so acceptance requires the verify result to be true, not merely one sufficient alternative.";
    check = check_verify_bypass frontend;
  }

  unfoldable pub rule_rand_04 : RuleSpec
  rule_rand_04 = record {
    rule_id = text "PQ-RAND-04";
    layer = l2_dataflow;
    unsafe_class = some u5_randomness_misuse;
    cwe = text "CWE-337";
    severity = text "high";
    rationale =
        text
          "A deterministically-seeded PRNG is seeded with a constant before its first use, so key material derived from it is predictable. Re-propose seeding from an approved entropy source, or reseeding only to supplement an already-seeded generator.";
    check = check_prng_seed frontend;
  }

  unfoldable pub rule_hyb_03 : RuleSpec
  rule_hyb_03 = record {
    rule_id = text "PQ-HYB-03";
    layer = l2_dataflow;
    unsafe_class = some u6_hybrid_downgrade;
    cwe = text "CWE-327";
    severity = text "medium";
    rationale =
        text
          "Both hybrid secrets are combined, but the combination is used raw as key material instead of passing through a key-derivation function. Re-propose deriving the key from the combined secret (e.g. HKDF over the concatenation).";
    check = check_hybrid_use frontend;
  }

  unfoldable pub l2_rules : List RuleSpec
  l2_rules =
      rule_ver_01 ∷ rule_key_02 ∷ rule_hyb_02 ∷ rule_rand_03 ∷ rule_param_02 ∷ rule_ver_02
      ∷ rule_rand_04 ∷ rule_hyb_03 ∷ []
