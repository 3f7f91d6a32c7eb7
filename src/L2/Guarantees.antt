-- ===== src/L2/Guarantees.antt =====
-- What the L2 rules of src/pqpatch/verifier/l2_dataflow/rules.py guarantee of a patch that the
-- verifier accepts.
mod Verdicts
mod Judges
pub mod Methods
use nesy_pqpatch.Prelude.{
  ℕ, ◌≤◌, ◌≡◌, ◌≢◌, refl, sym, ap, ◌∙◌, subst, Text, text, text_eq, Bool, true, false, Bool-cases,
  Option-cases, inl, inr, not, Option, none, some, List, [], ◌∷◌, any, all, keep, All, ltb, arith,
}
use nesy_pqpatch.Prelude.Utf8.{utf8_encode}
use nesy_pqpatch.Model.{
  Layer, l2_dataflow, UsageClass, verify, pass, accept, eq_layer, Patch, Site, Policy, Verdict,
}
use nesy_pqpatch.Python.{Result, ok, raised}
use nesy_pqpatch.Rules.Spec.{RuleOutcome, RuleSpec}
use nesy_pqpatch.Rules.Registry.{rules_by_layer}
use nesy_pqpatch.Rules.Ranks.{token_rank, floor_rank}
use nesy_pqpatch.Verify.{Env, verify_patch}
use nesy_pqpatch.Verify.Layers.{ReturnsPass}
use nesy_pqpatch.Verify.Accept.{accept_rules_return_pass}
use nesy_pqpatch.Trace.Dumps.{text_lt}
use nesy_pqpatch.L1.Families.{insert_text, sort_texts}
use nesy_pqpatch.L1.Guarantees.{AtLeast}
use nesy_pqpatch.L2.VerifyUse.{VerifyUse, checked, classify_verify_uses}
use nesy_pqpatch.L2.KeyFlow.{KeyFlow, classify_key_flow}
use nesy_pqpatch.L2.Hybrid.{HybridFlow, classify_hybrid_flow}
use nesy_pqpatch.L2.HybridUse.{HybridUse, classify_hybrid_use}
use nesy_pqpatch.L2.Seed.{SeedFlow, classify_seed_provenance}
use nesy_pqpatch.L2.Prng.{PrngSeed, classify_prng_seed}
use nesy_pqpatch.L2.Tokens.{algorithm_tokens_reaching_getinstance}
use nesy_pqpatch.L2.Bypass.{VerifyBypass, classify_verify_bypass}
use nesy_pqpatch.L2.Checks.{
  Frontend, patched_source, with_patched, is_verify, is_indeterminate, is_discarded,
  judge_verify_uses, judge_key_flow, judge_hybrid_flow, judge_seed_flow, judge_prng_seed,
  judge_hybrid_use, judge_verify_bypass, judge_tokens, judge_token_set, check_verify_result,
  check_key_confusion, check_hybrid_completeness, check_seed_provenance, check_floor,
  check_param_flow, check_verify_bypass, check_prng_seed, check_hybrid_use,
}
use nesy_pqpatch.L2.Specs.{
  l2_rules, rule_ver_01, rule_key_02, rule_hyb_02, rule_rand_03, rule_param_02, rule_ver_02,
  rule_rand_04, rule_hyb_03,
}
use Verdicts.{with_patched-pass, l2_rules_never_skip}
use Methods.{
  EveryMethod, KeysStayApart, SeedsVary, GeneratorsVary, classify_key_flow-consistent,
  classify_seed_provenance-clean, classify_prng_seed-safe,
}
use Judges.{
  with_patched-at, judge_key_flow-pass, judge_hybrid_flow-pass, judge_seed_flow-pass,
  judge_prng_seed-pass, judge_hybrid_use-pass, judge_verify_bypass-pass, judge_verify_uses-pass,
  judge_tokens-pass, judge_token_set-pass,
}

module _ (frontend : Frontend) (patch : Patch) (site : Site) (policy : Policy) where
  -- the rules by their places
  eight_rules :
      (P : RuleSpec → Type 0)
      → All P (l2_rules frontend)
      → P (rule_ver_01 frontend)
        × P (rule_key_02 frontend)
        × P (rule_hyb_02 frontend)
        × P (rule_rand_03 frontend)
        × P (rule_param_02 frontend)
        × P (rule_ver_02 frontend)
        × P (rule_rand_04 frontend)
        × P (rule_hyb_03 frontend)
  unfolding l2_rules
  eight_rules P h = (
    h.0, h.1.0, h.1.1.0, h.1.1.1.0, h.1.1.1.1.0, h.1.1.1.1.1.0, h.1.1.1.1.1.1.0, h.1.1.1.1.1.1.1.0,
  )

  param_flow-floor :
      (floor : Text) (rank : ℕ) (x : RuleOutcome)
      → policy.floors site.usage_class ≡ some floor
      → floor_rank floor ≡ some rank
      → check_param_flow frontend patch site policy ≡ ok x
      → check_floor frontend patch site floor (some rank) ≡ ok x
  unfolding check_param_flow
  param_flow-floor floor rank x f r h = rw r at (rw (f, check_param_flow) at h)

  module _ (env : Env) (enabled_layers : Layer → Bool) (v : Verdict)
      (returned : verify_patch env patch site policy (text "pq") enabled_layers ≡ ok v)
      (accepts : v.status ≡ accept) (on : enabled_layers l2_dataflow ≡ true)
      (registry : rules_by_layer env.registry l2_dataflow ≡ l2_rules frontend) where
    -- Each L2 rule was run on an accepted patch and passed.
    l2_rules_pass : All (ReturnsPass env patch site policy) (l2_rules frontend)
    unfolding text_eq
    l2_rules_pass = subst (All (ReturnsPass env patch site policy)) registry (
        accept_rules_return_pass env patch site policy (text "pq") enabled_layers v l2_dataflow
          returned accepts on refl
          (rw registry (l2_rules_never_skip frontend patch site policy env)))

    -- When the verifier accepts with its L2 rules on, in the mode "pq", and the rules registered for
    -- that layer are the eight L2 rules, the patch applies to the site's file and the patched source
    -- parses; in no method, as its steps assign its variables, does a sink name a variable that holds
    -- a key of the other family, a generator's constructor or seeding name a variable that holds a
    -- constant, or an unused SHA1PRNG get a constant for a seed; and no hybrid is found to be
    -- downgraded or used raw. A constant that is itself the argument of a generator is not covered.
    pub accepted_patch_flows :
        (patched : Text) × (patched_source frontend patch site ≡ ok patched)
        × ((frontend.parse (utf8_encode patched)).has_error ≡ false)
        × EveryMethod frontend.parse patched KeysStayApart
        × EveryMethod frontend.parse patched SeedsVary
        × EveryMethod frontend.parse patched GeneratorsVary
        × (classify_hybrid_flow frontend.parse patched ≢ HybridFlow.downgraded)
        × (classify_hybrid_use frontend.parse patched ≢ HybridUse.raw)
    unfolding check_key_confusion check_hybrid_completeness check_hybrid_use check_seed_provenance
        check_prng_seed rule_key_02 rule_hyb_02 rule_hyb_03 rule_rand_03 rule_rand_04
    accepted_patch_flows =
        let (_, key, hyb, seeded, _, _, prng, raw) =
          eight_rules (ReturnsPass env patch site policy) l2_rules_pass in
        let (patched, applied, judged) =
          with_patched-pass _ (patched_source frontend patch site) key.0 key.1 key.2 in
        let (parses, apart) =
          classify_key_flow-consistent frontend.parse patched
            (judge_key_flow-pass _ key.0 judged key.2) in
        let clean =
          judge_seed_flow-pass _ seeded.0 (with_patched-at _ _ patched seeded.0 applied seeded.1)
            seeded.2 in
        let safe =
          judge_prng_seed-pass _ prng.0 (with_patched-at _ _ patched prng.0 applied prng.1)
            prng.2 in
        (
          patched,
          applied,
          parses,
          apart,
          classify_seed_provenance-clean frontend.parse patched clean,
          classify_prng_seed-safe frontend.parse patched safe,
          judge_hybrid_flow-pass _ hyb.0 (with_patched-at _ _ patched hyb.0 applied hyb.1) hyb.2,
          judge_hybrid_use-pass _ raw.0 (with_patched-at _ _ patched raw.0 applied raw.1) raw.2,
        )

    -- When the verifier accepts with its L2 rules on, in the mode "pq", and the rules registered for
    -- that layer are the eight L2 rules, then at a site of the class VERIFY the patch applies, the
    -- patched source has a `verify` call, the result of each is found to be checked, and no condition
    -- is found to bypass one by a disjunction.
    pub accepted_verify_site :
        site.usage_class ≡ verify
        → (patched : Text) × (patched_source frontend patch site ≡ ok patched)
          × (classify_verify_uses frontend.parse patched ≢ [])
          × All (λ u. u ≡ checked) (classify_verify_uses frontend.parse patched)
          × (classify_verify_bypass frontend.parse patched ≡ VerifyBypass.safe)
    unfolding check_verify_result check_verify_bypass rule_ver_01 rule_ver_02
    accepted_verify_site u =
        let (uses, _, _, _, _, bypass, _, _) =
          eight_rules (ReturnsPass env patch site policy) l2_rules_pass in
        let (patched, applied, judged) =
          with_patched-pass _ (patched_source frontend patch site) uses.0
            (rw (ap is_verify u) at uses.1) uses.2 in
        let (nonempty, all_used) = judge_verify_uses-pass _ uses.0 judged uses.2 in
        (
          patched,
          applied,
          nonempty,
          all_used,
          judge_verify_bypass-pass _ bypass.0
              (with_patched-at _ _ patched bypass.0 applied (rw (ap is_verify u) at bypass.1))
              bypass.2,
        )

    -- When the verifier accepts with its L2 rules on, in the mode "pq", the rules registered for that
    -- layer are the eight L2 rules, and the policy's floor for the site's usage class is a parameter
    -- set of a known category, then the patch applies, the analysis finds which tokens reach a
    -- getInstance call of the patched source, and none of them ranks below the floor.
    pub accepted_tokens_meet_floor :
        (floor : Text) (rank : ℕ)
        → policy.floors site.usage_class ≡ some floor
        → floor_rank floor ≡ some rank
        → (patched : Text) × (tokens : List Text) × (patched_source frontend patch site
            ≡ ok patched)
          × (algorithm_tokens_reaching_getinstance frontend.parse patched ≡ some tokens)
          × All (λ t. AtLeast rank (token_rank t)) tokens
    unfolding check_param_flow check_floor rule_param_02
    accepted_tokens_meet_floor floor rank f r =
        let (_, _, _, _, param, _, _, _) =
          eight_rules (ReturnsPass env patch site policy) l2_rules_pass in
        let checked_floor = param_flow-floor floor rank param.0 f r param.1 in
        let (patched, applied, judged) =
          with_patched-pass _ (patched_source frontend patch site) param.0 checked_floor param.2 in
        let (tokens, collected, high) = judge_token_set-pass floor rank _ param.0 judged param.2 in
        (patched, tokens, applied, collected, high)
