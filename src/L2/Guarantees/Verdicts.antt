-- ===== src/L2/Guarantees/Verdicts.antt =====
-- What a check of src/pqpatch/verifier/l2_dataflow/rules.py leaves when it returns PASS, and that
-- none returns SKIPPED.
use nesy_pqpatch.Prelude.{
  ℕ, ◌≡◌, refl, Text, Bool, true, false, Bool-cases, Option-cases, inl, inr, not, Option, none,
  some, List, [], ◌∷◌, all, arith,
}
use nesy_pqpatch.Model.{pass, skipped, eq_status, Patch, Site, Policy}
use nesy_pqpatch.Python.{Result, ok, raised}
use nesy_pqpatch.Rules.Spec.{RuleOutcome}
use nesy_pqpatch.Rules.Ranks.{floor_rank}
use nesy_pqpatch.Verify.{Env, rule_outcome, rule_result}
use nesy_pqpatch.Verify.Layers.{rule_skips}
use nesy_pqpatch.L2.VerifyUse.{VerifyUse}
use nesy_pqpatch.L2.KeyFlow.{KeyFlow}
use nesy_pqpatch.L2.Hybrid.{HybridFlow}
use nesy_pqpatch.L2.HybridUse.{HybridUse}
use nesy_pqpatch.L2.Seed.{SeedFlow}
use nesy_pqpatch.L2.Prng.{PrngSeed}
use nesy_pqpatch.L2.Bypass.{VerifyBypass}
use nesy_pqpatch.L2.Checks.{
  Frontend, cannot_analyze, with_patched, is_verify, judge_verify_uses, judge_key_flow,
  judge_hybrid_flow, judge_seed_flow, judge_prng_seed, judge_hybrid_use, judge_verify_bypass,
  judge_tokens, judge_token_set, check_verify_result, check_key_confusion,
  check_hybrid_completeness, check_seed_provenance, check_floor, check_param_flow,
  check_verify_bypass, check_prng_seed, check_hybrid_use,
}
use nesy_pqpatch.L2.Specs.{
  l2_rules, rule_ver_01, rule_key_02, rule_hyb_02, rule_rand_03, rule_param_02, rule_ver_02,
  rule_rand_04, rule_hyb_03,
}

abbrev pub skips : Result RuleOutcome → Bool
skips r = eq_status (rule_outcome r).status skipped

with_patched-skips :
    (judge : Text → Result RuleOutcome) (r : Result Text)
    → ((s : Text) → skips (judge s) ≡ false)
    → skips (with_patched judge r) ≡ false
unfolding with_patched cannot_analyze rule_outcome
with_patched-skips judge (ok s) h = h s
with_patched-skips judge (raised exc) h = ground arith

pub with_patched-pass :
    (judge : Text → Result RuleOutcome) (r : Result Text) (x : RuleOutcome)
    → with_patched judge r ≡ ok x
    → x.status ≡ pass
    → (patched : Text) × (r ≡ ok patched) × (judge patched ≡ ok x)
unfolding with_patched cannot_analyze
with_patched-pass judge (ok s) x h p = (s, refl, h)
with_patched-pass judge (raised exc) x h p = absurd (ground (arith, h, p))

judge_verify_uses-skips : (us : List VerifyUse) → skips (judge_verify_uses us) ≡ false
unfolding judge_verify_uses rule_outcome
judge_verify_uses-skips [] = refl
judge_verify_uses-skips (u ∷ us) = ground arith

judge_key_flow-skips : (f : KeyFlow) → skips (judge_key_flow f) ≡ false
unfolding judge_key_flow rule_outcome
judge_key_flow-skips f = ground arith

judge_hybrid_flow-skips : (f : HybridFlow) → skips (judge_hybrid_flow f) ≡ false
unfolding judge_hybrid_flow rule_outcome
judge_hybrid_flow-skips f = ground arith

judge_seed_flow-skips : (f : SeedFlow) → skips (judge_seed_flow f) ≡ false
unfolding judge_seed_flow rule_outcome
judge_seed_flow-skips f = ground arith

judge_prng_seed-skips : (f : PrngSeed) → skips (judge_prng_seed f) ≡ false
unfolding judge_prng_seed rule_outcome
judge_prng_seed-skips f = ground arith

judge_hybrid_use-skips : (f : HybridUse) → skips (judge_hybrid_use f) ≡ false
unfolding judge_hybrid_use rule_outcome
judge_hybrid_use-skips f = ground arith

judge_verify_bypass-skips : (f : VerifyBypass) → skips (judge_verify_bypass f) ≡ false
unfolding judge_verify_bypass rule_outcome
judge_verify_bypass-skips f = ground arith

judge_tokens-skips :
    (floor : Text) (rank : ℕ) (ts : List Text) → skips (judge_tokens floor rank ts) ≡ false
unfolding judge_tokens rule_outcome
judge_tokens-skips floor rank [] = refl
judge_tokens-skips floor rank (t ∷ ts) = ground (arith, judge_tokens-skips floor rank ts)

judge_token_set-skips :
    (floor : Text) (rank : ℕ) (ts : Option (List Text))
    → skips (judge_token_set floor rank ts) ≡ false
unfolding judge_token_set rule_outcome
judge_token_set-skips floor rank none = refl
judge_token_set-skips floor rank (some ts) = judge_tokens-skips floor rank _

module _ (frontend : Frontend) (patch : Patch) (site : Site) (policy : Policy) where
  verify_result-skips : skips (check_verify_result frontend patch site policy) ≡ false
  unfolding check_verify_result rule_outcome
  verify_result-skips = elim (Bool-cases (is_verify site.usage_class)) [
    | inl t ↦ rw t (with_patched-skips _ _ (λ s. judge_verify_uses-skips _))
    | inr f ↦ rw f refl
  ]

  key_confusion-skips : skips (check_key_confusion frontend patch site policy) ≡ false
  unfolding check_key_confusion
  key_confusion-skips = with_patched-skips _ _ (λ s. judge_key_flow-skips _)

  hybrid_completeness-skips : skips (check_hybrid_completeness frontend patch site policy) ≡ false
  unfolding check_hybrid_completeness
  hybrid_completeness-skips = with_patched-skips _ _ (λ s. judge_hybrid_flow-skips _)

  seed_provenance-skips : skips (check_seed_provenance frontend patch site policy) ≡ false
  unfolding check_seed_provenance
  seed_provenance-skips = with_patched-skips _ _ (λ s. judge_seed_flow-skips _)

  floor-skips :
      (floor : Text) (r : Option ℕ) → skips (check_floor frontend patch site floor r) ≡ false
  unfolding check_floor rule_outcome
  floor-skips floor none = refl
  floor-skips floor (some rank) = with_patched-skips _ _ (λ s. judge_token_set-skips floor rank _)

  param_flow-skips : skips (check_param_flow frontend patch site policy) ≡ false
  unfolding check_param_flow rule_outcome
  param_flow-skips = elim (Option-cases (policy.floors site.usage_class)) [
    | inl n ↦ rw (n, check_param_flow) refl
    | inr (floor, e) ↦ rw (e, check_param_flow) (floor-skips floor (floor_rank floor))
  ]

  verify_bypass-skips : skips (check_verify_bypass frontend patch site policy) ≡ false
  unfolding check_verify_bypass rule_outcome
  verify_bypass-skips = elim (Bool-cases (is_verify site.usage_class)) [
    | inl t ↦ rw t (with_patched-skips _ _ (λ s. judge_verify_bypass-skips _))
    | inr f ↦ rw f refl
  ]

  prng_seed-skips : skips (check_prng_seed frontend patch site policy) ≡ false
  unfolding check_prng_seed
  prng_seed-skips = with_patched-skips _ _ (λ s. judge_prng_seed-skips _)

  hybrid_use-skips : skips (check_hybrid_use frontend patch site policy) ≡ false
  unfolding check_hybrid_use
  hybrid_use-skips = with_patched-skips _ _ (λ s. judge_hybrid_use-skips _)

  pub l2_rules_never_skip :
      (env : Env) → all (λ r. not (rule_skips env patch site policy r)) (l2_rules frontend) ≡ true
  unfolding l2_rules rule_result rule_ver_01 rule_key_02 rule_hyb_02 rule_rand_03 rule_param_02
      rule_ver_02 rule_rand_04 rule_hyb_03
  l2_rules_never_skip env = simp (
    verify_result-skips, key_confusion-skips, hybrid_completeness-skips, seed_provenance-skips,
    param_flow-skips, verify_bypass-skips, prng_seed-skips, hybrid_use-skips,
  )
