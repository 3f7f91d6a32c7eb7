-- ===== src/L1/Guarantees/Verdicts.antt =====
-- No L1 rule of src/pqpatch/verifier/l1_syntactic/rules.py returns SKIPPED.
use nesy_pqpatch.Prelude.{◌≡◌, Bool, true, false, not, all, arith}
use nesy_pqpatch.Model.{skipped, eq_status, Patch, Site, Policy}
use nesy_pqpatch.Python.{Result}
use nesy_pqpatch.Rules.Spec.{RuleOutcome}
use nesy_pqpatch.Verify.{Env, rule_outcome, rule_result}
use nesy_pqpatch.Verify.Layers.{rule_skips}
use nesy_pqpatch.L1.{l1_rules}
use nesy_pqpatch.L1.Params.{
  check_param_weakening, check_slh_param_floor, check_nonstandard_param,
  check_classical_keysize_downgrade, rule_param_01, rule_param_03, rule_param_04, rule_param_05,
}
use nesy_pqpatch.L1.Families.{
  check_primitive_family, check_hybrid_downgrade, check_scope, check_migration_obligation,
  rule_key_01, rule_hyb_01, rule_scope_01, rule_mig_01,
}
use nesy_pqpatch.L1.Fallback.{
  check_classical_fallback, check_runtime_toggle, rule_fall_01, rule_fall_03,
}
use nesy_pqpatch.L1.Handlers.{
  check_fail_open, check_retry_in_catch, check_catch_returns_success, check_log_only_swallow,
  rule_fall_02, rule_fall_04, rule_exc_01, rule_exc_02,
}
use nesy_pqpatch.L1.Randomness.{
  check_randomness, check_literal_secure_random_seed, rule_rand_01, rule_rand_02,
}

abbrev skips : Result RuleOutcome → Bool
skips r = eq_status (rule_outcome r).status skipped

module _ (patch : Patch) (site : Site) (policy : Policy) where
  check_param_weakening-skips : skips (check_param_weakening patch site policy) ≡ false
  unfolding check_param_weakening rule_outcome
  check_param_weakening-skips = ground arith

  check_primitive_family-skips : skips (check_primitive_family patch site policy) ≡ false
  unfolding check_primitive_family rule_outcome
  check_primitive_family-skips = ground arith

  check_classical_fallback-skips : skips (check_classical_fallback patch site policy) ≡ false
  unfolding check_classical_fallback rule_outcome
  check_classical_fallback-skips = ground arith

  check_fail_open-skips : skips (check_fail_open patch site policy) ≡ false
  unfolding check_fail_open rule_outcome
  check_fail_open-skips = ground arith

  check_randomness-skips : skips (check_randomness patch site policy) ≡ false
  unfolding check_randomness rule_outcome
  check_randomness-skips = ground arith

  check_literal_secure_random_seed-skips :
      skips (check_literal_secure_random_seed patch site policy) ≡ false
  unfolding check_literal_secure_random_seed rule_outcome
  check_literal_secure_random_seed-skips = ground arith

  check_hybrid_downgrade-skips : skips (check_hybrid_downgrade patch site policy) ≡ false
  unfolding check_hybrid_downgrade rule_outcome
  check_hybrid_downgrade-skips = ground arith

  check_scope-skips : skips (check_scope patch site policy) ≡ false
  unfolding check_scope rule_outcome
  check_scope-skips = ground arith

  check_migration_obligation-skips : skips (check_migration_obligation patch site policy) ≡ false
  unfolding check_migration_obligation rule_outcome
  check_migration_obligation-skips = ground arith

  check_slh_param_floor-skips : skips (check_slh_param_floor patch site policy) ≡ false
  unfolding check_slh_param_floor rule_outcome
  check_slh_param_floor-skips = ground arith

  check_nonstandard_param-skips : skips (check_nonstandard_param patch site policy) ≡ false
  unfolding check_nonstandard_param rule_outcome
  check_nonstandard_param-skips = ground arith

  check_classical_keysize_downgrade-skips :
      skips (check_classical_keysize_downgrade patch site policy) ≡ false
  unfolding check_classical_keysize_downgrade rule_outcome
  check_classical_keysize_downgrade-skips = ground arith

  check_runtime_toggle-skips : skips (check_runtime_toggle patch site policy) ≡ false
  unfolding check_runtime_toggle rule_outcome
  check_runtime_toggle-skips = ground arith

  check_retry_in_catch-skips : skips (check_retry_in_catch patch site policy) ≡ false
  unfolding check_retry_in_catch rule_outcome
  check_retry_in_catch-skips = ground arith

  check_catch_returns_success-skips : skips (check_catch_returns_success patch site policy) ≡ false
  unfolding check_catch_returns_success rule_outcome
  check_catch_returns_success-skips = ground arith

  check_log_only_swallow-skips : skips (check_log_only_swallow patch site policy) ≡ false
  unfolding check_log_only_swallow rule_outcome
  check_log_only_swallow-skips = ground arith

  pub l1_rules_never_skip :
      (env : Env) → all (λ r. not (rule_skips env patch site policy r)) l1_rules ≡ true
  unfolding l1_rules rule_result rule_outcome rule_param_01 rule_key_01 rule_fall_01 rule_fall_02
      rule_rand_01 rule_rand_02 rule_hyb_01 rule_scope_01 rule_mig_01 rule_param_03 rule_param_04
      rule_param_05 rule_fall_03 rule_fall_04 rule_exc_01 rule_exc_02
  l1_rules_never_skip env = simp (
    check_param_weakening-skips, check_primitive_family-skips, check_classical_fallback-skips,
    check_fail_open-skips, check_randomness-skips, check_literal_secure_random_seed-skips,
    check_hybrid_downgrade-skips, check_scope-skips, check_migration_obligation-skips,
    check_slh_param_floor-skips, check_nonstandard_param-skips,
    check_classical_keysize_downgrade-skips, check_runtime_toggle-skips, check_retry_in_catch-skips,
    check_catch_returns_success-skips, check_log_only_swallow-skips,
  )
