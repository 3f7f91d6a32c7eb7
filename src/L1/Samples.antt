-- ===== src/L1/Samples.antt =====
-- The L1 rules of src/pqpatch/verifier/l1_syntactic/rules.py on small patches.
use nesy_pqpatch.Prelude.{◌≡◌, refl, Text, text, text_eq, []}
use nesy_pqpatch.Model.{pass, Site, Verdict, accept}
use nesy_pqpatch.Model.Report.{passed, first_failure, was_skipped}
use nesy_pqpatch.Regex.{found_in, find_all, whole}
use nesy_pqpatch.Rules.Registry.{rules_by_layer}
use nesy_pqpatch.Rules.Ranks.{floor_rank}
use nesy_pqpatch.Verify.{Env, run_layer, layer_order, verify_from, default_enabled_layers}
use nesy_pqpatch.Verify.Samples.{site, policy, patch, always}
use nesy_pqpatch.L1.{l1_rules}
use nesy_pqpatch.Prelude.{true, false, all, any}
use nesy_pqpatch.Python.{ok}
use nesy_pqpatch.Verify.{verify_patch}
use nesy_pqpatch.Diff.Lines.{added_lines, removed_lines, touched_files}
use nesy_pqpatch.Diff.Scope.{path_in_scope}
use nesy_pqpatch.L1.Families.{pq_primitive_re, classical_at_site_re}
use nesy_pqpatch.Regex.Words.{contains_word}
use nesy_pqpatch.L1.Guarantees.Primitives.{pq_words, classical_words}
use nesy_pqpatch.L1.Guarantees.{
  TokensAtLeast, rules_by_layer-l1_rules, accepted_patch_migrates, accepted_patch_meets_floor,
}

abbrev env : Env
env = record {
  registry = l1_rules;
  l1_stock_check = always pass;
  l3_check = always pass;
  l4_check = always pass;
  rule_ms = λ _. 1;
  layer_ms = λ _. 2;
}

abbrev diff : Text
diff = text "+++ A\n-RSA\n+ML-KEM-768"

abbrev small_site : Site
small_site = record site { file_path = text "A" }

abbrev verdict : Verdict
verdict =
    verify_from env (patch diff) small_site policy (text "pq") default_enabled_layers layer_order []
      []

unfoldable program : Unit {0}
unfolding verify_from run_layer rules_by_layer default_enabled_layers text_eq passed first_failure
    was_skipped l1_rules nesy_pqpatch.L1.Params.rule_param_01 floor_rank
    nesy_pqpatch.L1.Params.first_weak_token nesy_pqpatch.Diff.Lines.added_lines
    nesy_pqpatch.L1.Params.weak_token find_all nesy_pqpatch.Rules.Ranks.token_re
    nesy_pqpatch.Rules.Ranks.token_rank whole nesy_pqpatch.L1.Families.rule_key_01
    nesy_pqpatch.L1.Fallback.rule_fall_01 nesy_pqpatch.L1.Handlers.rule_fall_02
    nesy_pqpatch.L1.Randomness.rule_rand_01 nesy_pqpatch.L1.Randomness.rule_rand_02
    nesy_pqpatch.L1.Families.rule_hyb_01 nesy_pqpatch.L1.Families.rule_scope_01
    nesy_pqpatch.L1.Families.sort_texts nesy_pqpatch.L1.Families.out_of_scope
    nesy_pqpatch.Diff.Lines.touched_files nesy_pqpatch.Diff.Scope.path_in_scope
    nesy_pqpatch.L1.Families.check_scope nesy_pqpatch.L1.Families.check_migration_obligation
    nesy_pqpatch.L1.Families.rule_mig_01 nesy_pqpatch.L1.Families.pq_primitive_re
    nesy_pqpatch.L1.Families.classical_at_site_re nesy_pqpatch.Diff.Lines.removed_lines found_in
    nesy_pqpatch.L1.Params.rule_param_03 nesy_pqpatch.L1.Params.rule_param_04
    nesy_pqpatch.L1.Params.rule_param_05 nesy_pqpatch.L1.Fallback.rule_fall_03
    nesy_pqpatch.L1.Handlers.rule_fall_04 nesy_pqpatch.L1.Handlers.rule_exc_01
    nesy_pqpatch.L1.Handlers.rule_exc_02 nesy_pqpatch.L1.Params.check_param_weakening
    nesy_pqpatch.L1.Params.check_slh_param_floor nesy_pqpatch.L1.Params.first_weak_slh_token
    nesy_pqpatch.L1.Params.weak_slh_token nesy_pqpatch.Rules.Ranks.slh_token_re
program = tt

accepted : verdict.status ≡ accept
unfolding program
accepted = refl

returned :
    verify_patch env (patch diff) small_site policy (text "pq") default_enabled_layers ≡ ok verdict
unfolding verify_patch text_eq
returned = refl

accepted_patch_migrates_example :
    (all (λ f. path_in_scope f (text "A")) (touched_files diff) ≡ true)
    × (any (contains_word pq_words) (added_lines diff) ≡ true)
    × (any (found_in classical_at_site_re) (removed_lines diff) ≡ true)
    × (any (contains_word classical_words) (removed_lines diff) ≡ true)
unfolding default_enabled_layers
accepted_patch_migrates_example =
    accepted_patch_migrates (patch diff) small_site policy env default_enabled_layers verdict
      returned accepted refl rules_by_layer-l1_rules

accepted_patch_meets_floor_example : TokensAtLeast 3 (added_lines diff)
unfolding default_enabled_layers floor_rank
accepted_patch_meets_floor_example =
    accepted_patch_meets_floor (patch diff) small_site policy env default_enabled_layers verdict
      (text "ML-KEM-768") 3 returned accepted refl rules_by_layer-l1_rules refl refl

-- The pattern of the classical primitives matches a line with SLH-DSA, and none with ML-DSA.
slh_dsa_as_classical : found_in classical_at_site_re (text "SLH-DSA") ≡ true
unfolding found_in classical_at_site_re
slh_dsa_as_classical = refl

ml_dsa_not_classical : found_in classical_at_site_re (text "ML-DSA") ≡ false
unfolding found_in classical_at_site_re
ml_dsa_not_classical = refl
