-- ===== src/L1.antt =====
-- The L1 rules of src/pqpatch/verifier/l1_syntactic/rules.py, in the order of their registration.
pub mod Outcome
pub mod Params
pub mod Families
pub mod Fallback
pub mod Handlers
pub mod Randomness
pub mod Samples
pub mod Guarantees
use nesy_pqpatch.Prelude.{List, [], ◌∷◌}
use nesy_pqpatch.Rules.Spec.{RuleSpec}
use Params.{rule_param_01, rule_param_03, rule_param_04, rule_param_05}
use Families.{rule_key_01, rule_hyb_01, rule_scope_01, rule_mig_01}
use Fallback.{rule_fall_01, rule_fall_03}
use Handlers.{rule_fall_02, rule_fall_04, rule_exc_01, rule_exc_02}
use Randomness.{rule_rand_01, rule_rand_02}

unfoldable pub l1_rules : List RuleSpec
l1_rules =
    rule_param_01 ∷ rule_key_01 ∷ rule_fall_01 ∷ rule_fall_02 ∷ rule_rand_01 ∷ rule_rand_02
    ∷ rule_hyb_01 ∷ rule_scope_01 ∷ rule_mig_01 ∷ rule_param_03 ∷ rule_param_04 ∷ rule_param_05
    ∷ rule_fall_03 ∷ rule_fall_04 ∷ rule_exc_01 ∷ rule_exc_02 ∷ []
